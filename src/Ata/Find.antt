-- ===== src/Ata/Find.antt =====
-- lib/devs/ata.c: the search for the drives of a controller, and for the controllers.
use jonix.Base.{
  ℕ, ◌+◌, ◌*◌, ◌/◌, ◌%◌, ◌^◌, Bool, true, false, not, ◌||◌, Option, none, some, ltb, ◌==◌,
  if◌then◌else◌, Ptr, null, Mem, [],
}
use jonix.Io.{Ports}
use jonix.Heap.{Outcome, done, panic}
use jonix.Util.LinkedList.{Nodes, ListHead, Allocator, list_get}
use jonix.Threads.{sem_new, and_then}
use jonix.Ptbl.{Partition}
use jonix.Pci.{PciDev}
use jonix.Ata.{
  AtaDev, AtaCtlr, bit, ata_sec_cnt, ata_sec_num, ata_alt_status, ata_ctl, ata_ctlr_select_dev,
  ata_ctlr_reset,
}
use jonix.Ata.Dev.{ata_dev_identify, ata_dev_find_parts}
use jonix.Ata.Prdt.{ata_prdt_new}

-- `sizeof` of ata_dev_t and ata_ctlr_t on i386.
abbrev pub sizeof_ata_dev : ℕ
sizeof_ata_dev = 116

abbrev pub sizeof_ata_ctlr : ℕ
sizeof_ata_ctlr = 44

abbrev pub ata_base_1 : ℕ
ata_base_1 = 496

abbrev pub ata_base_2 : ℕ
ata_base_2 = 368

abbrev pub ata_base_3 : ℕ
ata_base_3 = 488

abbrev pub ata_base_4 : ℕ
ata_base_4 = 360

abbrev pub ata_bm_status : ℕ
ata_bm_status = 2

abbrev pub ata_bm_prdt_addr : ℕ
ata_bm_prdt_addr = 4

-- What kmalloc returns for a device, and what is written before the drive is looked at.
abbrev pub new_dev : {L : Type 0} → L → AtaDev L
new_dev parts = record {
  sem = sem_new 1;
  atapi = false;
  use_dma = false;
  serial = [];
  model = [];
  dma_sup = 0;
  dma_sel = 0;
  udma_sup = 0;
  udma_sel = 0;
  sec_cnt_28 = 0;
  sec_cnt_48 = 0;
  lba48 = false;
  parts = parts;
}

abbrev pub new_ctlr : {L : Type 0} → ℕ → AtaCtlr L
new_ctlr base = record {
  sem = sem_new 0;
  base = base;
  busmaster = 0;
  dma_simplex = false;
  prdt = null;
  dev0 = none;
  dev1 = none;
  sel_dev = false;
}

abbrev pub set_dev : {L : Type 0} → Bool → Option (AtaDev L) → AtaCtlr L → AtaCtlr L
set_dev false dev ctlr = record ctlr { dev0 = dev }
set_dev true dev ctlr = record ctlr { dev1 = dev }

abbrev pub set_use_dma : {L : Type 0} → Bool → Option (AtaDev L) → Option (AtaDev L)
set_use_dma on none = none
set_use_dma on (some dev) = some (record dev { use_dma = on })

abbrev pub no_devs : {L : Type 0} → AtaCtlr L → Bool
no_devs ctlr = elim ctlr.dev0 [
  | none ↦ elim ctlr.dev1 [ none ↦ true | some dev ↦ false ]
  | some dev ↦ false
]

-- `list` is the empty list of partitions and `add` is list_add for them; `v2p` is addr_v2p.
module _ (P : Ports) (A : Allocator) {L : Type 0} (list : L) (add : L → Partition → L × Bool)
    (v2p : ℕ → ℕ) where
  pub record Ata : Type 0 where
    pub ports : P.State
    pub heap : A.State
    pub nodes : Nodes
    pub mem : Mem

  -- The body of the loop of ata_ctlr_find_devs, from the two bytes on that were read back.
  unfoldable pub find_dev_at : Ata → AtaCtlr L → Bool → Outcome (Ata × AtaCtlr L)
  find_dev_at k ctlr devno =
      let (heap1, ptr) = A.kmalloc k.heap sizeof_ata_dev in
      let (s1, ctlr1, reset) = ata_ctlr_reset P k.ports ctlr in
      let (s2, ctlr2, dev, identified) = ata_dev_identify P s1 ctlr1 devno (new_dev list) in
      let (s3, heap2, mem, ctlr3, dev', found) =
        ata_dev_find_parts P A add s2 heap1 k.mem ctlr2 devno dev in
      if ptr == null
      then panic
      else if identified
      then done (record k { ports = s3; heap = heap2; mem = mem }, set_dev devno (some dev') ctlr3)
      else done (record k { ports = s2; heap = heap1 }, set_dev devno (some dev) ctlr2)

  unfoldable pub find_dev : Ata → AtaCtlr L → Bool → Outcome (Ata × AtaCtlr L)
  find_dev k ctlr devno =
      let extra = if devno then 50 else 0 in
      let (s1, ctlr') = ata_ctlr_select_dev P k.ports ctlr devno in
      let s2 = P.outb s1 (ctlr.base + ata_sec_num) (187 + extra) in
      let s3 = P.outb s2 (ctlr.base + ata_sec_cnt) (59 + extra) in
      let (s4, sec_num) = P.inb s3 (ctlr.base + ata_sec_num) in
      let (s5, sec_cnt) = P.inb s4 (ctlr.base + ata_sec_cnt) in
      let present = find_dev_at (record k { ports = s5 }) ctlr' devno in
      if not (sec_num == 187 + extra) || not (sec_cnt == 59 + extra)
      then done (record k { ports = s5 }, set_dev devno none ctlr')
      else present

  unfoldable pub ata_ctlr_find_devs : Ata → AtaCtlr L → Outcome (Ata × AtaCtlr L)
  ata_ctlr_find_devs k ctlr = and_then (find_dev k ctlr false) (λ r. find_dev r.0 r.1 true)

  -- The busmaster of a controller with drives; `second` is `i % 2`, and `bar4` is 0 without one.
  unfoldable pub set_busmaster : Ata → AtaCtlr L → Bool → ℕ → Ata × AtaCtlr L
  set_busmaster k ctlr second bar4 =
      let busmaster = (bar4 / 2 ^ 4 * 2 ^ 4 + (if second then 8 else 0)) % 2 ^ 32 in
      let s1 = P.outl k.ports ((busmaster + ata_bm_prdt_addr) % 2 ^ 16) (v2p ctlr.prdt) in
      let (s2, bm_status) = P.inb s1 ((busmaster + ata_bm_status) % 2 ^ 16) in
      if bar4 == 0
      then (
        k,
        record ctlr { dev0 = set_use_dma false ctlr.dev0; dev1 = set_use_dma false ctlr.dev1 },
      )
      else (
        record k { ports = s2 },
        record ctlr {
          busmaster = busmaster;
          dma_simplex = bit 7 bm_status;
          dev0 = set_use_dma (bit 5 bm_status) ctlr.dev0;
          dev1 = set_use_dma (bit 6 bm_status) ctlr.dev1;
        },
      )

  -- The part of the loop of ata_find_devs behind ata_ctlr_find_devs.
  unfoldable pub setup_ctlr :
      ListHead → (Ptr → PciDev) → Ata → AtaCtlr L → ℕ → Bool → Outcome (Ata × Option (AtaCtlr L))
  setup_ctlr ide_ctlrs devs k ctlr pair second =
      let s1 = P.outb k.ports (ctlr.base + ata_ctl) 0 in
      let with_prdt = and_then (ata_prdt_new A k.heap k.nodes k.mem) (λ r.
        let (heap, nodes, mem, prdt) = r in
        let k' : Ata = record { ports = s1; heap = heap; nodes = nodes; mem = mem } in
        let bar4 =
          if ltb ide_ctlrs.size (1 + pair)
          then 0
          else (devs (list_get ide_ctlrs nodes pair)).bar4 in
        let (k'', ctlr') = set_busmaster k' (record ctlr { prdt = prdt }) second bar4 in
        if prdt == null then panic else done (k'', some ctlr')) in
      if no_devs ctlr
      then done (
        k,
        some (record ctlr { sem = sem_new 1; busmaster = 0; dma_simplex = false; prdt = null }),
      )
      else with_prdt

  -- The body of the loop of ata_find_devs.
  unfoldable pub find_ctlr :
      ListHead → (Ptr → PciDev) → Ata → ℕ → ℕ → Bool → Outcome (Ata × Option (AtaCtlr L))
  find_ctlr ide_ctlrs devs k base pair second =
      let (s1, status) = P.inb k.ports (base + ata_alt_status) in
      let (heap, ptr) = A.kmalloc k.heap sizeof_ata_ctlr in
      let found =
        and_then (ata_ctlr_find_devs (record k { ports = s1; heap = heap }) (new_ctlr base))
          (λ r. setup_ctlr ide_ctlrs devs r.0 r.1 pair second) in
      if status == 255
      then done (record k { ports = s1 }, none)
      else if ptr == null
      then panic
      else found

  pub record Ctlrs : Type 0 where
    pub ctlr0 : Option (AtaCtlr L)
    pub ctlr1 : Option (AtaCtlr L)
    pub ctlr2 : Option (AtaCtlr L)
    pub ctlr3 : Option (AtaCtlr L)

  unfoldable pub ata_find_devs : ListHead → (Ptr → PciDev) → Ata → Outcome (Ata × Ctlrs)
  ata_find_devs ide_ctlrs devs k = and_then (find_ctlr ide_ctlrs devs k ata_base_1 0 false) (λ r0.
      and_then (find_ctlr ide_ctlrs devs r0.0 ata_base_2 0 true) (λ r1.
        and_then (find_ctlr ide_ctlrs devs r1.0 ata_base_3 1 false) (λ r2.
          and_then (find_ctlr ide_ctlrs devs r2.0 ata_base_4 1 true) (λ r3.
            done (r3.0, record { ctlr0 = r0.1; ctlr1 = r1.1; ctlr2 = r2.1; ctlr3 = r3.1 })))))
