-- ===== src/Ata/Tests.antt =====
-- lib/devs/ata.c at a small disk, and at a bus without controllers.
use jonix.Base.{
  ℕ, suc, ◌+◌, ◌-◌, ◌*◌, ◌%◌, ◌≡◌, refl, Bool, true, false, ltb, ◌==◌, if◌then◌else◌, arith,
  Bool-cases, inl, inr,
}
use jonix.Io.{Ports}
use jonix.Heap.{done}
use jonix.Util.LinkedList.{Allocator, list_new}
use jonix.Ptbl.{Partition}
use jonix.Pci.{zero_dev}
use jonix.Ata.{AtaCtlr, is_bsy, ata_pio_lba28_read}
use jonix.Ata.Drive.{Regs, Transfer, started, advance, stream, request, IsReady, IsDrive}
use jonix.Ata.Load.{loaded}
use jonix.Ata.Read.{ata_pio_lba28_read-sectors}
use jonix.Ata.Bounds.{ata_pio_lba28_read-outside}
use jonix.Ata.Find.{Ata, ata_find_devs, new_ctlr, ata_base_1, ata_base_2, ata_base_3, ata_base_4}
use jonix.Ata.Search.{polled, no_ctlrs, ata_find_devs-floating}

-- Word `j` of sector `i` is `i * 256 + j`, on both drives.
abbrev disk : ℕ → ℕ → ℕ → ℕ
disk drive i j = i * 256 + j

-- `wait` modulo 4 is the number of polls until the drive is ready.
record Sim : Type 0 where
  regs : Regs
  xfer : Transfer
  wait : ℕ

abbrev sim_out : Sim → ℕ → ℕ → Sim
sim_out s port v =
    if port == 502
    then record s { regs = record (s.regs) { head = v } }
    else if port == 498
    then record s { regs = record (s.regs) { count = v } }
    else if port == 499
    then record s { regs = record (s.regs) { lba1 = v } }
    else if port == 500
    then record s { regs = record (s.regs) { lba2 = v } }
    else if port == 501
    then record s { regs = record (s.regs) { lba3 = v } }
    else record s { xfer = started s.regs; wait = 3 }

abbrev sim_in : Sim → ℕ → Sim × ℕ
sim_in s port = if s.wait % 4 == 0 then (s, 88) else (record s { wait = s.wait - 1 }, 128)

abbrev sim_word : Sim → ℕ → Sim × ℕ
sim_word s port = (
  record s { xfer = advance 1 s.xfer; wait = if ltb (s.xfer.pos % 256) 255 then 0 else 3 },
  stream disk s.xfer s.xfer.pos,
)

abbrev sim : Ports
sim = record {
  State = Sim;
  inb = sim_in;
  outb = sim_out;
  inw = sim_word;
  outl = λ s p v. s;
  inl = λ s p. (s, 0);
}

poll_sim-busy :
    (s : Sim) (n : ℕ)
    → s.wait % 4 ≡ suc n
    → (is_bsy (sim_in s 503).1 ≡ true) × ((sim_in s 503).0.wait % 4 ≡ n)
poll_sim-busy s n e =
    let ne : s.wait % 4 == 0 ≡ false = ground (arith, e) in rw ne (refl, omega (arith, e))

poll_sim-IsReady :
    (s : Sim) → s.wait % 4 ≡ 0 → IsReady (sim_in s 503).1 × ((sim_in s 503).0.wait % 4 ≡ 0)
poll_sim-IsReady s e =
    let eq : s.wait % 4 == 0 ≡ true = ground (arith, e) in
    rw eq (record { not_bsy = refl; not_bad = refl; drq = refl }, e)

poll_sim : (s : Sim) → (sim_in s 503).0.xfer ≡ s.xfer
poll_sim s = elim (Bool-cases (s.wait % 4 == 0)) [ inl e ↦ rw e refl | inr e ↦ rw e refl ]

sim-IsDrive : IsDrive sim ata_base_1 disk
sim-IsDrive = record {
  regs = λ s. s.regs;
  xfer = λ s. s.xfer;
  delay = λ s. s.wait % 4;
  quick = λ s. omega arith;
  out_head = λ s v. refl;
  out_count = λ s v. refl;
  out_lba1 = λ s v. refl;
  out_lba2 = λ s v. refl;
  out_lba3 = λ s v. refl;
  command = λ s mode. refl;
  poll = poll_sim;
  poll_busy = poll_sim-busy;
  poll_ready = λ s e more. poll_sim-IsReady s e;
  read_word = λ s e more. (refl, refl);
  read_delay =
      λ s e more. let lt : ltb (s.xfer.pos % 256) 255 ≡ true = ground (arith, more) in rw lt refl;
}

abbrev idle : Sim
idle = record {
  regs = record { head = 0; count = 0; lba1 = 0; lba2 = 0; lba3 = 0 };
  xfer = record { drive = 0; first = 0; size = 0; pos = 0 };
  wait = 0;
}

abbrev ctlr : AtaCtlr Unit
ctlr = new_ctlr ata_base_1

-- Sectors 5 and 6 of the second drive.
ata_pio_lba28_read-sectors_example :
    ((ata_pio_lba28_read sim idle ctlr 1000 true 5 2 (λ a. 0) 4096).3 ≡ true)
    × ((ata_pio_lba28_read sim idle ctlr 1000 true 5 2 (λ a. 0) 4096).2
        ≡ loaded (stream disk (request true 5 2)) 0 4096 (512 * 2) (λ a. 0))
ata_pio_lba28_read-sectors_example =
    ata_pio_lba28_read-sectors sim disk idle ctlr 1000 true 5 2 (λ a. 0) 4096 sim-IsDrive
      (omega arith) (omega arith) (omega arith)

ata_pio_lba28_read-outside_example :
    (ata_pio_lba28_read sim idle ctlr 1000 true 5 2 (λ a. 7) 4096).2 5120 ≡ 7
ata_pio_lba28_read-outside_example =
    ata_pio_lba28_read-outside sim idle ctlr 1000 true 5 2 (λ a. 7) 4096 5120 refl

-- A bus without devices, whose state is the number of the reads.
abbrev floating : Ports
floating = record {
  State = ℕ;
  inb = λ s p. (s + 1, 255);
  outb = λ s p v. s;
  inw = λ s p. (s, 65535);
  outl = λ s p v. s;
  inl = λ s p. (s, 0);
}

abbrev no_heap : Allocator
no_heap = record { State = ℕ; kmalloc = λ s n. (s, 0); kfree = λ s p. s }

abbrev no_add : ℕ → Partition → ℕ × Bool
no_add l p = (l, true)

abbrev before : Ata floating no_heap 0 no_add (λ p. p)
before = record {
  ports = 0;
  heap = 0;
  nodes = λ p. record { value = 0; next = 0; prev = 0 };
  mem = λ a. 0;
}

ata_find_devs-floating_example :
    ata_find_devs floating no_heap 0 no_add (λ p. p) list_new (λ p. zero_dev) before
    ≡ done (
      polled floating no_heap 0 no_add
          (λ p. p)
          (polled floating no_heap 0 no_add
            (λ p. p)
            (polled floating no_heap 0 no_add
              (λ p. p)
              (polled floating no_heap 0 no_add (λ p. p) before ata_base_1)
              ata_base_2)
            ata_base_3)
          ata_base_4,
      no_ctlrs floating no_heap 0 no_add (λ p. p),
    )
ata_find_devs-floating_example =
    ata_find_devs-floating floating no_heap 0 no_add (λ p. p) list_new (λ p. zero_dev) before
      (λ s p. refl)
