-- ===== src/Ata.antt =====
-- lib/devs/ata.c: the registers of an ATA controller, the waits for its status, and the reading of
-- sectors. The error string is not kept.
pub mod Dev
pub mod Prdt
pub mod Find
pub mod Dma
pub mod Drive
pub mod Load
pub mod Words
pub mod Read
pub mod Bounds
pub mod Search
mod Tests
use jonix.Base.{
  ℕ, zero, suc, ◌+◌, ◌*◌, ◌/◌, ◌%◌, ◌^◌, Bool, true, false, not, ◌&&◌, ◌||◌, Option, none, some,
  ltb, leb, ◌==◌, if◌then◌else◌, List, [], ◌∷◌, Ptr, null, Mem, store8,
}
use jonix.Io.{Ports}
use jonix.Threads.{Sem}

abbrev pub ata_wait_timeout : ℕ
ata_wait_timeout = 1000

-- The ports, from the base of a controller.
abbrev pub ata_data : ℕ
ata_data = 0

abbrev pub ata_err : ℕ
ata_err = 1

abbrev pub ata_sec_cnt : ℕ
ata_sec_cnt = 2

abbrev pub ata_sec_num : ℕ
ata_sec_num = 3

abbrev pub ata_lba_1 : ℕ
ata_lba_1 = 3

abbrev pub ata_lba_2 : ℕ
ata_lba_2 = 4

abbrev pub ata_lba_3 : ℕ
ata_lba_3 = 5

abbrev pub ata_drive_select : ℕ
ata_drive_select = 6

abbrev pub ata_status : ℕ
ata_status = 7

abbrev pub ata_cmd : ℕ
ata_cmd = 7

abbrev pub ata_alt_status : ℕ
ata_alt_status = 518

abbrev pub ata_ctl : ℕ
ata_ctl = 518

abbrev pub ata_ctl_reset : ℕ
ata_ctl_reset = 4

abbrev pub ata_cmd_identify_drive : ℕ
ata_cmd_identify_drive = 236

abbrev pub ata_cmd_read_sectors : ℕ
ata_cmd_read_sectors = 33

-- `x & BIT(k)`, as a test.
abbrev pub bit : ℕ → ℕ → Bool
bit k x = x / 2 ^ k % 2 == 1

abbrev pub is_bsy : ℕ → Bool
is_bsy status = bit 7 status

abbrev pub is_rdy : ℕ → Bool
is_rdy status = bit 6 status

abbrev pub is_drq : ℕ → Bool
is_drq status = bit 3 status

-- The error bit or the device fault bit.
abbrev pub is_bad : ℕ → Bool
is_bad status = bit 0 status || bit 5 status

-- A device; `L` is the type of lists of partitions.
pub record AtaDev (L : Type 0) : Type 0 where
  pub sem : Sem
  pub atapi : Bool
  pub use_dma : Bool
  pub serial : List ℕ
  pub model : List ℕ
  pub dma_sup : ℕ
  pub dma_sel : ℕ
  pub udma_sup : ℕ
  pub udma_sel : ℕ
  pub sec_cnt_28 : ℕ
  pub sec_cnt_48 : ℕ
  pub lba48 : Bool
  pub parts : L

-- A controller. NULL for a device is `none`.
pub record AtaCtlr (L : Type 0) : Type 0 where
  pub sem : Sem
  pub base : ℕ
  pub busmaster : ℕ
  pub dma_simplex : Bool
  pub prdt : Ptr
  pub dev0 : Option (AtaDev L)
  pub dev1 : Option (AtaDev L)
  pub sel_dev : Bool

module _ (P : Ports) where
  -- The loops of the waits, with `left` reads of the status to go.
  unfoldable pub wait_rdy_loop : ℕ → ℕ → P.State → P.State × Bool
  wait_rdy_loop base zero s = (s, false)
  wait_rdy_loop base (suc left) s =
      let (s', status) = P.inb s (base + ata_status) in
      let rest = wait_rdy_loop base left s' in
      if is_bsy status
      then rest
      else if is_bad status
      then (s', false)
      else if is_rdy status
      then (s', true)
      else rest

  unfoldable pub wait_not_bsy_loop : ℕ → ℕ → P.State → P.State × Bool
  wait_not_bsy_loop base zero s = (s, false)
  wait_not_bsy_loop base (suc left) s =
      let (s', status) = P.inb s (base + ata_status) in
      let rest = wait_not_bsy_loop base left s' in
      if is_bsy status then rest else if is_bad status then (s', false) else (s', true)

  unfoldable pub wait_bsy_loop : ℕ → ℕ → P.State → P.State × Bool
  wait_bsy_loop base zero s = (s, false)
  wait_bsy_loop base (suc left) s =
      let (s', status) = P.inb s (base + ata_status) in
      let rest = wait_bsy_loop base left s' in if is_bsy status then (s', true) else rest

  unfoldable pub wait_drq_loop : ℕ → ℕ → P.State → P.State × Bool
  wait_drq_loop base zero s = (s, false)
  wait_drq_loop base (suc left) s =
      let (s', status) = P.inb s (base + ata_status) in
      let rest = wait_drq_loop base left s' in
      if is_bsy status
      then rest
      else if is_bad status
      then (s', false)
      else if is_drq status
      then (s', true)
      else rest

  unfoldable pub ata_ctlr_wait_rdy : ℕ → P.State → P.State × Bool
  ata_ctlr_wait_rdy base s = wait_rdy_loop base ata_wait_timeout s

  unfoldable pub ata_ctlr_wait_not_bsy : ℕ → P.State → P.State × Bool
  ata_ctlr_wait_not_bsy base s = wait_not_bsy_loop base ata_wait_timeout s

  unfoldable pub ata_ctlr_wait_bsy : ℕ → P.State → P.State × Bool
  ata_ctlr_wait_bsy base s = wait_bsy_loop base ata_wait_timeout s

  unfoldable pub ata_ctlr_wait_drq : ℕ → P.State → P.State × Bool
  ata_ctlr_wait_drq base s = wait_drq_loop base ata_wait_timeout s

  -- The five reads that give the controller time.
  abbrev pub read_5 : ℕ → P.State → P.State
  read_5 port s = (P.inb (P.inb (P.inb (P.inb (P.inb s port).0 port).0 port).0 port).0 port).0

  unfoldable pub ata_ctlr_select_dev :
      {L : Type 0} → P.State → AtaCtlr L → Bool → P.State × AtaCtlr L
  ata_ctlr_select_dev s ctlr true = if ctlr.sel_dev then (s, ctlr) else (
    read_5 (ctlr.base + ata_status) (P.outb s (ctlr.base + ata_drive_select) 176),
    record ctlr { sel_dev = true },
  )
  ata_ctlr_select_dev s ctlr false =
      if ctlr.sel_dev
      then (
        read_5 (ctlr.base + ata_status) (P.outb s (ctlr.base + ata_drive_select) 160),
        record ctlr { sel_dev = false },
      )
      else (s, ctlr)

  unfoldable pub ata_ctlr_reset : {L : Type 0} → P.State → AtaCtlr L → P.State × AtaCtlr L × Bool
  ata_ctlr_reset s ctlr =
      let (s1, set) = ata_ctlr_wait_bsy ctlr.base (P.outb s (ctlr.base + ata_ctl) ata_ctl_reset) in
      let (s2, clear) = ata_ctlr_wait_not_bsy ctlr.base (P.outb s1 (ctlr.base + ata_ctl) 0) in
      let (s3, ready) = ata_ctlr_wait_rdy ctlr.base s2 in
      let (s4, ctlr') = ata_ctlr_select_dev s3 (record ctlr { sel_dev = false }) ctlr.sel_dev in
      if not set
      then (s1, ctlr, false)
      else if not clear
      then (s2, ctlr, false)
      else if not ready
      then (s3, ctlr, false)
      else (s4, ctlr', true)

  -- `n` words from the data port.
  unfoldable pub read_words : ℕ → ℕ → P.State → P.State × List ℕ
  read_words port zero s = (s, [])
  read_words port (suc n) s =
      let (s', word) = P.inw s port in
      let (s'', words) = read_words port n s' in (s'', word ∷ words)

  -- The inner loop of ata_pio_lba28_read: `n` words from the data port go to memory.
  unfoldable pub read_data : ℕ → ℕ → P.State → Mem → Ptr → P.State × Mem
  read_data port zero s m buffer = (s, m)
  read_data port (suc n) s m buffer =
      let (s', word) = P.inw s port in
      read_data port n s' (store8 (store8 m buffer (word % 2 ^ 8)) (buffer + 1) (word / 2 ^ 8))
        (buffer + 2)

  -- The outer loop, with `n` sectors to go.
  unfoldable pub read_sectors : ℕ → ℕ → P.State → Mem → Ptr → P.State × Mem × Bool
  read_sectors base zero s m buffer = (s, m, true)
  read_sectors base (suc n) s m buffer =
      let (s1, ok) = ata_ctlr_wait_drq base s in
      let (s2, m') = read_data (base + ata_data) 256 s1 m buffer in
      let rest = read_sectors base n s2 m' (buffer + 512) in if ok then rest else (s1, m, false)

  -- The registers of a read. `(lba << 24) & 0x0F` is in the third summand; the bits do not meet.
  unfoldable pub read_command : ℕ → Bool → ℕ → ℕ → P.State → P.State
  read_command base devno lba sec_cnt s =
      let head = 2 ^ 6 + (if devno then 2 ^ 4 else 0) + lba * 2 ^ 24 % 2 ^ 32 % 2 ^ 4 in
      let s1 = P.outb s (base + ata_drive_select) head in
      let s2 = P.outb s1 (base + ata_sec_cnt) sec_cnt in
      let s3 = P.outb s2 (base + ata_lba_1) (lba % 2 ^ 8) in
      let s4 = P.outb s3 (base + ata_lba_2) (lba / 2 ^ 8 % 2 ^ 8) in
      let s5 = P.outb s4 (base + ata_lba_3) (lba / 2 ^ 16 % 2 ^ 8) in
      P.outb s5 (base + ata_cmd) ata_cmd_read_sectors

  -- `sec_cnt_28` is that of the device. The semaphores are commented out in the source.
  unfoldable pub ata_pio_lba28_read :
      {L : Type 0}
      → P.State
      → AtaCtlr L
      → ℕ
      → Bool
      → ℕ
      → ℕ
      → Mem
      → Ptr
      → P.State × AtaCtlr L × Mem × Bool
  ata_pio_lba28_read s ctlr sec_cnt_28 devno lba sec_cnt m buffer =
      let (s1, ctlr') = ata_ctlr_select_dev s ctlr devno in
      let (s2, m', ok) =
        read_sectors ctlr.base sec_cnt (read_command ctlr.base devno lba sec_cnt s1) m buffer in
      if ltb sec_cnt_28 ((lba + sec_cnt) % 2 ^ 32) then (s, ctlr, m, false) else (s2, ctlr', m', ok)
