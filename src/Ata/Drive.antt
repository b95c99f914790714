-- ===== src/Ata/Drive.antt =====
-- The ports' side of the ATA standard, for lib/devs/ata.c: the task file registers, the transfer that a read
-- command starts, and the polls until the drive is ready.
use jonix.Base.{ℕ, suc, ◌+◌, ◌*◌, ◌/◌, ◌%◌, ◌^◌, ◌<◌, ◌≡◌, Bool, true, false, ◌==◌, if◌then◌else◌}
use jonix.Io.{Ports}
use jonix.Ata.{
  is_bsy, is_bad, is_drq, ata_data, ata_sec_cnt, ata_lba_1, ata_lba_2, ata_lba_3, ata_drive_select,
  ata_status, ata_cmd, ata_cmd_read_sectors,
}

pub record Regs : Type 0 where
  pub head : ℕ
  pub count : ℕ
  pub lba1 : ℕ
  pub lba2 : ℕ
  pub lba3 : ℕ

-- A transfer of `size` words from the sector `first` on, of which `pos` have been read.
pub record Transfer : Type 0 where
  pub drive : ℕ
  pub first : ℕ
  pub size : ℕ
  pub pos : ℕ

-- What the standard says of a read command: bits 24 to 27 are in the head register, and a count of 0 means
-- 256 sectors.
abbrev pub started : Regs → Transfer
started r = record {
  drive = r.head / 2 ^ 4 % 2;
  first = r.lba1 + r.lba2 * 2 ^ 8 + r.lba3 * 2 ^ 16 + r.head % 2 ^ 4 * 2 ^ 24;
  size = 256 * (if r.count == 0 then 256 else r.count);
  pos = 0;
}

abbrev pub advance : ℕ → Transfer → Transfer
advance n t = record t { pos = t.pos + n }

-- The words of a disk in a row, from a sector on; `sector` is the drive, the sector and the word.
abbrev pub stream : (ℕ → ℕ → ℕ → ℕ) → Transfer → ℕ → ℕ
stream sector t i = sector t.drive (t.first + i / 256) (i % 256)

-- Byte `k` of a row of words.
abbrev pub byte_of : (ℕ → ℕ) → ℕ → ℕ
byte_of words k = if k % 2 == 0 then words (k / 2) % 2 ^ 8 else words (k / 2) / 2 ^ 8

pub record IsReady (status : ℕ) : Type 0 where
  pub not_bsy : is_bsy status ≡ false
  pub not_bad : is_bad status ≡ false
  pub drq : is_drq status ≡ true

-- The ports from `base` on belong to drives with the contents `sector`, which answer within 1000 polls.
pub record IsDrive (P : Ports) (base : ℕ) (sector : ℕ → ℕ → ℕ → ℕ) : Type 0 where
  pub regs : P.State → Regs
  pub xfer : P.State → Transfer
  pub delay : P.State → ℕ
  pub quick : (s : P.State) → delay s < 1000
  pub out_head :
      (s : P.State) (v : ℕ)
      → regs (P.outb s (base + ata_drive_select) v) ≡ record (regs s) { head = v }
  pub out_count :
      (s : P.State) (v : ℕ) → regs (P.outb s (base + ata_sec_cnt) v) ≡ record (regs s) { count = v }
  pub out_lba1 :
      (s : P.State) (v : ℕ) → regs (P.outb s (base + ata_lba_1) v) ≡ record (regs s) { lba1 = v }
  pub out_lba2 :
      (s : P.State) (v : ℕ) → regs (P.outb s (base + ata_lba_2) v) ≡ record (regs s) { lba2 = v }
  pub out_lba3 :
      (s : P.State) (v : ℕ) → regs (P.outb s (base + ata_lba_3) v) ≡ record (regs s) { lba3 = v }
  pub command :
      (s : P.State)
      → (regs s).head / 2 ^ 6 % 2 ≡ 1
      → xfer (P.outb s (base + ata_cmd) ata_cmd_read_sectors) ≡ started (regs s)
  pub poll : (s : P.State) → xfer (P.inb s (base + ata_status)).0 ≡ xfer s
  pub poll_busy :
      (s : P.State) (n : ℕ)
      → delay s ≡ suc n
      → (is_bsy (P.inb s (base + ata_status)).1 ≡ true)
        × (delay (P.inb s (base + ata_status)).0 ≡ n)
  pub poll_ready :
      (s : P.State)
      → delay s ≡ 0
      → (xfer s).pos < (xfer s).size
      → IsReady (P.inb s (base + ata_status)).1 × (delay (P.inb s (base + ata_status)).0 ≡ 0)
  pub read_word :
      (s : P.State)
      → delay s ≡ 0
      → (xfer s).pos < (xfer s).size
      → ((P.inw s (base + ata_data)).1 ≡ stream sector (xfer s) (xfer s).pos)
        × (xfer (P.inw s (base + ata_data)).0 ≡ advance 1 (xfer s))
  -- The next word of a sector is there at once.
  pub read_delay :
      (s : P.State)
      → delay s ≡ 0
      → (xfer s).pos % 256 < 255
      → delay (P.inw s (base + ata_data)).0 ≡ 0

-- The transfer of a request.
abbrev pub request : Bool → ℕ → ℕ → Transfer
request devno lba n = record {
  drive = if devno then 1 else 0;
  first = lba % 2 ^ 24;
  size = 256 * n;
  pos = 0;
}
