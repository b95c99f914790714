-- ===== src/Ata/Dma.antt =====
-- lib/devs/ata.c: what ata_dma_lba28_read does once it holds the semaphores of the device and of the
-- controller: the table of physical regions, and the ports it writes.
use jonix.Base.{ℕ, ◌+◌, ◌*◌, ◌/◌, ◌%◌, ◌^◌, Bool, Ptr, Mem, store8, store32}
use jonix.Io.{Ports}
use jonix.Ata.{AtaCtlr, ata_sec_cnt, ata_lba_1, ata_lba_2, ata_lba_3, ata_cmd, ata_ctlr_select_dev}

abbrev pub bm_cmd : ℕ
bm_cmd = 0

abbrev pub bm_status : ℕ
bm_status = 2

-- The entry of the table at `p`: the buffer, the byte count and the mark of the end. The reserved byte is not
-- written.
unfoldable pub write_prd : Ptr → ℕ → ℕ → ℕ → Mem → Mem
write_prd p buffer byte_cnt eot m =
    store8
      (store8 (store8 (store32 m p buffer) (p + 4) (byte_cnt % 2 ^ 8)) (p + 5) (byte_cnt / 2 ^ 8))
      (p + 7) eot

-- `byte_cnt || 0x10000` is a truth value, and it is 1.
unfoldable pub write_prdt : (ℕ → ℕ) → Ptr → ℕ → Ptr → Mem → Mem
write_prdt v2p prdt sec_cnt buffer m =
    let byte_cnt = sec_cnt * 2 ^ 8 in
    write_prd (prdt + 8) ((v2p buffer + 1) % 2 ^ 32) byte_cnt 128
      (write_prd prdt (v2p buffer) byte_cnt 0 m)

module _ (P : Ports) where
  -- The ports are written without their bases.
  unfoldable pub dma_command : ℕ → ℕ → P.State → P.State
  dma_command lba sec_cnt s =
      let s1 = P.outb (P.outb s bm_status 6) bm_cmd 0 in
      let s2 = P.outb s1 ata_sec_cnt sec_cnt in
      let s3 = P.outb s2 ata_lba_1 (lba % 2 ^ 8) in
      let s4 = P.outb s3 ata_lba_2 (lba / 2 ^ 8 % 2 ^ 8) in
      let s5 = P.outb s4 ata_lba_3 (lba / 2 ^ 16 % 2 ^ 8) in P.outb (P.outb s5 ata_cmd 200) bm_cmd 1

  unfoldable pub dma_locked :
      {L : Type 0}
      → (ℕ → ℕ)
      → P.State
      → AtaCtlr L
      → Bool
      → ℕ
      → ℕ
      → Mem
      → Ptr
      → P.State × AtaCtlr L × Mem
  dma_locked v2p s ctlr devno lba sec_cnt m buffer =
      let (s1, ctlr') = ata_ctlr_select_dev P s ctlr devno in
      (dma_command lba sec_cnt s1, ctlr', write_prdt v2p ctlr.prdt sec_cnt buffer m)
