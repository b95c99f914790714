-- ===== src/Ata/Dev.antt =====
-- lib/devs/ata.c: what the IDENTIFY command says of a drive, and the partitions of a drive.
use jonix.Base.{
  ℕ, zero, suc, ◌+◌, ◌*◌, ◌/◌, ◌%◌, ◌^◌, Bool, true, false, not, ◌&&◌, ◌==◌, if◌then◌else◌, List,
  [], ◌∷◌, ◌++◌, Mem,
}
use jonix.Io.{Ports}
use jonix.CString.{memset}
use jonix.Util.LinkedList.{Allocator}
use jonix.Ptbl.{Partition, ptbl_parse}
use jonix.Ata.{
  AtaDev, AtaCtlr, bit, ata_data, ata_lba_2, ata_lba_3, ata_status, ata_cmd, ata_cmd_identify_drive,
  ata_ctlr_wait_drq, ata_ctlr_select_dev, read_words, ata_pio_lba28_read,
}

-- The array access `id[j]`.
abbrev pub word_at : List ℕ → ℕ → ℕ
word_at [] j = 0
word_at (w ∷ ws) zero = w
word_at (w ∷ ws) (suc j) = word_at ws j

-- The two characters of each of `n` words from `j` on.
unfoldable pub chars_at : List ℕ → ℕ → ℕ → List ℕ
chars_at id j zero = []
chars_at id j (suc n) = word_at id j / 2 ^ 8 ∷ word_at id j % 2 ^ 8 ∷ chars_at id (j + 1) n

-- The accesses to 32 and 64 bits of the array.
abbrev pub dword_at : List ℕ → ℕ → ℕ
dword_at id j = word_at id j + word_at id (j + 1) * 2 ^ 16

abbrev pub qword_at : List ℕ → ℕ → ℕ
qword_at id j = dword_at id j + dword_at id (j + 2) * 2 ^ 32

unfoldable pub identify_words : {L : Type 0} → List ℕ → AtaDev L → AtaDev L
identify_words id dev = record dev {
  serial = chars_at id 10 10 ++ 0 ∷ [];
  model = chars_at id 27 20 ++ 0 ∷ [];
  dma_sup = word_at id 63 % 2 ^ 8;
  dma_sel = word_at id 63 / 2 ^ 8;
  sec_cnt_28 = dword_at id 60;
  lba48 = bit 10 (word_at id 83);
  sec_cnt_48 = if bit 10 (word_at id 83) then qword_at id 100 else dword_at id 60;
  udma_sup = word_at id 88 % 2 ^ 8;
  udma_sel = word_at id 88 / 2 ^ 8;
}

module _ (P : Ports) {L : Type 0} where
  -- The branch of ata_dev_identify in which the wait has failed.
  unfoldable pub identify_failed : P.State → ℕ → AtaDev L → P.State × AtaDev L
  identify_failed s base dev =
      let (s1, status) = P.inb s (base + ata_status) in
      let (s2, lba2) = P.inb s1 (base + ata_lba_2) in
      let (s3, lba3) = P.inb s2 (base + ata_lba_3) in
      if bit 0 status
      then (s3, if (lba2 == 20) && (lba3 == 235) then record dev { atapi = true } else dev)
      else (s1, dev)

  -- `dev` is the device `devno` of the controller.
  unfoldable pub ata_dev_identify :
      P.State → AtaCtlr L → Bool → AtaDev L → P.State × AtaCtlr L × AtaDev L × Bool
  ata_dev_identify s ctlr devno dev =
      let (s1, ctlr') = ata_ctlr_select_dev P s ctlr devno in
      let (s2, ok) =
        ata_ctlr_wait_drq P ctlr.base (P.outb s1 (ctlr.base + ata_cmd) ata_cmd_identify_drive) in
      let (s3, failed) = identify_failed s2 ctlr.base dev in
      let (s4, id) = read_words P (ctlr.base + ata_data) 256 s2 in
      if not ok then (s3, ctlr', failed, false) else (s4, ctlr', identify_words id dev, true)

  -- The buffer is not freed. `add` is list_add for the partitions.
  unfoldable pub ata_dev_find_parts :
      (A : Allocator)
      → (L → Partition → L × Bool)
      → P.State
      → A.State
      → Mem
      → AtaCtlr L
      → Bool
      → AtaDev L
      → P.State × A.State × Mem × AtaCtlr L × AtaDev L × Bool
  ata_dev_find_parts A add s heap m ctlr devno dev =
      let (heap', buffer) = A.kmalloc heap 512 in
      let (s', ctlr', m', ok) =
        ata_pio_lba28_read P s ctlr dev.sec_cnt_28 devno 0 1 (memset buffer 0 512 m) buffer in
      let (parts, parsed) = ptbl_parse L add m' (buffer + 446) dev.parts in
      if not ok
      then (s', heap', m', ctlr', dev, false)
      else (s', heap', m', ctlr', record dev { parts = parts }, parsed)
