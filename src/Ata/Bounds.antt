-- ===== src/Ata/Bounds.antt =====
-- lib/devs/ata.c: ata_pio_lba28_read stays in its buffer, whatever the ports answer.
use jonix.Base.{
  ℕ, zero, suc, ◌+◌, ◌*◌, ◌%◌, ◌^◌, ◌≡◌, refl, ◌∙◌, Bool, false, Ptr, Mem, store8, in_range, ltb,
  arith, Bool-cases, inl, inr,
}
use jonix.Io.{Ports}
use jonix.Ata.{AtaCtlr, ata_data, ata_ctlr_wait_drq, read_data, read_sectors, ata_pio_lba28_read}

module _ (P : Ports) where
  read_data-outside :
      (port n : ℕ) (s : P.State) (m : Mem) (buffer : Ptr) (a : Ptr)
      → in_range buffer (2 * n) a ≡ false
      → (read_data P port n s m buffer).1 a ≡ m a
  unfolding read_data store8
  read_data-outside port zero s m buffer a out = refl
  read_data-outside port (suc n) s m buffer a out =
      let before : in_range (buffer + 2) (2 * n) a ≡ false = ground (arith, out) in
      read_data-outside port n (P.inw s port).0 _ (buffer + 2) a before ∙ ground (arith, out)

  read_sectors-outside :
      (base n : ℕ) (s : P.State) (m : Mem) (buffer : Ptr) (a : Ptr)
      → in_range buffer (512 * n) a ≡ false
      → (read_sectors P base n s m buffer).1 a ≡ m a
  unfolding read_sectors
  read_sectors-outside base zero s m buffer a out = refl
  read_sectors-outside base (suc n) s m buffer a out =
      elim (Bool-cases (ata_ctlr_wait_drq P base s).1) [
        | inl ok ↦
            let first : in_range buffer (2 * 256) a ≡ false = ground (arith, out) in
            let after : in_range (buffer + 512) (512 * n) a ≡ false = ground (arith, out) in
            rw ok (
              read_sectors-outside base n _ _ (buffer + 512) a after
              ∙ read_data-outside (base + ata_data) 256 (ata_ctlr_wait_drq P base s).0 m buffer a
                  first)
        | inr failed ↦ rw failed refl
      ]

-- Whatever the ports answer, and on every branch, ata_pio_lba28_read changes no byte of memory
-- outside the 512 bytes of each sector that it is asked for.
pub ata_pio_lba28_read-outside :
    {L : Type 0} (P : Ports) (s : P.State) (ctlr : AtaCtlr L) (sec_cnt_28 : ℕ) (devno : Bool)
    (lba n : ℕ) (m : Mem) (buffer a : Ptr)
    → in_range buffer (512 * n) a ≡ false
    → (ata_pio_lba28_read P s ctlr sec_cnt_28 devno lba n m buffer).2 a ≡ m a
unfolding ata_pio_lba28_read
ata_pio_lba28_read-outside P s ctlr sec_cnt_28 devno lba n m buffer a out =
    elim (Bool-cases (ltb sec_cnt_28 ((lba + n) % 2 ^ 32))) [
      | inl refused ↦ rw refused refl
      | inr fine ↦ rw fine (read_sectors-outside P ctlr.base n _ m buffer a out)
    ]
