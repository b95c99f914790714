-- ===== src/Ata/Words.antt =====
-- lib/devs/ata.c: the inner loop of ata_pio_lba28_read at a drive that is ready.
use mathlib.Core.Path.{fun_ext}
use jonix.Base.{
  ℕ, zero, suc, ◌+◌, ◌*◌, ◌/◌, ◌%◌, ◌^◌, ◌≤◌, ◌<◌, ◌≡◌, ap, ◌∙◌, sym, Ptr, Mem, store8, arith,
}
use jonix.Io.{Ports}
use jonix.Ata.{ata_data, read_data}
use jonix.Ata.Drive.{Transfer, advance, stream, IsDrive}
use jonix.Ata.Load.{loaded, load_word, load_none}

module _ (P : Ports) (base : ℕ) (sector : ℕ → ℕ → ℕ → ℕ) (drive : IsDrive P base sector) where
  -- What the inner loop leaves, from the first word's state on.
  abbrev pub Read : ℕ → P.State × Mem → Transfer → Mem → Ptr → Type 0
  Read n r t m buffer =
      (drive.xfer r.0 ≡ advance n t) × (r.1 ≡ loaded (stream sector t) (2 * t.pos) buffer (2 * n) m)

  -- The drive is ready to give `n` words, which lie in one sector.
  pub record Holds (n : ℕ) (s : P.State) (t : Transfer) : Type 0 where
    pub is_t : drive.xfer s ≡ t
    pub ready : 0 < n → drive.delay s ≡ 0
    pub here : t.pos % 256 + n ≤ 256
    pub fits : t.pos + n ≤ t.size

  word_of :
      (s : P.State) (t : Transfer)
      → drive.xfer s ≡ t
      → drive.delay s ≡ 0
      → t.pos < t.size
      → ((P.inw s (base + ata_data)).1 ≡ stream sector t t.pos)
        × (drive.xfer (P.inw s (base + ata_data)).0 ≡ advance 1 t)
  word_of s t is_t ready lt =
      let fits : (drive.xfer s).pos < (drive.xfer s).size = rw is_t lt in
      let (w, next) = drive.read_word s ready fits in
      (w ∙ ap (λ x. stream sector x x.pos) is_t, next ∙ ap (advance 1) is_t)

  read_data-Holds :
      (n : ℕ) (s : P.State) (t : Transfer)
      → Holds (suc n) s t
      → Holds n (P.inw s (base + ata_data)).0 (advance 1 t)
  read_data-Holds n s t h =
      let ready = h.ready (omega arith) in
      record {
        is_t = (word_of s t h.is_t ready (omega (arith, h.fits))).1;
        ready =
            λ some_left. drive.read_delay s ready (rw (h.is_t) (omega (arith, h.here, some_left)));
        here = omega (arith, h.here);
        fits = omega (arith, h.fits);
      }

  -- The loop after a first word that is known.
  read_data-word :
      (n : ℕ) (s : P.State) (t : Transfer) (m : Mem) (buffer : Ptr) (w : ℕ)
      → w ≡ stream sector t t.pos
      → Read n
          (read_data P
            (base + ata_data)
            n
            s
            (store8 (store8 m buffer (w % 2 ^ 8)) (buffer + 1) (w / 2 ^ 8))
            (buffer + 2))
          (advance 1 t)
          (store8 (store8 m buffer (w % 2 ^ 8)) (buffer + 1) (w / 2 ^ 8))
          (buffer + 2)
      → Read
          (suc n)
          (read_data P
            (base + ata_data)
            n
            s
            (store8 (store8 m buffer (w % 2 ^ 8)) (buffer + 1) (w / 2 ^ 8))
            (buffer + 2))
          t
          m
          buffer
  read_data-word n s t m buffer w e (moved, mem) =
      let e' : t.pos + 1 + n ≡ t.pos + suc n = omega arith in
      (
        moved ∙ ap (λ p. record t { pos = p }) e',
        mem ∙ rw e (fun_ext (load_word (stream sector t) t.pos buffer n m)),
      )

  pub read_data-Read :
      (n : ℕ) (s : P.State) (t : Transfer) (m : Mem) (buffer : Ptr)
      → Holds n s t
      → Read n (read_data P (base + ata_data) n s m buffer) t m buffer
  unfolding read_data
  read_data-Read zero s t m buffer h =
      let e : t.pos ≡ t.pos + 0 = omega arith in
      (
        h.is_t ∙ ap (λ p. record t { pos = p }) e,
        sym (fun_ext (load_none (stream sector t) (2 * t.pos) buffer m)),
      )
  read_data-Read (suc n) s t m buffer h =
      let (w, next) = word_of s t h.is_t (h.ready (omega arith)) (omega (arith, h.fits)) in
      read_data-word n (P.inw s (base + ata_data)).0 t m buffer (P.inw s (base + ata_data)).1 w (
        read_data-Read n (P.inw s (base + ata_data)).0 (advance 1 t) _ (buffer + 2)
          (read_data-Holds n s t h))
