-- ===== src/Ata/Load.antt =====
-- Memory with words that were read from a drive by ata_pio_lba28_read of lib/devs/ata.c.
use native.Mathlib.Decide.{ℕ_discrete}
use jonix.Base.{
  ℕ, suc, ◌+◌, ◌-◌, ◌*◌, ◌/◌, ◌%◌, ◌^◌, ◌≤◌, ◌≡◌, refl, ap, Ptr, Mem, store8, in_range, leb,
  if◌then◌else◌, arith, Bool-cases, inl, inr,
}
use jonix.Ata.Drive.{byte_of}

-- Memory with `n` bytes of a row of words from byte `k` on.
abbrev pub loaded : (ℕ → ℕ) → ℕ → Ptr → ℕ → Mem → Mem
loaded words k buffer n m a = if in_range buffer n a then byte_of words (k + (a - buffer)) else m a

byte_low : (words : ℕ → ℕ) (p : ℕ) → byte_of words (2 * p) ≡ words p % 2 ^ 8
byte_low words p =
    let even : 2 * p % 2 ≡ 0 = omega arith in
    let half : 2 * p / 2 ≡ p = omega arith in rw (even, half) refl

byte_high : (words : ℕ → ℕ) (p : ℕ) → byte_of words (2 * p + 1) ≡ words p / 2 ^ 8
byte_high words p =
    let odd : (2 * p + 1) % 2 ≡ 1 = omega arith in
    let half : (2 * p + 1) / 2 ≡ p = omega arith in rw (odd, half) refl

pub load_word :
    (words : ℕ → ℕ) (p : ℕ) (buffer : Ptr) (n : ℕ) (m : Mem) (a : Ptr)
    → loaded words
        (2 * (p + 1))
        (buffer + 2)
        (2 * n)
        (store8 (store8 m buffer (words p % 2 ^ 8)) (buffer + 1) (words p / 2 ^ 8))
        a
      ≡ loaded words (2 * p) buffer (2 * suc n) m a
unfolding store8
load_word words p buffer n m a = elim (ℕ_discrete a buffer) [
  | yes e ↦
      let i : 2 * p + (a - buffer) ≡ 2 * p = omega (arith, e) in
      ground (arith, e, ap (byte_of words) i, byte_low words p)
  | no ne ↦ elim (ℕ_discrete a (buffer + 1)) [
    | yes e ↦
        let i : 2 * p + (a - buffer) ≡ 2 * p + 1 = omega (arith, e) in
        ground (arith, e, ap (byte_of words) i, byte_high words p)
    | no ne' ↦ elim (Bool-cases (leb buffer a)) [
      | inl le ↦
          let far : buffer + 2 ≤ a = ground (arith, le, ne, ne') in
          let i : 2 * (p + 1) + (a - (buffer + 2)) ≡ 2 * p + (a - buffer) = omega (arith, far) in
          ground (arith, le, far, ne, ne', ap (byte_of words) i)
      | inr gt ↦ ground (arith, gt, ne, ne')
    ]
  ]
]

pub load_more :
    (words : ℕ → ℕ) (k n d : ℕ) (buffer : Ptr) (m : Mem) (a : Ptr)
    → loaded words (k + d) (buffer + d) n (loaded words k buffer d m) a
      ≡ loaded words k buffer (d + n) m a
load_more words k n d buffer m a = elim (Bool-cases (leb (buffer + d) a)) [
  | inl le ↦
      let i : k + d + (a - (buffer + d)) ≡ k + (a - buffer) = ground (arith, le) in
      ground (arith, le, ap (byte_of words) i)
  | inr gt ↦ ground (arith, gt)
]

pub load_none :
    (words : ℕ → ℕ) (k : ℕ) (buffer : Ptr) (m : Mem) (a : Ptr) → loaded words k buffer 0 m a ≡ m a
load_none words k buffer m a = ground arith
