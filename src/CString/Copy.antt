-- ===== src/CString/Copy.antt =====
-- lib/c/string.c: memcpy, memmove and memset.
use jonix.Base.{
  inl, le→leb, ℕ, zero, suc, ◌+◌, ◌-◌, ◌%◌, ◌≤◌, ◌<◌, ◌≡◌, ◌⊎◌, refl, none, some, arith,
  if◌then◌else◌, lt→ltb, le→ltb, Ptr, Mem, store8, in_range,
}
use jonix.CString.{copy_up, memcpy, copy_down, memmove, fill_up, memset}

-- `m'` is `m` with the `n` bytes at `src` of `m` written at `dest`.
abbrev pub Copied : Mem → Mem → Ptr → Ptr → ℕ → Type 0
Copied m m' dest src n =
    (a : Ptr) → m' a ≡ (if in_range dest n a then m (src + (a - dest)) else m a)

-- An upward copy reads no byte that it has written.
abbrev pub UpSafe : Ptr → Ptr → ℕ → Type 0
UpSafe dest src n = (dest ≤ src) ⊎ (src + n ≤ dest)

module _ (m₀ : Mem) (dest src n : ℕ) (safe : UpSafe dest src n) where
  pub step-Copied :
      (i : ℕ) (m : Mem)
      → i < n
      → Copied m₀ m dest src i
      → Copied m₀ (store8 m (dest + i) (m (src + i))) dest src (i + 1)
  unfolding store8
  step-Copied i m lt c a = ground (arith, c a, c (src + i))

  copy_up-Copied :
      (left i : ℕ) (m : Mem)
      → i + left ≡ n
      → Copied m₀ m dest src i
      → Copied m₀ (copy_up left i dest src m) dest src n
  unfolding copy_up
  copy_up-Copied zero i m e c = λ a. ground (arith, c a)
  copy_up-Copied (suc left) i m e c =
      copy_up-Copied left (i + 1) _ (omega arith) (step-Copied i m (omega arith) c)

-- An upward copy that is safe writes the source as it was, and nothing outside the destination.
pub memcpy_lem :
    (m : Mem) (dest src n : ℕ) → UpSafe dest src n → Copied m (memcpy dest src n m) dest src n
unfolding memcpy
memcpy_lem m dest src n safe =
    copy_up-Copied m dest src n safe n 0 m (omega arith) (λ a. ground arith)

-- memmove to a lower address ends at once, whatever overlaps.
pub memmove_lem :
    (fuel : ℕ) (m : Mem) (dest src n : ℕ)
    → dest < src
    → (m' : Mem) × (memmove fuel dest src n m ≡ some m') × Copied m m' dest src n
unfolding memmove
memmove_lem fuel m dest src n lt = (
  copy_up n 0 dest src m,
  rw (lt→ltb dest src lt),
  copy_up-Copied m dest src n (inl (omega arith)) n 0 m (omega arith) (λ a. ground arith),
)

copy_down-none : (fuel i : ℕ) (dest src : Ptr) (m : Mem) → copy_down fuel i dest src m ≡ none
unfolding copy_down
copy_down-none zero i dest src m = refl
copy_down-none (suc fuel) i dest src m =
    rw (le→leb 0 i (omega arith)) (copy_down-none fuel _ dest src _)

-- memmove to the same or to a higher address never ends: its index is unsigned and is always
-- at least 0.
pub memmove-none :
    (fuel : ℕ) (m : Mem) (dest src n : ℕ) → src ≤ dest → memmove fuel dest src n m ≡ none
unfolding memmove
memmove-none fuel m dest src n le = rw (le→ltb dest src le) (copy_down-none fuel _ dest src m)

-- `m'` is `m` with the `n` bytes at `dest` set to `v`.
abbrev pub Filled : Mem → Mem → Ptr → ℕ → ℕ → Type 0
Filled m m' dest v n = (a : Ptr) → m' a ≡ (if in_range dest n a then v else m a)

module _ (m₀ : Mem) (dest v n : ℕ) where
  fill_up-Filled :
      (left i : ℕ) (m : Mem)
      → i + left ≡ n
      → Filled m₀ m dest v i
      → Filled m₀ (fill_up left i dest v m) dest v n
  unfolding fill_up store8
  fill_up-Filled zero i m e c = λ a. ground (arith, c a)
  fill_up-Filled (suc left) i m e c =
      fill_up-Filled left (i + 1) _ (omega arith) (λ a. ground (arith, c a))

-- memset writes the low byte of its value to each byte of the range, and nothing else.
pub memset_lem : (m : Mem) (dest val n : ℕ) → Filled m (memset dest val n m) dest (val % 256) n
unfolding memset
memset_lem m dest val n =
    fill_up-Filled m dest (val % 256) n n 0 m (omega arith) (λ a. ground arith)
