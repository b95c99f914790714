-- ===== src/CString/Text.antt =====
-- lib/c/string.c: the operations on NUL-terminated strings.
use jonix.Base.{
  min, not, ◌&&◌, ℕ, zero, suc, ◌+◌, ◌-◌, ◌%◌, ◌≤◌, ◌<◌, ◌≡◌, ◌≢◌, ◌⊎◌, inl, inr, refl, sym, ap,
  true, false, some, arith, if◌then◌else◌, ltb, ◌==◌, Ptr, Mem, store8, in_range, ◌∙◌, Apart, eq→==,
  ne→==,
}
use native.Mathlib.Decide.{ℕ_discrete}
use jonix.Base.Int.{ℤ, pos, sub_ℕ}
use jonix.CString.{
  size_mod, strlen_loop, strlen, strcpy_loop, strcpy, strcpy_n_loop, strcpy_n, strcat, strcmp_loop,
  strcmp,
}
use jonix.CString.Copy.{Copied, UpSafe, step-Copied}

-- A string of `n` characters starts at `s`: `n` bytes that are not NUL, and then a NUL.
pub record IsText (m : Mem) (s : Ptr) (n : ℕ) : Type 0 where
  pub inside : (i : ℕ) → i < n → m (s + i) ≢ 0
  pub end : m (s + n) ≡ 0

module _ {m : Mem} {s n : ℕ} (i : ℕ) (text : IsText m s n) where
  at_end : m (s + i) ≡ 0 → i ≤ n → i ≡ n
  at_end z le = elim (ℕ_discrete i n) [ yes e ↦ e | no ne ↦ absurd (text.inside i (omega arith) z) ]

  ne_end : m (s + i) ≢ 0 → i ≢ n
  ne_end more h = more (ap (λ (x : ℕ). m (s + x)) h ∙ text.end)

module _ (m : Mem) (s n : ℕ) (text : IsText m s n) (small : n < size_mod) where
  strlen_loop-IsText :
      (fuel left i str len : ℕ)
      → i + left ≡ n
      → left < fuel
      → str ≡ s + i
      → len ≡ i
      → strlen_loop fuel str len m ≡ some n
  unfolding strlen_loop
  strlen_loop-IsText zero left i str len e lt es el = absurd (omega arith)
  strlen_loop-IsText (suc fuel) zero i str len e lt es el = ground (arith, text.end)
  strlen_loop-IsText (suc fuel) (suc left) i str len e lt es el =
      ground (
        arith,
        text.inside i,
        strlen_loop-IsText fuel left (i + 1) (str + 1) ((len + 1) % size_mod),
      )

-- strlen finds the length of every string below 4 GB.
pub strlen_lem :
    (fuel : ℕ) (m : Mem) (s n : ℕ)
    → IsText m s n
    → n < size_mod
    → n < fuel
    → strlen fuel s m ≡ some n
unfolding strlen
strlen_lem fuel m s n text small lt =
    strlen_loop-IsText m s n text small fuel n 0 s 0 (omega arith) lt (omega arith) refl

module _ (m₀ : Mem) (dest src n : ℕ) (text : IsText m₀ src n) (safe : UpSafe dest src (n + 1)) where
  strcpy_loop-Copied :
      (fuel left i : ℕ) (m : Mem)
      → i + left ≡ n
      → left < fuel
      → Copied m₀ m dest src i
      → (m' : Mem) × (strcpy_loop fuel i dest src m ≡ some m') × Copied m₀ m' dest src (n + 1)
  unfolding strcpy_loop
  strcpy_loop-Copied zero left i m e lt c = absurd (omega arith)
  strcpy_loop-Copied (suc fuel) zero i m e lt c =
      let end : m (src + i) ≡ 0 = ground (arith, c (src + i), text.end) in
      let last = step-Copied m₀ dest src (n + 1) safe i m (omega arith) c in
      (
        store8 m (dest + i) 0,
        rw (eq→== _ _ end),
        let e' : i + 1 ≡ n + 1 = omega arith in rw (end, e') at last,
      )
  strcpy_loop-Copied (suc fuel) (suc left) i m e lt c =
      let more : m (src + i) ≢ 0 = ground (arith, c (src + i), text.inside i) in
      rw (ne→== _ _ more) (
        strcpy_loop-Copied fuel left (i + 1) _ (omega arith) (omega arith)
          (step-Copied m₀ dest src (n + 1) safe i m (omega arith) c))

-- strcpy copies the string with its NUL, and writes nothing else.
pub strcpy_lem :
    (fuel : ℕ) (m : Mem) (dest src n : ℕ)
    → IsText m src n
    → UpSafe dest src (n + 1)
    → n < fuel
    → (m' : Mem) × (strcpy fuel dest src m ≡ some m') × Copied m m' dest src (n + 1)
unfolding strcpy
strcpy_lem fuel m dest src n text safe lt =
    strcpy_loop-Copied m dest src n text safe fuel n 0 m (omega arith) lt (λ a. ground arith)

-- strcat puts the source and its NUL at the end of the destination, writes nothing else, and
-- leaves a string of the two lengths together.
pub strcat_lem :
    (fuel : ℕ) (m : Mem) (dest src d n : ℕ)
    → IsText m dest d
    → IsText m src n
    → Apart dest (d + n + 1) src (n + 1)
    → d < size_mod
    → d < fuel
    → n < fuel
    → (m' : Mem) × (strcat fuel dest src m ≡ some m')
      × Copied m m' (dest + d) src (n + 1)
      × IsText m' dest (d + n)
unfolding strcat
strcat_lem fuel m dest src d n front back apart small df nf =
    let len = strlen_lem fuel m dest d front small df in
    let (m', e, c) = strcpy_lem fuel m (dest + d) src n back (clear apart) nf in
    (
      m',
      rw (len, e),
      c,
      record {
        inside = λ i lt. ground (arith, c (dest + i), front.inside i, back.inside (i - d), shift i);
        end = ground (arith, c (dest + (d + n)), back.end);
      },
    )
  where
    clear : Apart dest (d + n + 1) src (n + 1) → UpSafe (dest + d) src (n + 1)
    clear (inl h) = inl (omega arith)
    clear (inr h) = inr (omega arith)

    shift : (i : ℕ) → d ≤ i → dest + i - (dest + d) ≡ i - d
    shift i h = omega arith

-- `m'` is `m` with `k` bytes of the source and then a NUL at `dest`.
abbrev pub Cut : Mem → Mem → Ptr → Ptr → ℕ → Type 0
Cut m m' dest src k =
    (a : Ptr)
    → m' a ≡ (if a == dest + k then 0 else if in_range dest k a then m (src + (a - dest)) else m a)

module _ (m₀ : Mem) (dest src n bound stop : ℕ) (cut : stop ≡ min n bound) (text : IsText m₀ src n)
    (safe : UpSafe dest src (n + 1)) where
  strcpy_n_loop-Cut :
      (fuel left i : ℕ) (m : Mem)
      → i + left ≡ stop
      → left < fuel
      → Copied m₀ m dest src i
      → (m' : Mem) × (strcpy_n_loop fuel i dest src bound m ≡ some m') × Cut m₀ m' dest src stop
  unfolding strcpy_n_loop store8
  strcpy_n_loop-Cut zero left i m e lt c = absurd (omega arith)
  strcpy_n_loop-Cut (suc fuel) zero i m e lt c =
      let last : (ltb i bound && not (m (src + i) == 0)) ≡ false =
        ground (arith, c (src + i), text.end) in
      (store8 m (dest + i) 0, rw last, λ a. ground (arith, c a))
  strcpy_n_loop-Cut (suc fuel) (suc left) i m e lt c =
      let more : (ltb i bound && not (m (src + i) == 0)) ≡ true =
        ground (arith, c (src + i), text.inside i) in
      rw more (
        strcpy_n_loop-Cut fuel left (i + 1) _ (omega arith) (omega arith)
          (step-Copied m₀ dest src (n + 1) safe i m (omega arith) c))

-- strcpy_n with a limit of at least 1 ends, writes a string that is cut to `max_len - 1`
-- characters, and writes nothing beyond `max_len` bytes.
pub strcpy_n_lem :
    (fuel : ℕ) (m : Mem) (dest src n max_len : ℕ)
    → IsText m src n
    → UpSafe dest src (n + 1)
    → 0 < max_len
    → max_len < size_mod
    → n < fuel
    → (m' : Mem) × (strcpy_n fuel dest src max_len m ≡ some m')
      × Cut m m' dest src (min n (max_len - 1))
unfolding strcpy_n
strcpy_n_lem fuel m dest src n max_len text safe some_room small lt =
    let bound : (max_len + size_mod - 1) % size_mod ≡ max_len - 1 = omega arith in
    rw bound (
      strcpy_n_loop-Cut m dest src n (max_len - 1) (min n (max_len - 1)) refl text safe fuel
        (min n (max_len - 1)) 0 m (omega arith) (omega arith) (λ a. ground arith))

-- With a limit of 0 the bound wraps, and the whole string is written.
pub strcpy_n-zero :
    (fuel : ℕ) (m : Mem) (dest src n : ℕ)
    → IsText m src n
    → UpSafe dest src (n + 1)
    → n + 1 < size_mod
    → n < fuel
    → (m' : Mem) × (strcpy_n fuel dest src 0 m ≡ some m') × Cut m m' dest src n
unfolding strcpy_n
strcpy_n-zero fuel m dest src n text safe small lt =
    strcpy_n_loop-Cut m dest src n (size_mod - 1) n (omega arith) text safe fuel n 0 m (omega arith)
      lt (λ a. ground arith)

-- The two strings are the same.
abbrev pub SameText : Mem → Ptr → ℕ → Ptr → ℕ → Type 0
SameText m p n q k = (n ≡ k) × ((i : ℕ) → i < n → m (p + i) ≡ m (q + i))

-- `r` is the difference of the first characters in which the strings differ.
pub record Differs (m : Mem) (p q : Ptr) (n k : ℕ) (r : ℤ) : Type 0 where
  pub at : ℕ
  pub at_le : at ≤ min n k
  pub before : (i : ℕ) → i < at → m (p + i) ≡ m (q + i)
  pub differ : m (p + at) ≢ m (q + at)
  pub result : r ≡ sub_ℕ (m (p + at)) (m (q + at))

abbrev pub Compared : Mem → Ptr → Ptr → ℕ → ℕ → ℤ → Type 0
Compared m p q n k r = (SameText m p n q k × (r ≡ pos 0)) ⊎ Differs m p q n k r

module _ (m : Mem) (p q n k : ℕ) (left_text : IsText m p n) (right_text : IsText m q k) where
  strcmp_loop-Compared :
      (fuel left i : ℕ)
      → i + left ≡ n
      → i ≤ k
      → left < fuel
      → ((j : ℕ) → j < i → m (p + j) ≡ m (q + j))
      → (r : ℤ) × (strcmp_loop fuel i p q m ≡ some r) × Compared m p q n k r
  unfolding strcmp_loop
  strcmp_loop-Compared zero left i e le lt same = absurd (omega arith)
  strcmp_loop-Compared (suc fuel) left i e le lt same = elim (ℕ_discrete (m (p + i)) (m (q + i))) [
    | no differ ↦ (
      sub_ℕ (m (p + i)) (m (q + i)),
      ground arith,
      inr (record { at = i; at_le = omega arith; before = same; differ = differ; result = refl }),
    )
    | yes equal ↦ elim (ℕ_discrete (m (p + i)) 0) [
      | yes end ↦
          let ln : i ≡ n = at_end i left_text end (omega arith) in
          let lk : i ≡ k = at_end i right_text (sym equal ∙ end) le in
          (pos 0, ground arith, inl ((omega arith, λ j h. same j (omega arith)), refl))
      | no more ↦
          let ln : i ≢ n = ne_end i left_text more in
          let lk : i ≢ k = ne_end i right_text (λ h. more (equal ∙ h)) in
          let both : ((m (p + i) == 0) && (m (q + i) == 0)) ≡ false = ground arith in
          rw (both, eq→== _ _ equal)
            (strcmp_loop-Compared fuel (left - 1) (i + 1) (omega arith) (omega arith) (omega arith)
              (λ j h. ground (arith, same j)))
    ]
  ]

-- strcmp ends on two strings; its result is 0 when they are the same text, and otherwise the
-- difference of the first characters that differ.
pub strcmp_lem :
    (fuel : ℕ) (m : Mem) (p q n k : ℕ)
    → IsText m p n
    → IsText m q k
    → n < fuel
    → (r : ℤ) × (strcmp fuel p q m ≡ some r) × Compared m p q n k r
unfolding strcmp
strcmp_lem fuel m p q n k left_text right_text lt =
    strcmp_loop-Compared m p q n k left_text right_text fuel n 0 (omega arith) (omega arith) lt
      (λ j h. absurd (omega arith))
