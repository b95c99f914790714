-- ===== src/Util/OArray/Del.antt =====
-- lib/util/oarray.c: oarray_find_value, oarray_del and oarray_del_value.
use mathlib.Core.Path.{subst}
use jonix.Base.{
  ℕ, zero, suc, ◌+◌, ◌-◌, ◌^◌, ◌<◌, ◌≤◌, ◌≡◌, refl, ap, List, ◌∷◌, true, false, ◌==◌, leb, ltb,
  if◌then◌else◌, Bool-cases, inl, inr, arith,
}
use jonix.Base.Int.{ℤ, pos, negsuc}
use jonix.Util.Sort.{Item}
use jonix.Util.OArray.{
  OArray, put, pred32, find_value_loop, oarray_find_value, shift_down, oarray_del, oarray_del_value,
}
use jonix.Util.OArray.View.{slots, slots_ext, items, erase, contains}

-- `g` is `f` with the slots behind `i`, up to `n`, moved one place down.
abbrev pub Closed : (ℕ → Item) → (ℕ → Item) → ℕ → ℕ → Type 0
Closed f g i n = (a : ℕ) → g a ≡ (if leb i a then (if ltb a n then f (a + 1) else f a) else f a)

shift_down_lem :
    (left j i n : ℕ) (f g : ℕ → Item)
    → j + left ≡ n
    → i ≤ j
    → Closed f g i j
    → Closed f (shift_down left j g) i n
unfolding shift_down
shift_down_lem zero j i n f g e le same = λ a. ground (arith, same a)
shift_down_lem (suc left) j i n f g e le same =
    shift_down_lem left (j + 1) i n f (put g j (g (j + 1))) (omega arith) (omega arith)
      (λ b. ground (arith, same b, same (j + 1)))

-- What a search of the `n` slots from slot `i` returns: the first slot that holds the value. If
-- the slots behind it move down, the slots hold the old items less that one.
data Found (f : ℕ → Item) (val : Item) (i n : ℕ) (r : ℤ) : Type 0 where
  missing : r ≡ negsuc 0 → contains val (slots f i n) ≡ false → Found f val i n r
  at :
      (k m : ℕ)
      → n ≡ suc m
      → k ≤ m
      → r ≡ pos (i + k)
      → contains val (slots f i n) ≡ true
      → ((g : ℕ → Item) → Closed f g (i + k) (i + m) → slots g i m ≡ erase val (slots f i n))
      → Found f val i n r

pub first_Closed :
    (f g : ℕ → Item) (i n : ℕ) → Closed f g i (i + n) → slots g i n ≡ slots f (i + 1) n
first_Closed f g i n c = slots_ext g f i (i + 1) n (λ k h. ground (arith, c (i + k), next k))
  where
    next : (k : ℕ) → i + k + 1 ≡ i + 1 + k
    next k = omega arith

later_Closed :
    (f g : ℕ → Item) (val : Item) (i n : ℕ)
    → (f i == val) ≡ false
    → slots g (i + 1) n ≡ erase val (slots f (i + 1) (suc n))
    → g i ≡ f i
    → slots g i (suc n) ≡ erase val (slots f i (suc (suc n)))
unfolding erase
later_Closed f g val i n ne rest first = rw (ne, first) (ap (λ (l : List Item). f i ∷ l) rest)

next_Found :
    (f : ℕ → Item) (val : Item) (n i : ℕ) (r : ℤ)
    → (f i == val) ≡ false
    → Found f val (i + 1) n r
    → Found f val i (suc n) r
next_Found f val n i r miss (missing e none_left) = missing e (rw (miss, none_left))
next_Found f val zero i r miss (at k m en le e found erased) = absurd (omega arith)
next_Found f val (suc n) i r miss (at k m en le e found erased) =
    at (suc k) (suc n) refl (omega arith) (rw e (ap pos (omega arith))) (rw (miss, found)) (λ g c.
      later_Closed f g val i n miss
        (subst (λ (x : ℕ). slots g (i + 1) x ≡ erase val (slots f (i + 1) (suc n))) (omega arith)
          (erased g (λ a. ground (arith, c a))))
        (ground (arith, c i)))

find_value_loop-Found :
    (f : ℕ → Item) (val : Item) (n i : ℕ) → Found f val i n (find_value_loop f val n i)
unfolding find_value_loop erase
find_value_loop-Found f val zero i = missing refl refl
find_value_loop-Found f val (suc n) i = elim (Bool-cases (f i == val)) [
  | inl hit ↦ rw hit (
      at 0 n refl (omega arith) (ap pos (omega arith)) (rw hit)
        (λ g c. rw hit (first_Closed f g i n (λ a. ground (arith, c a)))))
  | inr miss ↦ rw miss (next_Found f val n i _ miss (find_value_loop-Found f val n (i + 1)))
]

pub oarray_del-Closed :
    (o : OArray) (k m : ℕ)
    → o.size < 2 ^ 32
    → o.size ≡ suc m
    → k ≤ m
    → (g : ℕ → Item) × (oarray_del o k ≡ record o { array = g; size = m }) × Closed o.array g k m
unfolding oarray_del
oarray_del-Closed o k m small e le =
    let last : pred32 o.size ≡ m = omega arith in
    rw last (elim (Bool-cases (k == m)) [
      | inl same ↦ (o.array, rw same, λ a. ground (arith, same))
      | inr more ↦ (
        shift_down (m - k) k o.array,
        rw more,
        shift_down_lem (m - k) k k m o.array o.array (omega arith) (omega arith)
            (λ a. ground arith),
      )
    ])

-- The value is not there: 0 is returned, and the array is left as it is.
pub oarray_del_value-missing :
    (o : OArray) (val : Item) → contains val (items o) ≡ false → oarray_del_value o val ≡ (o, false)
unfolding oarray_del_value oarray_find_value
oarray_del_value-missing o val none_left = elim (find_value_loop-Found o.array val o.size 0) [
  | missing e h ↦ rw (e, oarray_del_value)
  | at k m en le e found erased ↦ cc
]

-- The value is there: 1 is returned, and the items are the old ones less its first occurrence,
-- in the same order.
pub oarray_del_value-erase :
    (o : OArray) (val : Item)
    → o.size < 2 ^ 32
    → contains val (items o) ≡ true
    → ((oarray_del_value o val).1 ≡ true)
      × (items (oarray_del_value o val).0 ≡ erase val (items o))
      × ((oarray_del_value o val).0.size + 1 ≡ o.size)
      × ((oarray_del_value o val).0.max_size ≡ o.max_size)
unfolding oarray_del_value oarray_find_value
oarray_del_value-erase o val small there = elim (find_value_loop-Found o.array val o.size 0) [
  | missing e h ↦ cc
  | at k m en le e found erased ↦
      let (g, del, closed) = oarray_del-Closed o (0 + k) m small en (omega arith) in
      rw (e, oarray_del_value)
        (rw del (refl, erased g (λ a. ground (arith, closed a)), omega arith, refl))
]
