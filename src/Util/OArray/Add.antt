-- ===== src/Util/OArray/Add.antt =====
-- lib/util/oarray.c: oarray_add.
use mathlib.Core.List.{Perm}
use mathlib.Core.Path.{subst}
use native.Mathlib.Decide.{ℕ_discrete}
use native.Mathlib.Numerals.{add-one}
use jonix.Base.{
  ℕ, zero, suc, ◌+◌, ◌-◌, ◌<◌, ◌≤◌, ◌≡◌, ◌≢◌, ap, sym, List, ◌∷◌, true, false, ◌==◌, leb, ltb,
  if◌then◌else◌, Bool-cases, inl, inr, arith,
}
use jonix.Util.Sort.{Item, Cmp, le_zero, IsOrder}
use jonix.Util.OArray.{OArray, put, find_place, shift_up, oarray_add}
use jonix.Util.OArray.View.{slots, slots_ext, items, insert, IsSorted, insert-IsSorted, insert-perm}

-- `g` is `f` with the slots from `i` up to `n` moved one place up and the item put at `i`.
abbrev Opened : (ℕ → Item) → (ℕ → Item) → Item → ℕ → ℕ → Type 0
Opened f g item i n =
    (a : ℕ)
    → g a ≡ (if a == i then item else if ltb i a then (if leb a n then f (a - 1) else f a) else f a)

shift_up_lem :
    (left j i n : ℕ) (f g : ℕ → Item)
    → j ≡ i + left
    → j ≤ n
    → ((a : ℕ) → g a ≡ (if ltb j a then (if leb a n then f (a - 1) else f a) else f a))
    → (a : ℕ) → a ≢ i
    → shift_up left j g a ≡ (if ltb i a then (if leb a n then f (a - 1) else f a) else f a)
unfolding shift_up
shift_up_lem zero j i n f g e le same a ne = ground (arith, same a)
shift_up_lem (suc left) j i n f g e le same a ne =
    shift_up_lem left (j - 1) i n f (put g j (g (j - 1))) (omega arith) (omega arith)
      (λ b. ground (arith, same b, same (j - 1))) a ne

module _ (cmp : Cmp) (f : ℕ → Item) (item : Item) where
  find_place_bounds :
      (left i : ℕ) → (i ≤ find_place cmp f item left i) × (find_place cmp f item left i ≤ i + left)
  unfolding find_place
  find_place_bounds zero i = omega arith
  find_place_bounds (suc left) i = ground (arith, find_place_bounds left (i + 1))

  slots-Opened :
      (g : ℕ → Item) (left i n : ℕ)
      → i + left ≡ n
      → Opened f g item (find_place cmp f item left i) n
      → slots g i (suc left) ≡ insert cmp item (slots f i left)
  unfolding find_place insert
  slots-Opened g zero i n e o = ground (arith, o i)
  slots-Opened g (suc left) i n e o = elim (Bool-cases (le_zero (cmp (f i) item))) [
    | inl le ↦
        let first : g i ≡ f i = rw (o i, le) (ground (arith, find_place_bounds left (i + 1))) in
        rw (le, first)
          (ap (λ (l : List Item). f i ∷ l)
            (slots-Opened g left (i + 1) n (omega arith) (rw le at o)))
    | inr gt ↦
        let o' : Opened f g item i n = rw gt at o in
        let first : g i ≡ item = ground (arith, o' i) in
        rw (gt, first)
          (ap (λ (l : List Item). item ∷ l)
            (slots_ext g f (i + 1) i (suc left) (λ k h. ground (arith, o' (i + 1 + k), shift k))))
  ]
    where
      shift : (k : ℕ) → i + 1 + k - 1 ≡ i + k
      shift k = omega arith

module _ (cmp : Cmp) (o : OArray) (item : Item) where
  -- Both branches of the insertion open the slots at the place that was found.
  oarray_add-Opened :
      o.size < o.max_size
      → (g : ℕ → Item) × (oarray_add cmp o item ≡ (record o { array = g; size = o.size + 1 }, true))
        × Opened o.array g item (find_place cmp o.array item o.size 0) o.size
  unfolding oarray_add
  oarray_add-Opened room =
      let place = find_place cmp o.array item o.size 0 in
      let bounds = find_place_bounds cmp o.array item o.size 0 in
      let free : leb o.max_size o.size ≡ false = ground arith in
      rw free (elim (Bool-cases (place == o.size)) [
        | inl last ↦ (put o.array o.size item, rw last, λ a. ground (arith, last))
        | inr more ↦ (
          put (shift_up (o.size - place) o.size o.array) place item,
          rw more,
          λ a. moved a place bounds.1,
        )
      ])
    where
      moved :
          (a place : ℕ)
          → place ≤ 0 + o.size
          → put (shift_up (o.size - place) o.size o.array) place item a ≡ (
              if a == place
              then item
              else if ltb place a
              then (if leb a o.size then o.array (a - 1) else o.array a)
              else o.array a)
      moved a place le = elim (ℕ_discrete a place) [
        | yes e ↦ ground arith
        | no ne ↦ ground (
          arith,
          shift_up_lem (o.size - place) o.size place o.size o.array o.array (omega arith)
              (omega arith) (λ b. ground arith) a ne,
        )
      ]

  -- A full array is left as it is, and 0 is returned.
  pub oarray_add-full : o.max_size ≤ o.size → oarray_add cmp o item ≡ (o, false)
  unfolding oarray_add
  oarray_add-full full = ground arith

  -- An array with room returns 1. Its items are the old ones with the new item behind all that
  -- compare at most equal to it, and no slot beyond the new size is written.
  pub oarray_add-insert :
      o.size < o.max_size
      → (g : ℕ → Item) × (oarray_add cmp o item ≡ (record o { array = g; size = o.size + 1 }, true))
        × (slots g 0 (o.size + 1) ≡ insert cmp item (items o))
        × ((d : ℕ) → g (o.size + 1 + d) ≡ o.array (o.size + 1 + d))
  oarray_add-insert room =
      let (g, e, opened) = oarray_add-Opened room in
      let bounds = find_place_bounds cmp o.array item o.size 0 in
      (
        g,
        e,
        rw add-one (slots-Opened cmp o.array item g o.size 0 o.size (omega arith) opened),
        λ d. ground (arith, opened (o.size + 1 + d), bounds),
      )

  pub items-oarray_add :
      o.size < o.max_size → items (oarray_add cmp o item).0 ≡ insert cmp item (items o)
  items-oarray_add room =
      let (g, e, opened) = oarray_add-Opened room in
      rw (e, add-one) (slots-Opened cmp o.array item g o.size 0 o.size (omega arith) opened)

  -- An array in order stays in order, and holds the old items and the new one.
  pub oarray_add-IsSorted :
      IsOrder cmp
      → o.size < o.max_size
      → IsSorted cmp (items o)
      → IsSorted cmp (items (oarray_add cmp o item).0)
        × Perm (items (oarray_add cmp o item).0) (item ∷ items o)
  oarray_add-IsSorted order room sorted =
      let e = sym (items-oarray_add room) in
      (
        subst (IsSorted cmp) e (insert-IsSorted cmp order item (items o) sorted),
        subst (λ (l : List Item). Perm l (item ∷ items o)) e (insert-perm cmp item (items o)),
      )
