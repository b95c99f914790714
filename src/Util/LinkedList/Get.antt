-- ===== src/Util/LinkedList/Get.antt =====
-- lib/util/list.c: list_get and list_set on a chain of nodes.
use native.Mathlib.Decide.{ℕ_discrete}
use jonix.Base.{
  ℕ, zero, suc, ◌+◌, ◌-◌, ◌/◌, ◌%◌, ◌^◌, ◌≡◌, ◌≢◌, ◌<◌, ◌≤◌, refl, true, false, ltb, leb, ◌==◌,
  if◌then◌else◌, List, [], ◌∷◌, length, Ptr, null, arith, eq→==, ne→==,
}
use jonix.Util.Sort.{Item}
use jonix.Util.OArray.{pred32}
use jonix.Util.LinkedList.{Nodes, ListHead, walk_next, walk_prev, list_get}

-- From `p` on, `next` leads through nodes with these values to NULL, and `prev` leads back.
abbrev pub Chain : Nodes → Ptr → Ptr → List Item → Type 0
Chain nodes before p [] = p ≡ null
Chain nodes before p (x ∷ xs) =
    (p ≢ null) × ((nodes p).value ≡ x) × ((nodes p).prev ≡ before) × Chain nodes p (nodes p).next xs

-- The value at an index, 0 if there is none.
abbrev pub nth : List Item → ℕ → Item
nth [] i = 0
nth (x ∷ xs) i = if i == 0 then x else nth xs (i - 1)

walk_next-Chain :
    (nodes : Nodes) (before p : Ptr) (xs : List Item) (i : ℕ)
    → Chain nodes before p xs
    → i < length xs
    → (nodes (walk_next i nodes p)).value ≡ nth xs i
unfolding walk_next
walk_next-Chain nodes before p [] i c lt = absurd (omega arith)
walk_next-Chain nodes before p (x ∷ xs) zero c lt = c.1
walk_next-Chain nodes before p (x ∷ xs) (suc i) c lt =
    let later : (suc i == 0) ≡ false = ground arith in
    let back : suc i - 1 ≡ i = omega arith in
    rw (later, back) (walk_next-Chain nodes p (nodes p).next xs i c.3 (omega arith))

-- list_get in the first half of a list returns the value at the index.
pub list_get-nth :
    (h : ListHead) (nodes : Nodes) (xs : List Item) (index : ℕ)
    → Chain nodes null h.first xs
    → h.size ≡ length xs
    → h.size < 2 ^ 32
    → index < h.size
    → index ≤ (h.size - 1) / 2
    → list_get h nodes index ≡ nth xs index
unfolding list_get
list_get-nth h nodes xs index c size small inside half =
    let there : ltb h.size ((index + 1) % 2 ^ 32) ≡ false = ground arith in
    let front : leb index (pred32 h.size / 2) ≡ true = ground arith in
    rw (there, front) (walk_next-Chain nodes null h.first xs index c (omega arith))

-- The index -1 gives the last value of every list that is not empty, since its successor wraps to
-- 0; every other index beyond the list gives NULL, the negative ones too.
pub list_get-beyond :
    (h : ListHead) (nodes : Nodes) (index : ℕ)
    → h.size < 2 ^ 32
    → 0 < h.size
    → h.size ≤ index
    → index < 2 ^ 32
    → list_get h nodes index ≡ (if index == 2 ^ 32 - 1 then (nodes h.last).value else 0)
unfolding list_get walk_prev
list_get-beyond h nodes index small some_nodes beyond word = elim (ℕ_discrete index (2 ^ 32 - 1)) [
  | yes e ↦
      let there : ltb h.size ((index + 1) % 2 ^ 32) ≡ false = ground arith in
      let back : leb index (pred32 h.size / 2) ≡ false = ground arith in
      let none_left : pred32 h.size - index ≡ 0 = omega arith in
      rw (there, back, none_left, eq→== _ _ e) refl
  | no ne ↦
      let gone : ltb h.size ((index + 1) % 2 ^ 32) ≡ true = ground arith in
      rw (gone, ne→== _ _ ne) refl
]
