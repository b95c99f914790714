-- ===== src/Util/OArray/View.antt =====
-- The abstract view of an ordered array: the list of its items.
use mathlib.Core.List.{Perm, Mem, mem-cons, not-mem-nil}
use mathlib.Core.Logic.Or
use mathlib.Core.Bool.{Bool-set}
use mathlib.Core.List.Perm
use mathlib.Core.Path.{subst}
use jonix.Base.{
  eq→==, sym, ℕ, zero, suc, ◌+◌, ◌<◌, ◌≡◌, refl, ap, List, [], ◌∷◌, ◌++◌, ◌∙◌, true, false, ◌==◌,
  if◌then◌else◌, length, Bool-cases, inl, inr, arith, Bool, ◌||◌,
}
use jonix.Util.Sort.{Item, Cmp, le_zero, IsOrder}
use jonix.Util.OArray.{OArray}

-- The `n` slots from slot `i`.
abbrev pub slots : (ℕ → Item) → ℕ → ℕ → List Item
slots f i zero = []
slots f i (suc n) = f i ∷ slots f (i + 1) n

abbrev pub items : OArray → List Item
items o = slots o.array 0 o.size

pub length-slots : (f : ℕ → Item) (i n : ℕ) → length (slots f i n) ≡ n
length-slots f i zero = refl
length-slots f i (suc n) = ap suc (length-slots f (i + 1) n)

-- Slots that hold the same items, the one list `d` places behind the other.
pub slots_ext :
    (f g : ℕ → Item) (i j n : ℕ)
    → ((k : ℕ) → k < n → f (i + k) ≡ g (j + k))
    → slots f i n ≡ slots g j n
slots_ext f g i j zero same = refl
slots_ext f g i j (suc n) same =
    ground (arith, same 0, slots_ext f g (i + 1) (j + 1) n (λ k h. ground (arith, same (k + 1))))

-- A slot more, behind the others.
pub slots-last : (f : ℕ → Item) (i n : ℕ) → slots f i (suc n) ≡ slots f i n ++ f (i + n) ∷ []
slots-last f i zero = ground arith
slots-last f i (suc n) =
    ap (λ (l : List Item). f i ∷ l) (slots-last f (i + 1) n)
    ∙ ap (λ (j : ℕ). f i ∷ (slots f (i + 1) n ++ f j ∷ [])) (omega arith)

-- Where an item goes: behind all that compare at most equal, up to the first that does not.
unfoldable pub insert : Cmp → Item → List Item → List Item
insert cmp x [] = x ∷ []
insert cmp x (y ∷ ys) = if le_zero (cmp y x) then y ∷ insert cmp x ys else x ∷ y ∷ ys

unfoldable pub erase : Item → List Item → List Item
erase x [] = []
erase x (y ∷ ys) = if y == x then ys else y ∷ erase x ys

abbrev pub contains : Item → List Item → Bool
contains x [] = false
contains x (y ∷ ys) = (y == x) || contains x ys

-- Every item compares at most equal to each that stands behind it.
abbrev pub Before : Cmp → Item → List Item → Type 0
Before cmp x [] = Unit {0}
Before cmp x (y ∷ ys) = (le_zero (cmp x y) ≡ true) × Before cmp x ys

abbrev pub IsSorted : Cmp → List Item → Type 0
IsSorted cmp [] = Unit {0}
IsSorted cmp (x ∷ xs) = Before cmp x xs × IsSorted cmp xs

module _ (cmp : Cmp) where
  Before-insert :
      (x y : Item) (ys : List Item)
      → le_zero (cmp x y) ≡ true
      → Before cmp x ys
      → Before cmp x (insert cmp y ys)
  unfolding insert
  Before-insert x y [] h b = (h, tt)
  Before-insert x y (z ∷ ys) h b = elim (Bool-cases (le_zero (cmp z y))) [
    | inl e ↦ rw e (b.0, Before-insert x y ys h b.1)
    | inr e ↦ rw e (h, b)
  ]

  Before-trans :
      IsOrder cmp
      → (x y : Item) (ys : List Item) → le_zero (cmp x y) ≡ true
      → Before cmp y ys
      → Before cmp x ys
  Before-trans o x y [] h b = tt
  Before-trans o x y (z ∷ ys) h b = (o.trans x y z h b.0, Before-trans o x y ys h b.1)

  pub insert-IsSorted :
      IsOrder cmp → (x : Item) (xs : List Item) → IsSorted cmp xs → IsSorted cmp (insert cmp x xs)
  unfolding insert
  insert-IsSorted o x [] s = (tt, tt)
  insert-IsSorted o x (y ∷ ys) s = elim (Bool-cases (le_zero (cmp y x))) [
    | inl e ↦ rw e (Before-insert y x ys e s.0, insert-IsSorted o x ys s.1)
    | inr e ↦ rw e ((o.total y x e, Before-trans o x y ys (o.total y x e) s.0), s)
  ]

  pub insert-perm : (x : Item) (xs : List Item) → Perm (insert cmp x xs) (x ∷ xs)
  unfolding insert
  insert-perm x [] = Perm.refl _
  insert-perm x (y ∷ ys) = elim (Bool-cases (le_zero (cmp y x))) [
    | inl e ↦ rw e (Perm.trans (Perm.cons y (insert-perm x ys)) (Perm.swap x y ys))
    | inr e ↦ rw e (Perm.refl _)
  ]

  Before-erase : (x y : Item) (ys : List Item) → Before cmp x ys → Before cmp x (erase y ys)
  unfolding erase
  Before-erase x y [] b = tt
  Before-erase x y (z ∷ ys) b = elim (Bool-cases (z == y)) [
    | inl e ↦ rw e b.1
    | inr e ↦ rw e (b.0, Before-erase x y ys b.1)
  ]

  pub erase-IsSorted : (x : Item) (xs : List Item) → IsSorted cmp xs → IsSorted cmp (erase x xs)
  unfolding erase
  erase-IsSorted x [] s = tt
  erase-IsSorted x (y ∷ ys) s = elim (Bool-cases (y == x)) [
    | inl e ↦ rw e s.1
    | inr e ↦ rw e (Before-erase y x ys s.0, erase-IsSorted x ys s.1)
  ]

pub contains-Mem : (p : Item) (xs : List Item) → Mem p xs → contains p xs ≡ true
contains-Mem p [] mem = absurd (not-mem-nil mem)
contains-Mem p (x ∷ xs) mem =
    Or.elim (Bool-set _ _) (mem-cons.0 mem) (λ e. rw (eq→== x p (sym e)))
      (λ rest. ground (arith, contains-Mem p xs rest))

-- An item that is there can be taken out.
pub erase-perm : (x : Item) (xs : List Item) → contains x xs ≡ true → Perm xs (x ∷ erase x xs)
unfolding erase
erase-perm x [] c = cc
erase-perm x (y ∷ ys) c = elim (Bool-cases (y == x)) [
  | inl e ↦
      rw e (subst (λ (z : Item). Perm (y ∷ ys) (z ∷ ys)) {x = y} (ground (arith, e)) (Perm.refl _))
  | inr e ↦
      rw e (Perm.trans (Perm.cons y (erase-perm x ys (ground (arith, c, e)))) (Perm.swap x y _))
]
