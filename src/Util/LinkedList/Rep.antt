-- ===== src/Util/LinkedList/Rep.antt =====
-- lib/util/list.c: what a list head stands for, and how a change of one link shows in the nodes.
use native.Mathlib.Decide.{ℕ_discrete}
use jonix.Base.{◌≡◌, ◌≢◌, refl, sym, ap, List, [], ◌∷◌, ◌++◌, length, Ptr, null, eq→==, ne→==}
use jonix.Util.LinkedList.{Nodes, ListHead, set_next, set_prev}
use jonix.Util.LinkedList.Chain.{
  head_or, last_or, Seg, Absent, Distinct, values, store_node-Agree, Seg-Agree, Absent-append,
  Absent-split,
}

-- An empty list says nothing of `last`, which the code leaves stale.
abbrev pub IsLast : Ptr → List Ptr → Type 0
IsLast p [] = Unit {0}
IsLast p (q ∷ qs) = p ≡ last_or qs q

pub record IsList (nodes : Nodes) (h : ListHead) (ps : List Ptr) : Type 0 where
  pub first : h.first ≡ head_or ps null
  pub last : IsLast h.last ps
  pub links : Seg nodes null ps null
  pub distinct : Distinct ps
  pub present : Absent null ps
  pub size : h.size ≡ length ps

-- No address of the first list is in the second.
abbrev pub Disjoint : List Ptr → List Ptr → Type 0
Disjoint [] qs = Unit {0}
Disjoint (p ∷ ps) qs = Absent p qs × Disjoint ps qs

pub Disjoint-append :
    (xs ys qs : List Ptr) → Disjoint xs qs → Disjoint ys qs → Disjoint (xs ++ ys) qs
Disjoint-append [] ys qs a b = b
Disjoint-append (x ∷ xs) ys qs a b = (a.0, Disjoint-append xs ys qs a.1 b)

pub Disjoint-split :
    (xs ys qs : List Ptr) → Disjoint (xs ++ ys) qs → Disjoint xs qs × Disjoint ys qs
Disjoint-split [] ys qs a = (tt, a)
Disjoint-split (x ∷ xs) ys qs a = let (l, r) = Disjoint-split xs ys qs a.1 in ((a.0, l), r)

pub Disjoint-last : (x : Ptr) (xs qs : List Ptr) → Disjoint (x ∷ xs) qs → Absent (last_or xs x) qs
Disjoint-last x [] qs d = d.0
Disjoint-last x (y ∷ ys) qs d = Disjoint-last y ys qs d.1

pub Distinct-append :
    (xs ys : List Ptr) → Distinct xs → Distinct ys → Disjoint xs ys → Distinct (xs ++ ys)
Distinct-append [] ys a b d = b
Distinct-append (x ∷ xs) ys a b d = (Absent-append x xs ys a.0 d.0, Distinct-append xs ys a.1 b d.1)

pub Distinct-split :
    (xs ys : List Ptr) → Distinct (xs ++ ys) → Distinct xs × Distinct ys × Disjoint xs ys
Distinct-split [] ys d = (tt, d, tt)
Distinct-split (x ∷ xs) ys d =
    let (a, b, c) = Distinct-split xs ys d.1 in
    let (l, r) = Absent-split x xs ys d.0 in ((l, a), b, (r, c))

pub Absent-last : (p q : Ptr) (qs : List Ptr) → Absent p (q ∷ qs) → p ≢ last_or qs q
Absent-last p q [] a = a.0
Absent-last p q (r ∷ rs) a = Absent-last p r rs a.1

pub Absent-Disjoint : (p : Ptr) (qs : List Ptr) → Absent p qs → Disjoint qs (p ∷ [])
Absent-Disjoint p [] a = tt
Absent-Disjoint p (q ∷ qs) a = ((λ e. a.0 (sym e), tt), Absent-Disjoint p qs a.1)

-- A link changes no value.
value-set_next : (nodes : Nodes) (p v q : Ptr) → (set_next p v nodes q).value ≡ (nodes q).value
value-set_next nodes p v q = elim (ℕ_discrete q p) [
  | yes e ↦ rw (eq→== q p e) (ap (λ r. (nodes r).value) (sym e))
  | no ne ↦ rw (ne→== q p ne) refl
]

value-set_prev : (nodes : Nodes) (p v q : Ptr) → (set_prev p v nodes q).value ≡ (nodes q).value
value-set_prev nodes p v q = elim (ℕ_discrete q p) [
  | yes e ↦ rw (eq→== q p e) (ap (λ r. (nodes r).value) (sym e))
  | no ne ↦ rw (ne→== q p ne) refl
]

pub set_next-values :
    (nodes : Nodes) (p v : Ptr) (ps : List Ptr) → values (set_next p v nodes) ps ≡ values nodes ps
set_next-values nodes p v [] = refl
set_next-values nodes p v (q ∷ qs) = rw (value-set_next nodes p v q, set_next-values nodes p v qs)

pub set_prev-values :
    (nodes : Nodes) (p v : Ptr) (ps : List Ptr) → values (set_prev p v nodes) ps ≡ values nodes ps
set_prev-values nodes p v [] = refl
set_prev-values nodes p v (q ∷ qs) = rw (value-set_prev nodes p v q, set_prev-values nodes p v qs)

-- The last node of a segment can be led on to another address.
pub set_next-Seg :
    (nodes : Nodes) (a x : Ptr) (xs : List Ptr) (z v : Ptr)
    → Distinct (x ∷ xs)
    → Seg nodes a (x ∷ xs) z
    → Seg (set_next (last_or xs x) v nodes) a (x ∷ xs) v
set_next-Seg nodes a x [] z v d s = rw (eq→== x x refl) (s.0, refl, tt)
set_next-Seg nodes a x (y ∷ ys) z v d s =
    rw (ne→== x (last_or ys y) (Absent-last x y ys d.0))
      (s.0, s.1, set_next-Seg nodes x y ys z v d.1 s.2)

-- The first node of a segment can be led back to another address.
pub set_prev-Seg :
    (nodes : Nodes) (a x : Ptr) (xs : List Ptr) (z v : Ptr)
    → Distinct (x ∷ xs)
    → Seg nodes a (x ∷ xs) z
    → Seg (set_prev x v nodes) v (x ∷ xs) z
set_prev-Seg nodes a x xs z v d s = (
  rw (eq→== x x refl) refl,
  rw (eq→== x x refl) s.1,
  Seg-Agree nodes _ x xs z (store_node-Agree nodes x _ xs d.0) s.2,
)

Disjoint-cons : (xs qs : List Ptr) (q : Ptr) → Absent q xs → Disjoint xs qs → Disjoint xs (q ∷ qs)
Disjoint-cons [] qs q a d = tt
Disjoint-cons (x ∷ xs) qs q a d = ((λ e. a.0 (sym e), d.0), Disjoint-cons xs qs q a.1 d.1)

Disjoint-nil : (xs : List Ptr) → Disjoint xs []
Disjoint-nil [] = tt
Disjoint-nil (x ∷ xs) = (tt, Disjoint-nil xs)

pub Disjoint-sym : (xs ys : List Ptr) → Disjoint xs ys → Disjoint ys xs
Disjoint-sym [] ys d = Disjoint-nil ys
Disjoint-sym (x ∷ xs) ys d = Disjoint-cons ys xs x d.0 (Disjoint-sym xs ys d.1)
