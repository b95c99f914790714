-- ===== src/Util/LinkedList/Chain.antt =====
-- lib/util/list.c: doubly linked nodes, by the list of their addresses.
use jonix.Base.{◌≡◌, ◌≢◌, refl, sym, ◌∙◌, List, [], ◌∷◌, ◌++◌, Ptr, ne→==}
use jonix.Util.Sort.{Item}
use jonix.Util.LinkedList.{Node, Nodes, store_node}

abbrev pub head_or : List Ptr → Ptr → Ptr
head_or [] z = z
head_or (p ∷ ps) z = p

abbrev pub last_or : List Ptr → Ptr → Ptr
last_or [] a = a
last_or (p ∷ ps) a = last_or ps p

-- The nodes at these addresses are linked to one another, the first back to `a` and the last on to
-- `z`.
abbrev pub Seg : Nodes → Ptr → List Ptr → Ptr → Type 0
Seg nodes a [] z = Unit {0}
Seg nodes a (p ∷ ps) z = ((nodes p).prev ≡ a) × ((nodes p).next ≡ head_or ps z) × Seg nodes p ps z

abbrev pub Absent : Ptr → List Ptr → Type 0
Absent p [] = Unit {0}
Absent p (q ∷ qs) = (p ≢ q) × Absent p qs

abbrev pub Distinct : List Ptr → Type 0
Distinct [] = Unit {0}
Distinct (p ∷ ps) = Absent p ps × Distinct ps

abbrev pub values : Nodes → List Ptr → List Item
values nodes [] = []
values nodes (p ∷ ps) = (nodes p).value ∷ values nodes ps

-- The two stores agree at these addresses.
abbrev pub Agree : Nodes → Nodes → List Ptr → Type 0
Agree n n' [] = Unit {0}
Agree n n' (p ∷ ps) = (n' p ≡ n p) × Agree n n' ps

pub store_node-Agree :
    (nodes : Nodes) (p : Ptr) (n : Node) (ps : List Ptr)
    → Absent p ps
    → Agree nodes (store_node p n nodes) ps
store_node-Agree nodes p n [] a = tt
store_node-Agree nodes p n (q ∷ qs) a =
    (rw (ne→== q p (λ e. a.0 (sym e))) refl, store_node-Agree nodes p n qs a.1)

pub Agree-trans :
    (n1 n2 n3 : Nodes) (ps : List Ptr) → Agree n1 n2 ps → Agree n2 n3 ps → Agree n1 n3 ps
Agree-trans n1 n2 n3 [] a b = tt
Agree-trans n1 n2 n3 (p ∷ ps) a b = (b.0 ∙ a.0, Agree-trans n1 n2 n3 ps a.1 b.1)

pub Seg-Agree :
    (n n' : Nodes) (a : Ptr) (ps : List Ptr) (z : Ptr)
    → Agree n n' ps
    → Seg n a ps z
    → Seg n' a ps z
Seg-Agree n n' a [] z same s = tt
Seg-Agree n n' a (p ∷ ps) z same s =
    (rw same.0 s.0, rw same.0 s.1, Seg-Agree n n' p ps z same.1 s.2)

pub values-Agree : (n n' : Nodes) (ps : List Ptr) → Agree n n' ps → values n' ps ≡ values n ps
values-Agree n n' [] same = refl
values-Agree n n' (p ∷ ps) same = rw (same.0, values-Agree n n' ps same.1)

pub values-append :
    (nodes : Nodes) (xs ys : List Ptr)
    → values nodes (xs ++ ys) ≡ values nodes xs ++ values nodes ys
values-append nodes [] ys = refl
values-append nodes (x ∷ xs) ys = rw (values-append nodes xs ys)

pub head_or-append : (xs ys : List Ptr) (z : Ptr) → head_or (xs ++ ys) z ≡ head_or xs (head_or ys z)
head_or-append [] ys z = refl
head_or-append (x ∷ xs) ys z = refl

pub last_or-append : (xs ys : List Ptr) (a : Ptr) → last_or (xs ++ ys) a ≡ last_or ys (last_or xs a)
last_or-append [] ys a = refl
last_or-append (x ∷ xs) ys a = last_or-append xs ys x

pub Seg-append :
    (nodes : Nodes) (a : Ptr) (xs ys : List Ptr) (z : Ptr)
    → Seg nodes a xs (head_or ys z)
    → Seg nodes (last_or xs a) ys z
    → Seg nodes a (xs ++ ys) z
Seg-append nodes a [] ys z s t = t
Seg-append nodes a (x ∷ xs) ys z s t =
    (s.0, rw (head_or-append xs ys z) s.1, Seg-append nodes x xs ys z s.2 t)

pub Seg-split :
    (nodes : Nodes) (a : Ptr) (xs ys : List Ptr) (z : Ptr)
    → Seg nodes a (xs ++ ys) z
    → Seg nodes a xs (head_or ys z) × Seg nodes (last_or xs a) ys z
Seg-split nodes a [] ys z s = (tt, s)
Seg-split nodes a (x ∷ xs) ys z s =
    let (l, r) = Seg-split nodes x xs ys z s.2 in ((s.0, rw (head_or-append xs ys z) at s.1, l), r)

pub Absent-append : (p : Ptr) (xs ys : List Ptr) → Absent p xs → Absent p ys → Absent p (xs ++ ys)
Absent-append p [] ys a b = b
Absent-append p (x ∷ xs) ys a b = (a.0, Absent-append p xs ys a.1 b)

pub Absent-split : (p : Ptr) (xs ys : List Ptr) → Absent p (xs ++ ys) → Absent p xs × Absent p ys
Absent-split p [] ys a = (tt, a)
Absent-split p (x ∷ xs) ys a = let (l, r) = Absent-split p xs ys a.1 in ((a.0, l), r)

pub Agree-refl : (nodes : Nodes) (ps : List Ptr) → Agree nodes nodes ps
Agree-refl nodes [] = tt
Agree-refl nodes (p ∷ ps) = (refl, Agree-refl nodes ps)
