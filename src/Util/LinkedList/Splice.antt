-- ===== src/Util/LinkedList/Splice.antt =====
-- lib/util/list.c: a new node between the nodes of a list.
use jonix.Base.{◌≡◌, refl, ap, ◌∙◌, List, [], ◌∷◌, ◌++◌, Ptr, null, eq→==}
use jonix.Util.Sort.{Item}
use jonix.Util.LinkedList.{Nodes, store_node, set_next, set_prev}
use jonix.Util.LinkedList.Chain.{
  head_or, last_or, Seg, Absent, Distinct, values, Agree, store_node-Agree, Seg-Agree, values-Agree,
  Absent-split, Agree-refl, Agree-trans, Seg-append, Seg-split, values-append,
}
use jonix.Util.LinkedList.Rep.{
  Disjoint, Disjoint-last, Disjoint-sym, Distinct-split, set_next-Seg, set_prev-Seg,
  set_next-values, set_prev-values, Absent-Disjoint,
}

abbrev pub link_from : List Ptr → Ptr → Nodes → Nodes
link_from [] p nodes = nodes
link_from (x ∷ xs) p nodes = set_next (last_or xs x) p nodes

abbrev pub link_to : List Ptr → Ptr → Nodes → Nodes
link_to [] p nodes = nodes
link_to (y ∷ ys) p nodes = set_prev y p nodes

-- The node `p` with this item between the nodes of `xs` and those of `ys`.
abbrev pub splice : List Ptr → Ptr → Item → List Ptr → Nodes → Nodes
splice xs p item ys nodes = link_to ys p (
    link_from xs p (
      store_node p (record { value = item; next = head_or ys null; prev = last_or xs null }) nodes))

link_from-Agree :
    (nodes : Nodes) (xs : List Ptr) (p : Ptr) (qs : List Ptr)
    → Disjoint xs qs
    → Agree nodes (link_from xs p nodes) qs
link_from-Agree nodes [] p qs d = Agree-refl nodes qs
link_from-Agree nodes (x ∷ xs) p qs d =
    store_node-Agree nodes (last_or xs x) _ qs (Disjoint-last x xs qs d)

link_to-Agree :
    (nodes : Nodes) (ys : List Ptr) (p : Ptr) (qs : List Ptr)
    → Disjoint ys qs
    → Agree nodes (link_to ys p nodes) qs
link_to-Agree nodes [] p qs d = Agree-refl nodes qs
link_to-Agree nodes (y ∷ ys) p qs d = store_node-Agree nodes y _ qs d.0

link_from-Seg :
    (nodes : Nodes) (a : Ptr) (xs : List Ptr) (z p : Ptr)
    → Distinct xs
    → Seg nodes a xs z
    → Seg (link_from xs p nodes) a xs p
link_from-Seg nodes a [] z p d s = tt
link_from-Seg nodes a (x ∷ xs) z p d s = set_next-Seg nodes a x xs z p d s

link_to-Seg :
    (nodes : Nodes) (a : Ptr) (ys : List Ptr) (z p : Ptr)
    → Distinct ys
    → Seg nodes a ys z
    → Seg (link_to ys p nodes) p ys z
link_to-Seg nodes a [] z p d s = tt
link_to-Seg nodes a (y ∷ ys) z p d s = set_prev-Seg nodes a y ys z p d s

link_from-values :
    (nodes : Nodes) (xs : List Ptr) (p : Ptr) (ps : List Ptr)
    → values (link_from xs p nodes) ps ≡ values nodes ps
link_from-values nodes [] p ps = refl
link_from-values nodes (x ∷ xs) p ps = set_next-values nodes (last_or xs x) p ps

link_to-values :
    (nodes : Nodes) (ys : List Ptr) (p : Ptr) (ps : List Ptr)
    → values (link_to ys p nodes) ps ≡ values nodes ps
link_to-values nodes [] p ps = refl
link_to-values nodes (y ∷ ys) p ps = set_prev-values nodes y p ps

module _ (nodes : Nodes) (xs ys : List Ptr) (p : Ptr) (item : Item) where
  abbrev stored : Nodes
  stored =
      store_node p (record { value = item; next = head_or ys null; prev = last_or xs null }) nodes

  abbrev forth : Nodes
  forth = link_from xs p stored

  -- Other addresses keep their nodes.
  pub splice-Agree :
      (qs : List Ptr)
      → Absent p qs
      → Disjoint xs qs
      → Disjoint ys qs
      → Agree nodes (splice xs p item ys nodes) qs
  splice-Agree qs a dx dy = Agree-trans nodes stored _ qs (store_node-Agree nodes p _ qs a) (
      Agree-trans stored forth _ qs (link_from-Agree stored xs p qs dx)
        (link_to-Agree forth ys p qs dy))

  module _ (new : Absent p (xs ++ ys)) where
    new_xs : Absent p xs
    new_xs = (Absent-split p xs ys new).0

    new_ys : Absent p ys
    new_ys = (Absent-split p xs ys new).1

    pub splice-values :
        values (splice xs p item ys nodes) (xs ++ p ∷ ys)
        ≡ values nodes xs ++ item ∷ values nodes ys
    splice-values =
        rw
          (
            values-append (splice xs p item ys nodes) xs (p ∷ ys),
            link_to-values forth ys p xs,
            link_from-values stored xs p xs,
            values-Agree nodes stored xs (store_node-Agree nodes p _ xs new_xs),
          )
          (ap (λ l. values nodes xs ++ l)
            (link_to-values forth ys p (p ∷ ys)
              ∙ link_from-values stored xs p (p ∷ ys)
              ∙ rw (
                eq→== p p refl,
                values-Agree nodes stored ys (store_node-Agree nodes p _ ys new_ys),
              )))

    pub splice-Seg :
        Distinct (xs ++ ys)
        → Seg nodes null (xs ++ ys) null
        → Seg (splice xs p item ys nodes) null (xs ++ p ∷ ys) null
    splice-Seg d s =
        let (dx, dy, dd) = Distinct-split xs ys d in
        let (sx, sy) = Seg-split nodes null xs ys null s in
        let ax = store_node-Agree nodes p _ xs new_xs in
        let ay =
          Agree-trans nodes stored forth ys (store_node-Agree nodes p _ ys new_ys)
            (link_from-Agree stored xs p ys dd) in
        let before =
          Seg-Agree forth (splice xs p item ys nodes) null xs p
            (link_to-Agree forth ys p xs (Disjoint-sym xs ys dd))
            (link_from-Seg stored null xs (head_or ys null) p dx
              (Seg-Agree nodes stored null xs _ ax sx)) in
        let behind =
          link_to-Seg forth (last_or xs null) ys null p dy
            (Seg-Agree nodes forth _ ys null ay sy) in
        let same =
          Agree-trans stored forth (splice xs p item ys nodes) (p ∷ [])
            (link_from-Agree stored xs p (p ∷ []) (Absent-Disjoint p xs new_xs))
            (link_to-Agree forth ys p (p ∷ []) (Absent-Disjoint p ys new_ys)) in
        Seg-append (splice xs p item ys nodes) null xs (p ∷ ys) null before
          (rw (same.0, eq→== p p refl) refl, rw (same.0, eq→== p p refl) refl, behind)
