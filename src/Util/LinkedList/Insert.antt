-- ===== src/Util/LinkedList/Insert.antt =====
-- lib/util/list.c: list_add and olist_add on a list, whose nodes stand among other nodes.
use mathlib.Core.Path.{subst, fun_ext}
use mathlib.Core.List.{append-nil}
use native.Mathlib.Decide.{ℕ_discrete}
use jonix.Base.{
  ℕ, zero, suc, ◌+◌, ◌%◌, ◌^◌, ◌<◌, ◌≡◌, ◌≢◌, refl, sym, ap, List, [], ◌∷◌, ◌++◌, length,
  length-append, ◌==◌, Ptr, null, arith, eq→==, ne→==, Option, some, Bool, true, false, Bool-cases,
  inl, inr,
}
use jonix.Util.Sort.{Item, Cmp, le_zero}
use jonix.Util.OArray.View.{insert}
use jonix.Util.LinkedList.{
  Node, Nodes, ListHead, Allocator, sizeof_node, store_node, set_next, list_add, olist_add,
  olist_place, olist_link,
}
use jonix.Util.LinkedList.Chain.{
  head_or, last_or, Seg, Absent, values, Agree, Absent-append, last_or-append, head_or-append,
  Absent-split, Seg-split,
}
use jonix.Util.LinkedList.Live.{IsAllocator, All, All-map, All-append, All-split, All-Absent}
use jonix.Util.LinkedList.Rep.{
  IsLast, IsList, Disjoint, Disjoint-append, Disjoint-split, Distinct-append, Distinct-split,
  Disjoint-sym, Absent-last,
}
use jonix.Util.LinkedList.Splice.{splice, splice-Agree, splice-values, splice-Seg}

abbrev pub spliced_head : ListHead → List Ptr → Ptr → List Ptr → ListHead
spliced_head h xs p ys = record {
  first = head_or xs p;
  last = last_or ys p;
  size = (h.size + 1) % 2 ^ 32;
}

module _ (nodes : Nodes) (h : ListHead) (xs ys : List Ptr) (p : Ptr) (item : Item) where
  IsLast-splice : (zs : List Ptr) → IsLast (last_or ys p) (zs ++ p ∷ ys)
  IsLast-splice [] = refl
  IsLast-splice (z ∷ zs) = sym (last_or-append zs (p ∷ ys) z)

  pub splice-IsList :
      IsList nodes h (xs ++ ys)
      → p ≢ null
      → Absent p (xs ++ ys)
      → length (xs ++ ys) + 1 < 2 ^ 32
      → IsList (splice xs p item ys nodes) (spliced_head h xs p ys) (xs ++ p ∷ ys)
  splice-IsList l real new small =
      let (dx, dy, dd) = Distinct-split xs ys l.distinct in
      let (nx, ny) = Absent-split p xs ys new in
      let (px, py) = Absent-split null xs ys l.present in
      record {
        first = sym (head_or-append xs (p ∷ ys) null);
        last = IsLast-splice xs;
        links = splice-Seg nodes xs ys p item new l.distinct l.links;
        distinct =
            Distinct-append xs (p ∷ ys) dx (ny, dy)
              (Disjoint-sym (p ∷ ys) xs (nx, Disjoint-sym xs ys dd));
        present = Absent-append null xs (p ∷ ys) px ((λ e. real (sym e)), py);
        size = omega (arith, l.size, small, length-append xs ys, length-append xs (p ∷ ys));
      }

-- Where olist_add puts a new node: the nodes before it, and those from it on.
record Spot (cmp : Cmp) (nodes : Nodes) (item : Item) (fuel : ℕ) (ps : List Ptr) : Type 0 where
  xs : List Ptr
  ys : List Ptr
  whole : ps ≡ xs ++ ys
  found : olist_place fuel cmp nodes item (head_or ps null) ≡ some (head_or ys null)
  sorted : values nodes xs ++ item ∷ values nodes ys ≡ insert cmp item (values nodes ps)

olist_place-Spot :
    (cmp : Cmp) (nodes : Nodes) (item : Item) (fuel : ℕ) (a : Ptr) (ps : List Ptr)
    → Seg nodes a ps null
    → Absent null ps
    → length ps < fuel
    → Spot cmp nodes item fuel ps
unfolding olist_place insert
olist_place-Spot cmp nodes item zero a ps s n lt = absurd (omega (arith, lt))
olist_place-Spot cmp nodes item (suc fuel) a [] s n lt = record {
  xs = [];
  ys = [];
  whole = refl;
  found = refl;
  sorted = refl;
}
olist_place-Spot cmp nodes item (suc fuel) a (p ∷ ps) s n lt =
    let rest = olist_place-Spot cmp nodes item fuel p ps s.2 n.1 (omega (arith, lt)) in
    let real : (p == null) ≡ false = ne→== p null (λ e. n.0 (sym e)) in
    elim (Bool-cases (le_zero (cmp (nodes p).value item))) [
      | inl e ↦ record {
        xs = p ∷ rest.xs;
        ys = rest.ys;
        whole = ap (λ l. p ∷ l) rest.whole;
        found = rw (real, e, s.1) rest.found;
        sorted = rw e (ap (λ l. (nodes p).value ∷ l) rest.sorted);
      }
      | inr e ↦ record {
        xs = [];
        ys = p ∷ ps;
        whole = refl;
        found = rw (real, e) refl;
        sorted = rw e refl;
      }
    ]

olist_link-splice :
    (nodes : Nodes) (h : ListHead) (xs ys : List Ptr) (p : Ptr) (item : Item)
    → IsList nodes h (xs ++ ys)
    → 0 < length (xs ++ ys)
    → olist_link h nodes item p (head_or ys null)
      ≡ (spliced_head h xs p ys, splice xs p item ys nodes)
unfolding olist_link
olist_link-splice nodes h [] [] p item l some_nodes = absurd (omega (arith, some_nodes))
olist_link-splice nodes h (x ∷ xs) [] p item l some_nodes =
    rw (l.first, l.last, last_or-append xs [] x) refl
olist_link-splice nodes h [] (y ∷ ys) p item l some_nodes =
    let real : (y == null) ≡ false = ne→== y null (λ e. l.present.0 (sym e)) in
    rw (real, l.links.0, l.last) refl
olist_link-splice nodes h (x ∷ xs) (y ∷ ys) p item l some_nodes =
    let (px, py) = Absent-split null (x ∷ xs) (y ∷ ys) l.present in
    let real : (y == null) ≡ false = ne→== y null (λ e. py.0 (sym e)) in
    let back = (Seg-split nodes null (x ∷ xs) (y ∷ ys) null l.links).1.0 in
    let inner : (last_or xs x == null) ≡ false =
      ne→== (last_or xs x) null (λ e. Absent-last null x xs px (sym e)) in
    rw (real, back, inner, l.first, l.last, last_or-append xs (y ∷ ys) x) refl

-- A list of these values at the addresses `ps`, in a store that is as before at the addresses `qs`.
pub record Holding (A : Allocator) (L : IsAllocator A) (s : A.State) (h : ListHead)
    (before nodes : Nodes) (ps qs : List Ptr) (vs : List Item) : Type 0 where
  pub list : IsList nodes h ps
  pub holds : values nodes ps ≡ vs
  pub others : Agree before nodes qs
  pub apart : Disjoint ps qs
  pub in_use : All (L.Live s) ps
  pub others_in_use : All (L.Live s) qs

-- The two ends of an addition: without memory nothing changes, and with memory the list has the
-- values `vs`.
pub data Added (A : Allocator) (L : IsAllocator A) (s : A.State) (h : ListHead) (nodes : Nodes)
    (ps qs : List Ptr) (vs : List Item) : Option (A.State × ListHead × Nodes × Bool) → Type 0 where
  refused :
      (A.kmalloc s sizeof_node).1 ≡ null
      → All (L.Live (A.kmalloc s sizeof_node).0) ps
      → All (L.Live (A.kmalloc s sizeof_node).0) qs
      → Added A L s h nodes ps qs vs (some ((A.kmalloc s sizeof_node).0, h, nodes, false))
  added :
      (h' : ListHead) (nodes' : Nodes) (ps' : List Ptr)
      → (A.kmalloc s sizeof_node).1 ≢ null
      → Holding A L (A.kmalloc s sizeof_node).0 h' nodes nodes' ps' qs vs
      → Added A L s h nodes ps qs vs (some ((A.kmalloc s sizeof_node).0, h', nodes', true))

-- Stores to different nodes commute.
store_node-set_next :
    (nodes : Nodes) (p q v : Ptr) (n : Node)
    → p ≢ q
    → store_node p n (set_next q v nodes) ≡ set_next q v (store_node p n nodes)
store_node-set_next nodes p q v n apart = fun_ext λ r. elim (ℕ_discrete r p) [
  | yes e ↦ rw (e, eq→== p p refl, ne→== p q apart) refl
  | no ne ↦ rw (ne→== r p ne, ne→== q p (λ e. apart (sym e))) refl
]

module _ (A : Allocator) (L : IsAllocator A) (s : A.State) (h : ListHead) (nodes : Nodes)
    (item : Item) where
  abbrev node : Ptr
  node = (A.kmalloc s sizeof_node).1

  abbrev after : A.State
  after = (A.kmalloc s sizeof_node).0

  olist_add-some :
      (fuel : ℕ) (cmp : Cmp) (xs ys : List Ptr)
      → IsList nodes h (xs ++ ys)
      → node ≢ null
      → olist_place fuel cmp nodes item (head_or (xs ++ ys) null) ≡ some (head_or ys null)
      → 0 < length (xs ++ ys)
      → olist_add A fuel cmp s h nodes item
        ≡ some (after, spliced_head h xs node ys, splice xs node item ys nodes, true)
  unfolding olist_add
  olist_add-some fuel cmp xs ys l real found some_nodes =
      let filled : (h.size == 0) ≡ false = ground (arith, l.size, some_nodes) in
      rw
        (
          ne→== node null real,
          filled,
          l.first,
          found,
          olist_link-splice nodes h xs ys node item l some_nodes,
        )
        refl

  olist_add-run :
      (fuel : ℕ) (cmp : Cmp) (xs ys : List Ptr)
      → IsList nodes h (xs ++ ys)
      → node ≢ null
      → olist_place fuel cmp nodes item (head_or (xs ++ ys) null) ≡ some (head_or ys null)
      → olist_add A fuel cmp s h nodes item
        ≡ some (after, spliced_head h xs node ys, splice xs node item ys nodes, true)
  unfolding olist_add
  olist_add-run fuel cmp [] [] l real found = rw (ne→== node null real, l.size) refl
  olist_add-run fuel cmp (x ∷ xs) ys l real found =
      olist_add-some fuel cmp (x ∷ xs) ys l real found (omega arith)
  olist_add-run fuel cmp [] (y ∷ ys) l real found =
      olist_add-some fuel cmp [] (y ∷ ys) l real found (omega arith)

  list_add-run :
      (xs : List Ptr)
      → IsList nodes h (xs ++ [])
      → Absent node (xs ++ [])
      → node ≢ null
      → list_add A s h nodes item
        ≡ (after, spliced_head h xs node [], splice xs node item [] nodes, true)
  unfolding list_add
  list_add-run [] l new real = rw (ne→== node null real, l.size) refl
  list_add-run (x ∷ xs) l new real =
      let other : node ≢ last_or xs x =
        Absent-last node x xs (Absent-split node (x ∷ xs) [] new).0 in
      let filled : (h.size == 0) ≡ false = ground (arith, l.size) in
      let new_node : Node = record { value = item; next = null; prev = last_or xs x } in
      rw (ne→== node null real, filled, l.first, l.last, last_or-append xs [] x)
        (ap (λ (m : Nodes). (after, spliced_head h (x ∷ xs) node [], m, true))
          (store_node-set_next nodes node (last_or xs x) node new_node other))

  module _ (xs ys qs : List Ptr) (l : IsList nodes h (xs ++ ys))
      (in_use : All (L.Live s) (xs ++ ys)) (others : All (L.Live s) qs)
      (apart : Disjoint (xs ++ ys) qs) (small : length (xs ++ ys) + 1 < 2 ^ 32)
      (real : node ≢ null) where
    spliced-Holding :
        Holding A L after
          (spliced_head h xs node ys)
          nodes
          (splice xs node item ys nodes)
          (xs ++ node ∷ ys)
          qs
          (values nodes xs ++ item ∷ values nodes ys)
    spliced-Holding =
        let new =
          All-Absent node (xs ++ ys)
            (All-map _ _ (xs ++ ys) (λ q u. L.fresh s sizeof_node q real u) in_use) in
        let new_q =
          All-Absent node qs (All-map _ _ qs (λ q u. L.fresh s sizeof_node q real u) others) in
        let (ax, ay) = Disjoint-split xs ys qs apart in
        let (ux, uy) = All-split _ xs ys in_use in
        record {
          list = splice-IsList nodes h xs ys node item l real new small;
          holds = splice-values nodes xs ys node item new;
          others = splice-Agree nodes xs ys node item qs new_q ax ay;
          apart = Disjoint-append xs (node ∷ ys) qs ax (new_q, ay);
          in_use =
              All-append _ xs (node ∷ ys) (All-map _ _ xs (L.kept s sizeof_node) ux)
                (L.live s sizeof_node real, All-map _ _ ys (L.kept s sizeof_node) uy);
          others_in_use = All-map _ _ qs (L.kept s sizeof_node) others;
        }

  module _ (ps qs : List Ptr) (l : IsList nodes h ps) (in_use : All (L.Live s) ps)
      (others : All (L.Live s) qs) (apart : Disjoint ps qs) (small : length ps + 1 < 2 ^ 32) where
    refused_lem :
        (vs : List Item)
        → node ≡ null
        → Added A L s h nodes ps qs vs (some (after, h, nodes, false))
    refused_lem vs e =
        refused e (All-map _ _ ps (L.kept s sizeof_node) in_use)
          (All-map _ _ qs (L.kept s sizeof_node) others)

    -- olist_add on an ordered list, with more fuel than the list has nodes, either finds no memory
    -- and changes nothing, or leaves a well-formed list of the values with the item put behind all
    -- that compare at most equal; other nodes are as they were.
    pub olist_add-Added :
        (fuel : ℕ) (cmp : Cmp)
        → length ps < fuel
        → Added A L s h nodes ps qs
            (insert cmp item (values nodes ps))
            (olist_add A fuel cmp s h nodes item)
    unfolding olist_add
    olist_add-Added fuel cmp enough =
        let place = olist_place-Spot cmp nodes item fuel null ps l.links l.present enough in
        let w = place.whole in
        elim (ℕ_discrete node null) [
          | yes e ↦ rw (eq→== node null e) (refused_lem _ e)
          | no real ↦
              subst (λ r. Added A L s h nodes ps qs (insert cmp item (values nodes ps)) r)
                (sym
                  (olist_add-run fuel cmp place.xs place.ys (rw w at l) real (rw w at place.found)))
                (added _ _ (place.xs ++ node ∷ place.ys) real (
                  subst (Holding A L after _ nodes _ _ qs) place.sorted (
                    spliced-Holding place.xs place.ys qs (rw w at l) (rw w at in_use) others
                      (rw w at apart) (rw w at small) real)))
        ]

    pub list_add-Added :
        Added A L s h nodes ps qs (values nodes ps ++ item ∷ []) (some (list_add A s h nodes item))
    unfolding list_add
    list_add-Added = elim (ℕ_discrete node null) [
      | yes e ↦ rw (eq→== node null e) (refused_lem _ e)
      | no real ↦
          let l' : IsList nodes h (ps ++ []) = rw (append-nil ps) l in
          subst (λ r. Added A L s h nodes ps qs (values nodes ps ++ item ∷ []) (some r))
            (sym (
              list_add-run ps l'
                (rw (append-nil ps) (
                  All-Absent node ps
                    (All-map _ _ ps (λ q u. L.fresh s sizeof_node q real u) in_use)))
                real))
            (added _ _ (ps ++ node ∷ []) real (
              spliced-Holding ps [] qs l' (rw (append-nil ps) in_use) others
                (rw (append-nil ps) apart) (rw (append-nil ps) small) real))
    ]
