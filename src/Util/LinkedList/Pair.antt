-- ===== src/Util/LinkedList/Pair.antt =====
-- lib/util/list.c: two lists in one store of nodes, beside the nodes of other lists.
use jonix.Base.{
  ℕ, ◌+◌, ◌^◌, ◌<◌, ◌≡◌, List, [], ◌∷◌, ◌++◌, length, Ptr, null, Option, some, Bool, true, false,
}
use jonix.Util.Sort.{Item, Cmp}
use jonix.Util.OArray.View.{insert}
use jonix.Util.LinkedList.{Nodes, ListHead, Allocator, sizeof_node, list_add, olist_add, set_prev}
use jonix.Util.LinkedList.Chain.{
  Absent, Absent-append, Absent-split, values, values-Agree, Agree, Seg-Agree, head_or,
}
use jonix.Util.LinkedList.Rep.{IsList, Disjoint, Disjoint-sym}
use jonix.Util.LinkedList.Live.{IsAllocator, All, All-map, All-append, All-split}
use jonix.Util.LinkedList.Insert.{Holding, Added, refused, added, olist_add-Added, list_add-Added}
use jonix.Util.LinkedList.Remove.{del_head, list_del-Holding}

pub IsList-Agree :
    (n n' : Nodes) (h : ListHead) (ps : List Ptr) → Agree n n' ps → IsList n h ps → IsList n' h ps
IsList-Agree n n' h ps same l = record {
  first = l.first;
  last = l.last;
  links = Seg-Agree n n' null ps null same l.links;
  distinct = l.distinct;
  present = l.present;
  size = l.size;
}

pub Agree-split :
    (n n' : Nodes) (ps qs : List Ptr) → Agree n n' (ps ++ qs) → Agree n n' ps × Agree n n' qs
Agree-split n n' [] qs a = (tt, a)
Agree-split n n' (p ∷ ps) qs a = let (l, r) = Agree-split n n' ps qs a.1 in ((a.0, l), r)

Disjoint-right : (ps qs os : List Ptr) → Disjoint ps qs → Disjoint ps os → Disjoint ps (qs ++ os)
Disjoint-right [] qs os a b = tt
Disjoint-right (p ∷ ps) qs os a b = (Absent-append p qs os a.0 b.0, Disjoint-right ps qs os a.1 b.1)

Disjoint-unright : (ps qs os : List Ptr) → Disjoint ps (qs ++ os) → Disjoint ps qs × Disjoint ps os
Disjoint-unright [] qs os a = (tt, tt)
Disjoint-unright (p ∷ ps) qs os a =
    let (l, r) = Absent-split p qs os a.0 in
    let (l', r') = Disjoint-unright ps qs os a.1 in ((l, l'), (r, r'))

-- The lists `h1` and `h2` at the addresses `ps` and `qs`, apart from the addresses `os`.
pub record Pair (A : Allocator) (L : IsAllocator A) (s : A.State) (nodes : Nodes) (h1 : ListHead)
    (ps : List Ptr) (h2 : ListHead) (qs os : List Ptr) : Type 0 where
  pub one : IsList nodes h1 ps
  pub two : IsList nodes h2 qs
  pub apart : Disjoint ps qs
  pub one_others : Disjoint ps os
  pub two_others : Disjoint qs os
  pub one_live : All (L.Live s) ps
  pub two_live : All (L.Live s) qs
  pub others_live : All (L.Live s) os
  pub real : Absent null os

-- The first list has become one of the values `vs`; the second and the others are as they were.
pub record Moved (A : Allocator) (L : IsAllocator A) (s : A.State) (before nodes : Nodes)
    (h1 : ListHead) (ps : List Ptr) (h2 : ListHead) (qs os : List Ptr) (vs : List Item)
    : Type 0 where
  pub pair : Pair A L s nodes h1 ps h2 qs os
  pub holds : values nodes ps ≡ vs
  pub kept : values nodes qs ≡ values before qs
  pub others : Agree before nodes os

module _ (A : Allocator) (L : IsAllocator A) where
  pub Pair-swap :
      (s : A.State) (nodes : Nodes) (h1 : ListHead) (ps : List Ptr) (h2 : ListHead)
      (qs os : List Ptr)
      → Pair A L s nodes h1 ps h2 qs os
      → Pair A L s nodes h2 qs h1 ps os
  Pair-swap s nodes h1 ps h2 qs os p = record {
    one = p.two;
    two = p.one;
    apart = Disjoint-sym ps qs p.apart;
    one_others = p.two_others;
    two_others = p.one_others;
    one_live = p.two_live;
    two_live = p.one_live;
    others_live = p.others_live;
    real = p.real;
  }

  pub Pair-kmalloc :
      (s : A.State) (n : ℕ) (nodes : Nodes) (h1 : ListHead) (ps : List Ptr) (h2 : ListHead)
      (qs os : List Ptr)
      → Pair A L s nodes h1 ps h2 qs os
      → Pair A L (A.kmalloc s n).0 nodes h1 ps h2 qs os
  Pair-kmalloc s n nodes h1 ps h2 qs os p = record {
    one = p.one;
    two = p.two;
    apart = p.apart;
    one_others = p.one_others;
    two_others = p.two_others;
    one_live = All-map _ _ ps (L.kept s n) p.one_live;
    two_live = All-map _ _ qs (L.kept s n) p.two_live;
    others_live = All-map _ _ os (L.kept s n) p.others_live;
    real = p.real;
  }

  Holding-Moved :
      (s s' : A.State) (nodes nodes' : Nodes) (h1 h1' : ListHead) (ps ps' : List Ptr)
      (h2 : ListHead) (qs os : List Ptr) (vs : List Item)
      → Pair A L s nodes h1 ps h2 qs os
      → Holding A L s' h1' nodes nodes' ps' (qs ++ os) vs
      → Moved A L s' nodes nodes' h1' ps' h2 qs os vs
  Holding-Moved s s' nodes nodes' h1 h1' ps ps' h2 qs os vs p h =
      let (same, same_os) = Agree-split nodes nodes' qs os h.others in
      let (apart, apart_os) = Disjoint-unright ps' qs os h.apart in
      let (live, live_os) = All-split _ qs os h.others_in_use in
      record {
        pair = record {
          one = h.list;
          two = IsList-Agree nodes nodes' h2 qs same p.two;
          apart = apart;
          one_others = apart_os;
          two_others = p.two_others;
          one_live = h.in_use;
          two_live = live;
          others_live = live_os;
          real = p.real;
        };
        holds = h.holds;
        kept = values-Agree nodes nodes' qs same;
        others = same_os;
      }

-- The ends of an addition to the first list of a pair.
pub data PairAdded (A : Allocator) (L : IsAllocator A) (s : A.State) (nodes : Nodes) (h1 : ListHead)
    (ps : List Ptr) (h2 : ListHead) (qs os : List Ptr) (vs : List Item)
    : Option (A.State × ListHead × Nodes × Bool) → Type 0 where
  full :
      (s' : A.State)
      → (A.kmalloc s sizeof_node).1 ≡ null
      → Pair A L s' nodes h1 ps h2 qs os
      → PairAdded A L s nodes h1 ps h2 qs os vs (some (s', h1, nodes, false))
  put :
      (s' : A.State) (h' : ListHead) (nodes' : Nodes) (ps' : List Ptr)
      → Moved A L s' nodes nodes' h' ps' h2 qs os vs
      → PairAdded A L s nodes h1 ps h2 qs os vs (some (s', h', nodes', true))

module _ (A : Allocator) (L : IsAllocator A) (s : A.State) (nodes : Nodes) (h1 : ListHead)
    (ps : List Ptr) (h2 : ListHead) (qs os : List Ptr) (p : Pair A L s nodes h1 ps h2 qs os) where
  Added-PairAdded :
      (vs : List Item) (r : Option (A.State × ListHead × Nodes × Bool))
      → Added A L s h1 nodes ps (qs ++ os) vs r
      → PairAdded A L s nodes h1 ps h2 qs os vs r
  Added-PairAdded vs _ (refused e u v) =
      let (live, live_os) = All-split _ qs os v in
      full _ e record {
        one = p.one;
        two = p.two;
        apart = p.apart;
        one_others = p.one_others;
        two_others = p.two_others;
        one_live = u;
        two_live = live;
        others_live = live_os;
        real = p.real;
      }
  Added-PairAdded vs _ (added h' nodes' ps' ne h) =
      put _ h' nodes' ps' (Holding-Moved A L s _ nodes nodes' h1 h' ps ps' h2 qs os vs p h)

  pub olist_add-Pair :
      (fuel : ℕ) (cmp : Cmp) (item : Item)
      → length ps < fuel
      → length ps + 1 < 2 ^ 32
      → PairAdded A L s nodes h1 ps h2 qs os
          (insert cmp item (values nodes ps))
          (olist_add A fuel cmp s h1 nodes item)
  olist_add-Pair fuel cmp item enough small = Added-PairAdded _ _ (
      olist_add-Added A L s h1 nodes item ps (qs ++ os) p.one p.one_live
        (All-append _ qs os p.two_live p.others_live) (Disjoint-right ps qs os p.apart p.one_others)
        small fuel cmp enough)

  pub list_add-Pair :
      (item : Item)
      → length ps + 1 < 2 ^ 32
      → PairAdded A L s nodes h1 ps h2 qs os
          (values nodes ps ++ item ∷ [])
          (some (list_add A s h1 nodes item))
  list_add-Pair item small = Added-PairAdded _ _ (
      list_add-Added A L s h1 nodes item ps (qs ++ os) p.one p.one_live
        (All-append _ qs os p.two_live p.others_live) (Disjoint-right ps qs os p.apart p.one_others)
        small)

-- The first node of the first list of a pair goes.
pub list_del-Pair :
    (A : Allocator) (L : IsAllocator A) (s : A.State) (nodes : Nodes) (h1 : ListHead) (p : Ptr)
    (ps : List Ptr) (h2 : ListHead) (qs os : List Ptr)
    → (pair : Pair A L s nodes h1 (p ∷ ps) h2 qs os) → length (p ∷ ps) < 2 ^ 32
    → Moved A L
        (A.kfree s p)
        nodes
        (set_prev (head_or ps null) null nodes)
        (del_head h1 ps)
        ps
        h2
        qs
        os
        (values nodes ps)
list_del-Pair A L s nodes h1 p ps h2 qs os pair small =
    Holding-Moved A L s _ nodes _ h1 _ (p ∷ ps) ps h2 qs os _ pair (
      list_del-Holding A L s h1 nodes p ps pair.one (qs ++ os) pair.one_live
        (All-append _ qs os pair.two_live pair.others_live)
        (Disjoint-right (p ∷ ps) qs os pair.apart pair.one_others)
        (Absent-append null qs os pair.two.present pair.real) small)
