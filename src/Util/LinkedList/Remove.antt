-- ===== src/Util/LinkedList/Remove.antt =====
-- lib/util/list.c: list_del at index 0, which the queues of the scheduler and the semaphores use.
use jonix.Base.{◌^◌, ◌<◌, ◌≡◌, refl, List, [], ◌∷◌, length, Ptr, null, arith, true, false, leb}
use jonix.Util.OArray.{pred32}
use jonix.Util.LinkedList.{Nodes, ListHead, Allocator, set_prev, list_del, olist_del}
use jonix.Util.LinkedList.Chain.{head_or, Seg, Absent, Distinct, values, Agree, store_node-Agree}
use jonix.Util.LinkedList.Rep.{IsLast, IsList, Disjoint, set_prev-Seg, set_prev-values}
use jonix.Util.LinkedList.Live.{IsAllocator, All}
use jonix.Util.LinkedList.Insert.{Holding}

-- The link back of what follows the node, NULL included.
cut-Seg :
    (nodes : Nodes) (a : Ptr) (ps : List Ptr)
    → Distinct ps
    → Seg nodes a ps null
    → Seg (set_prev (head_or ps null) null nodes) null ps null
cut-Seg nodes a [] d s = tt
cut-Seg nodes a (p ∷ ps) d s = set_prev-Seg nodes a p ps null null d s

cut-Agree :
    (nodes : Nodes) (ps qs : List Ptr)
    → Absent null qs
    → Disjoint ps qs
    → Agree nodes (set_prev (head_or ps null) null nodes) qs
cut-Agree nodes [] qs n d = store_node-Agree nodes null _ qs n
cut-Agree nodes (p ∷ ps) qs n d = store_node-Agree nodes p _ qs d.0

IsLast-tail : (p q : Ptr) (ps : List Ptr) → IsLast q (p ∷ ps) → IsLast q ps
IsLast-tail p q [] l = tt
IsLast-tail p q (r ∷ rs) l = l

All-Live-freed :
    (A : Allocator) (L : IsAllocator A) (s : A.State) (p : Ptr) (qs : List Ptr)
    → Absent p qs
    → L.Live s p
    → All (L.Live s) qs
    → All (L.Live (A.kfree s p)) qs
All-Live-freed A L s p [] a live u = tt
All-Live-freed A L s p (q ∷ qs) a live u =
    (L.freed s p q a.0 live u.0, All-Live-freed A L s p qs a.1 live u.1)

pub olist_del-empty :
    (A : Allocator) (s : A.State) (h : ListHead) (nodes : Nodes)
    → h.size ≡ 0
    → olist_del A s h nodes 0 ≡ (s, h, nodes, 0)
unfolding olist_del list_del
olist_del-empty A s h nodes e = rw (leb_of e) refl
  where
    leb_of : h.size ≡ 0 → leb h.size 0 ≡ true
    leb_of e = ground (arith, e)

abbrev pub del_head : ListHead → List Ptr → ListHead
del_head h ps = record h { first = head_or ps null; size = pred32 h.size }

module _ (A : Allocator) (L : IsAllocator A) (s : A.State) (h : ListHead) (nodes : Nodes) (p : Ptr)
    (ps : List Ptr) (l : IsList nodes h (p ∷ ps)) where
  pub list_del-run :
      list_del A s h nodes 0
      ≡ (A.kfree s p, del_head h ps, set_prev (head_or ps null) null nodes, (nodes p).value)
  unfolding list_del
  list_del-run =
      let there : leb h.size 0 ≡ false = ground (arith, l.size) in
      rw (there, l.first, l.links.1) refl

  pub olist_del-run :
      olist_del A s h nodes 0
      ≡ (A.kfree s p, del_head h ps, set_prev (head_or ps null) null nodes, (nodes p).value)
  unfolding olist_del
  olist_del-run = list_del-run

  -- The tail of the list is left, and the rest of the nodes, address 0 excepted.
  pub list_del-Holding :
      (qs : List Ptr)
      → All (L.Live s) (p ∷ ps)
      → All (L.Live s) qs
      → Disjoint (p ∷ ps) qs
      → Absent null qs
      → length (p ∷ ps) < 2 ^ 32
      → Holding A L
          (A.kfree s p)
          (del_head h ps)
          nodes
          (set_prev (head_or ps null) null nodes)
          ps
          qs
          (values nodes ps)
  list_del-Holding qs in_use others apart real small = record {
    list = record {
      first = refl;
      last = IsLast-tail p h.last ps l.last;
      links = cut-Seg nodes p ps l.distinct.1 l.links.2;
      distinct = l.distinct.1;
      present = l.present.1;
      size = omega (arith, l.size, small);
    };
    holds = set_prev-values nodes (head_or ps null) null ps;
    others = cut-Agree nodes ps qs real apart.1;
    apart = apart.1;
    in_use = All-Live-freed A L s p ps l.distinct.0 in_use.0 in_use.1;
    others_in_use = All-Live-freed A L s p qs apart.0 in_use.0 others;
  }

  -- list_del at index 0 of a list that is not empty returns the first value and leaves a well-
  -- formed list of the other values; other nodes, but the one at NULL, are as they were.
  pub list_del-first :
      (qs : List Ptr)
      → All (L.Live s) (p ∷ ps)
      → All (L.Live s) qs
      → Disjoint (p ∷ ps) qs
      → Absent null qs
      → length (p ∷ ps) < 2 ^ 32
      → ((list_del A s h nodes 0).3 ≡ (nodes p).value)
        × Holding A L
            (list_del A s h nodes 0).0
            (list_del A s h nodes 0).1
            nodes
            (list_del A s h nodes 0).2
            ps
            qs
            (values nodes ps)
  list_del-first qs in_use others apart real small =
      rw list_del-run (refl, list_del-Holding qs in_use others apart real small)
