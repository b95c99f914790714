-- ===== src/Threads/Switch.antt =====
-- lib/sched.c and lib/thr.c: the switch to the next thread.
use mathlib.Core.Path.{subst}
use jonix.Base.{◌^◌, ◌<◌, ◌≡◌, refl, sym, ap, ◌∙◌, List, [], ◌∷◌, length, Ptr, arith}
use jonix.Util.Sort.{Item}
use jonix.Util.LinkedList.{ListHead, Allocator}
use jonix.Util.LinkedList.Chain.{values, Agree-refl}
use jonix.Util.LinkedList.Live.{IsAllocator}
use jonix.Util.LinkedList.Remove.{olist_del-run, olist_del-empty}
use jonix.Util.LinkedList.Pair.{Pair, list_del-Pair}
use jonix.Threads.{Kernel, resched, resched_to}
use jonix.Threads.Spec.{Rep, Unmoved, set_kstack_ptr-order, rest_of, first_of}

-- The first of the ready threads runs and the others are ready still, beside some other list.
pub record Picked (A : Allocator) (L : IsAllocator A) (k k' : Kernel A) (h : ListHead)
    (qs os : List Ptr) (ready : List Item) : Type 0 where
  pub rs : List Ptr
  pub pair : Pair A L k'.heap k'.nodes k'.thr_ready rs h qs os
  pub holds : values k'.nodes rs ≡ rest_of ready
  pub kept : values k'.nodes qs ≡ values k.nodes qs
  pub current : k'.thr_current ≡ first_of ready
  pub sleep : k'.thr_sleep ≡ k.thr_sleep
  pub unmoved : Unmoved A k k' os

-- The same, beside the list of sleepers.
pub record Switched (A : Allocator) (L : IsAllocator A) (k k' : Kernel A) (ss os : List Ptr)
    (ready sleeping : List Item) : Type 0 where
  pub rs : List Ptr
  pub rep : Rep A L k' rs ss os (rest_of ready) sleeping
  pub current : k'.thr_current ≡ first_of ready
  pub unmoved : Unmoved A k k' os

module _ (A : Allocator) (L : IsAllocator A) (os : List Ptr) where
  -- resched takes the first of the ready threads; without one it takes NULL.
  pub resched-Picked :
      (k : Kernel A) (rs : List Ptr) (h : ListHead) (qs : List Ptr) (ready : List Item)
      (stack : Ptr)
      → Pair A L k.heap k.nodes k.thr_ready rs h qs os
      → values k.nodes rs ≡ ready
      → length rs < 2 ^ 32
      → Picked A L k (resched A k stack) h qs os ready
  unfolding resched
  resched-Picked k [] h qs [] stack p holds small =
      subst (λ d. Picked A L k (resched_to A k stack d) h qs os [])
        (sym (olist_del-empty A k.heap k.thr_ready k.nodes p.one.size))
        record {
          rs = [];
          pair = p;
          holds = refl;
          kept = refl;
          current = refl;
          sleep = refl;
          unmoved = record {
            order = set_kstack_ptr-order k.thr_current _ k.threads;
            entries = refl;
            ticks = refl;
            others = Agree-refl k.nodes os;
          };
        }
  resched-Picked k [] h qs (t ∷ ready) stack p holds small = absurd (omega (arith, ap length holds))
  resched-Picked k (q ∷ rs) h qs [] stack p holds small = absurd (omega (arith, ap length holds))
  resched-Picked k (q ∷ rs) h qs (t ∷ ready) stack p holds small =
      let m = list_del-Pair A L k.heap k.nodes k.thr_ready q rs h qs os p small in
      subst (λ d. Picked A L k (resched_to A k stack d) h qs os (t ∷ ready))
        (sym (olist_del-run A L k.heap k.thr_ready k.nodes q rs p.one))
        record {
          rs = rs;
          pair = m.pair;
          holds = m.holds ∙ ap rest_of holds;
          kept = m.kept;
          current = ap first_of holds;
          sleep = refl;
          unmoved = record {
            order = set_kstack_ptr-order k.thr_current _ k.threads;
            entries = refl;
            ticks = refl;
            others = m.others;
          };
        }

  pub resched-Switched :
      (k : Kernel A) (rs ss : List Ptr) (ready sleeping : List Item) (stack : Ptr)
      → Rep A L k rs ss os ready sleeping
      → length rs < 2 ^ 32
      → Switched A L k (resched A k stack) ss os ready sleeping
  resched-Switched k rs ss ready sleeping stack r small =
      let p = resched-Picked k rs k.thr_sleep ss ready stack r.pair r.ready_holds small in
      let k' : Kernel A = resched A k stack in
      record {
        rs = p.rs;
        rep = record {
          pair =
              subst (λ h. Pair A L k'.heap k'.nodes k'.thr_ready p.rs h ss os) (sym p.sleep) p.pair;
          ready_holds = p.holds;
          sleep_holds = p.kept ∙ r.sleep_holds;
        };
        current = p.current;
        unmoved = p.unmoved;
      }
