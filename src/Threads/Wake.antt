-- ===== src/Threads/Wake.antt =====
-- lib/time.c and lib/sched.c: the loop that wakes sleepers, and the choice of the next thread.
use mathlib.Core.Path.{subst}
use jonix.Base.{
  ℕ, zero, suc, ◌+◌, ◌^◌, ◌<◌, ◌≡◌, refl, sym, ap, ◌∙◌, List, [], ◌∷◌, length, Bool, true, false,
  Ptr, null, ne→==, ◌==◌, leb, Bool-cases, inl, inr, Option, some, arith,
}
use jonix.Heap.{Outcome, done, panic}
use jonix.Util.Sort.{Item}
use jonix.Util.OArray.View.{insert}
use jonix.Util.LinkedList.{Nodes, ListHead, Allocator, sizeof_node, set_prev, olist_add}
use jonix.Util.LinkedList.Chain.{head_or, values, Agree-refl}
use jonix.Util.LinkedList.Live.{IsAllocator}
use jonix.Util.LinkedList.Remove.{del_head, olist_del-run}
use jonix.Util.LinkedList.Pair.{Pair-swap, PairAdded, full, put, olist_add-Pair, list_del-Pair}
use jonix.Threads.{
  Kernel, thread_cmp_priority, set_state, state_ready, ready_add, ready_added, is_due, wake_one,
  wake, wake_entry, or_panic, and_then,
}
use jonix.Threads.Spec.{
  Rep, Unmoved, Unmoved-trans, set_state-order, length-values, length-insert, rest_of, first_of,
  woken, asleep,
}

module _ (A : Allocator) (L : IsAllocator A) (os : List Ptr) where
  -- The ends of ready_add.
  pub data ReadyEnd (k : Kernel A) (ss : List Ptr) (n : ℕ) (more ready sleeping : List Item)
      : Option (Kernel A × Bool) → Type 0 where
    left_out :
        (k' : Kernel A) (rs : List Ptr)
        → (A.kmalloc k.heap sizeof_node).1 ≡ null
        → Rep A L k' rs ss os ready sleeping
        → length rs ≡ n
        → Unmoved A k k' os
        → k'.thr_current ≡ k.thr_current
        → ReadyEnd k ss n more ready sleeping (some (k', false))
    joined :
        (k' : Kernel A) (rs : List Ptr)
        → Rep A L k' rs ss os more sleeping
        → length rs ≡ suc n
        → Unmoved A k k' os
        → k'.thr_current ≡ k.thr_current
        → ReadyEnd k ss n more ready sleeping (some (k', true))

  pub ready_add-ReadyEnd :
      (fuel : ℕ) (k : Kernel A) (rs ss : List Ptr) (ready sleeping : List Item) (thread : Ptr)
      → Rep A L k rs ss os ready sleeping
      → length rs < fuel
      → length rs + 1 < 2 ^ 32
      → ReadyEnd k ss
          (length rs)
          (insert (thread_cmp_priority k.threads) thread ready)
          ready
          sleeping
          (ready_add A fuel k thread)
  ready_add-ReadyEnd fuel k rs ss ready sleeping thread r enough small =
      go (olist_add A fuel (thread_cmp_priority k.threads) k.heap k.thr_ready k.nodes thread) (
        olist_add-Pair A L k.heap k.nodes k.thr_ready rs k.thr_sleep ss os r.pair fuel
          (thread_cmp_priority k.threads) thread enough small)
    where
      go :
          (o : Option (A.State × ListHead × Nodes × Bool))
          → PairAdded A L k.heap k.nodes k.thr_ready rs k.thr_sleep ss os
              (insert (thread_cmp_priority k.threads) thread (values k.nodes rs))
              o
          → ReadyEnd k ss
              (length rs)
              (insert (thread_cmp_priority k.threads) thread ready)
              ready
              sleeping
              (ready_added A k o)
      go _ (full s' e p) =
          left_out _ rs e
            record { pair = p; ready_holds = r.ready_holds; sleep_holds = r.sleep_holds } refl
            record { order = refl; entries = refl; ticks = refl; others = Agree-refl k.nodes os }
            refl
      go _ (put s' h' nodes' ps' m) =
          joined _ ps'
            record {
              pair = m.pair;
              ready_holds =
                  m.holds ∙ ap (insert (thread_cmp_priority k.threads) thread) r.ready_holds;
              sleep_holds = m.kept ∙ r.sleep_holds;
            }
            (sym (length-values nodes' ps')
              ∙ ap length m.holds
              ∙ length-insert (thread_cmp_priority k.threads) thread (values k.nodes rs)
              ∙ ap suc (length-values k.nodes rs))
            record { order = refl; entries = refl; ticks = refl; others = m.others } refl

  -- The state after the first sleeper has been taken off the list and marked as ready.
  abbrev taken : Kernel A → Ptr → List Ptr → Item → Kernel A
  taken k p ss e = record k {
    heap = A.kfree k.heap p;
    thr_sleep = del_head k.thr_sleep ss;
    nodes = set_prev (head_or ss null) null k.nodes;
    threads = set_state (k.entries e).thread state_ready k.threads;
  }

  module _ (k : Kernel A) (rs : List Ptr) (p : Ptr) (ss : List Ptr) (ready : List Item) (e : Item)
      (sleeping : List Item) (r : Rep A L k rs (p ∷ ss) os ready (e ∷ sleeping)) where
    taken-Rep : length (p ∷ ss) < 2 ^ 32 → Rep A L (taken k p ss e) rs ss os ready sleeping
    taken-Rep small =
        let m =
          list_del-Pair A L k.heap k.nodes k.thr_sleep p ss k.thr_ready rs os
            (Pair-swap A L k.heap k.nodes k.thr_ready rs k.thr_sleep (p ∷ ss) os r.pair) small in
        record {
          pair =
              Pair-swap A L (A.kfree k.heap p) (set_prev (head_or ss null) null k.nodes)
                (del_head k.thr_sleep ss) ss k.thr_ready rs os m.pair;
          ready_holds = m.kept ∙ r.ready_holds;
          sleep_holds = m.holds ∙ ap rest_of r.sleep_holds;
        }

    taken-Unmoved : length (p ∷ ss) < 2 ^ 32 → Unmoved A k (taken k p ss e) os
    taken-Unmoved small =
        let m =
          list_del-Pair A L k.heap k.nodes k.thr_sleep p ss k.thr_ready rs os
            (Pair-swap A L k.heap k.nodes k.thr_ready rs k.thr_sleep (p ∷ ss) os r.pair) small in
        record {
          order = set_state-order (k.entries e).thread state_ready k.threads;
          entries = refl;
          ticks = refl;
          others = m.others;
        }

    wake_one-run :
        (fuel : ℕ)
        → wake_one A fuel k ≡ or_panic A (ready_add A fuel (taken k p ss e) (k.entries e).thread)
    unfolding wake_one
    wake_one-run fuel =
        ap (wake_entry A fuel k) (olist_del-run A L k.heap k.thr_sleep k.nodes p ss r.pair.two)
        ∙ ap (λ v. or_panic A (ready_add A fuel (taken k p ss v) (k.entries v).thread))
            (ap first_of r.sleep_holds)

    is_due-run : is_due A k ≡ leb (k.entries e).time k.time_ticks
    is_due-run =
        let value : (k.nodes p).value ≡ e = ap first_of r.sleep_holds in
        let real : (p == null) ≡ false = ne→== p null (λ h. r.pair.two.present.0 (sym h)) in
        rw (r.pair.two.first, real, value) refl

  -- The ends of the loop: it panics only if there is no memory, and else the due sleepers are ready.
  pub data WakeEnd (k : Kernel A) (ready sleeping : List Item) : Outcome (Kernel A) → Type 0 where
    starved : (s : A.State) → (A.kmalloc s sizeof_node).1 ≡ null → WakeEnd k ready sleeping panic
    awake :
        (k' : Kernel A) (rs ss : List Ptr)
        → Rep A L k' rs ss os
            (woken (thread_cmp_priority k.threads) k.entries k.time_ticks ready sleeping)
            (asleep k.entries k.time_ticks sleeping)
        → Unmoved A k k' os
        → k'.thr_current ≡ k.thr_current
        → WakeEnd k ready sleeping (done k')

  is_due-empty : (k : Kernel A) → k.thr_sleep.first ≡ null → is_due A k ≡ false
  is_due-empty k e = rw e refl

  -- A step of the loop before the rest of it.
  later-WakeEnd :
      (k k' : Kernel A) (ready sleeping : List Item) (e : Item) (o : Outcome (Kernel A))
      → leb (k.entries e).time k.time_ticks ≡ true
      → Unmoved A k k' os
      → k'.thr_current ≡ k.thr_current
      → WakeEnd k' (insert (thread_cmp_priority k.threads) (k.entries e).thread ready) sleeping o
      → WakeEnd k ready (e ∷ sleeping) o
  unfolding woken asleep
  later-WakeEnd k k' ready sleeping e _ due u c (starved s none_left) = starved s none_left
  later-WakeEnd k k' ready sleeping e _ due u c (awake k'' rs ss r u' c') =
      awake k'' rs ss (rw due (rw (u.order, u.entries, u.ticks) at r))
        (Unmoved-trans A k k' k'' os u u') (c' ∙ c)

  wake_step :
      (fuel rounds n : ℕ) (k t : Kernel A) (ss : List Ptr) (ready sleeping : List Item) (e : Item)
      (o : Option (Kernel A × Bool))
      → leb (k.entries e).time k.time_ticks ≡ true
      → Unmoved A k t os
      → t.thr_current ≡ k.thr_current
      → ReadyEnd t ss n
          (insert (thread_cmp_priority k.threads) (k.entries e).thread ready)
          ready
          sleeping
          o
      → ((k' : Kernel A) (rs : List Ptr)
          → length rs ≡ suc n
          → Rep A L k' rs ss os
              (insert (thread_cmp_priority k.threads) (k.entries e).thread ready)
              sleeping
          → WakeEnd k'
              (insert (thread_cmp_priority k.threads) (k.entries e).thread ready)
              sleeping
              (wake A fuel rounds k'))
      → WakeEnd k ready (e ∷ sleeping) (and_then (or_panic A o) (wake A fuel rounds))
  wake_step fuel rounds n k t ss ready sleeping e _ due u c (left_out k' rs none_left r len u' c')
        rest =
      starved t.heap none_left
  wake_step fuel rounds n k t ss ready sleeping e _ due u c (joined k' rs r len u' c') rest =
      later-WakeEnd k k' ready sleeping e _ due (Unmoved-trans A k t k' os u u') (c' ∙ c)
        (rest k' rs len r)

  pub wake-WakeEnd :
      (fuel rounds : ℕ) (k : Kernel A) (rs ss : List Ptr) (ready sleeping : List Item)
      → Rep A L k rs ss os ready sleeping
      → length ss < rounds
      → length rs + length ss < fuel
      → length rs + length ss + 1 < 2 ^ 32
      → WakeEnd k ready sleeping (wake A fuel rounds k)
  unfolding wake woken asleep
  wake-WakeEnd fuel zero k rs ss ready sleeping r lt enough small = absurd (omega (arith, lt))
  wake-WakeEnd fuel (suc rounds) k rs [] ready [] r lt enough small =
      let idle : is_due A k ≡ false = is_due-empty k r.pair.two.first in
      rw (idle, wake)
        (awake k rs [] r
          record { order = refl; entries = refl; ticks = refl; others = Agree-refl k.nodes os }
          refl)
  wake-WakeEnd fuel (suc rounds) k rs [] ready (e ∷ sleeping) r lt enough small =
      absurd (omega (arith, ap length r.sleep_holds))
  wake-WakeEnd fuel (suc rounds) k rs (p ∷ ss) ready [] r lt enough small =
      absurd (omega (arith, ap length r.sleep_holds))
  wake-WakeEnd fuel (suc rounds) k rs (p ∷ ss) ready (e ∷ sleeping) r lt enough small =
      elim (Bool-cases (leb (k.entries e).time k.time_ticks)) [
        | inl due ↦
            let t = taken k p ss e in
            let room : length (p ∷ ss) < 2 ^ 32 = omega (arith, small) in
            let r' = taken-Rep k rs p ss ready e sleeping r room in
            let u = taken-Unmoved k rs p ss ready e sleeping r room in
            rw
              (
                is_due-run k rs p ss ready e sleeping r,
                due,
                wake_one-run k rs p ss ready e sleeping r fuel,
                wake,
              )
              (wake_step fuel rounds (length rs) k t ss ready sleeping e _ due u refl
                (subst
                  (λ c.
                    ReadyEnd t ss (length rs) (insert c (k.entries e).thread ready) ready sleeping
                      (ready_add A fuel t (k.entries e).thread))
                  u.order
                  (ready_add-ReadyEnd fuel t rs ss ready sleeping (k.entries e).thread r'
                    (omega (arith, enough)) (omega (arith, small))))
                (λ k' rs' len r''.
                  wake-WakeEnd fuel rounds k' rs' ss _ sleeping r'' (omega (arith, lt))
                    (omega (arith, enough, len)) (omega (arith, small, len))))
        | inr early ↦
            rw (is_due-run k rs p ss ready e sleeping r, early, wake)
              (awake k rs (p ∷ ss) (rw early r)
                record {
                  order = refl;
                  entries = refl;
                  ticks = refl;
                  others = Agree-refl k.nodes os;
                }
                refl)
      ]
