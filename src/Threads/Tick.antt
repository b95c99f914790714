-- ===== src/Threads/Tick.antt =====
-- lib/time.c and lib/sched.c: the switch to the next thread, and the timer interrupt.
use mathlib.Core.Path.{subst}
use jonix.Base.{
  ℕ, ◌+◌, ◌^◌, ◌<◌, ◌%◌, ◌≡◌, refl, ap, ◌∙◌, List, length, Bool, Ptr, null, Option, arith, ◌⊎◌, inl,
  inr,
}
use jonix.Heap.{Outcome, done, panic}
use jonix.Util.Sort.{Item}
use jonix.Util.OArray.View.{insert}
use jonix.Util.LinkedList.{Allocator, sizeof_node}
use jonix.Util.LinkedList.Chain.{Agree, Agree-trans}
use jonix.Util.LinkedList.Live.{IsAllocator}
use jonix.Threads.{
  Kernel, thread_cmp_priority, set_state, state_ready, ready_add, and_then, resched, tick_from,
  time_irq_handler,
}
use jonix.Threads.Switch.{resched-Switched}
use jonix.Threads.Spec.{
  Rep, set_state-order, rest_of, first_of, woken, asleep, length-values, length-insert,
  length-woken,
}
use jonix.Threads.Wake.{
  ReadyEnd, left_out, joined, ready_add-ReadyEnd, WakeEnd, starved, awake, wake-WakeEnd,
}

abbrev pub next_tick : ℕ → ℕ
next_tick ticks = (ticks + 1) % 2 ^ 32

-- The ready threads before the sleepers wake: the current one is among them if there was memory.
abbrev pub IsQueue : (A : Allocator) → Kernel A → List Item → List Item → Type 0
IsQueue A k ready queue =
    (queue ≡ insert (thread_cmp_priority k.threads) k.thr_current ready)
    ⊎ ((queue ≡ ready) × ((A.kmalloc k.heap sizeof_node).1 ≡ null))

module _ (A : Allocator) (L : IsAllocator A) (os : List Ptr) where
  -- The state after a tick, with this queue before the sleepers wake.
  pub record Ticked (k k' : Kernel A) (ready sleeping queue : List Item) : Type 0 where
    pub rs : List Ptr
    pub ss : List Ptr
    pub rep :
        Rep A L k' rs ss os
          (rest_of (
            woken
              (thread_cmp_priority k.threads)
              k.entries
              (next_tick k.time_ticks)
              queue
              sleeping))
          (asleep k.entries (next_tick k.time_ticks) sleeping)
    pub current :
        k'.thr_current
        ≡ first_of (
            woken (thread_cmp_priority k.threads) k.entries (next_tick k.time_ticks) queue sleeping)
    pub ticks : k'.time_ticks ≡ next_tick k.time_ticks
    pub order : thread_cmp_priority k'.threads ≡ thread_cmp_priority k.threads
    pub entries : k'.entries ≡ k.entries
    pub others : Agree k.nodes k'.nodes os

  pub data TickEnd (k : Kernel A) (ready sleeping : List Item) : Outcome (Kernel A) → Type 0 where
    no_memory : (s : A.State) → (A.kmalloc s sizeof_node).1 ≡ null → TickEnd k ready sleeping panic
    ticked :
        (k' : Kernel A) (queue : List Item)
        → IsQueue A k ready queue
        → Ticked k k' ready sleeping queue
        → TickEnd k ready sleeping (done k')

  -- The state in which the first olist_add runs.
  abbrev counted : Kernel A → Kernel A
  counted k = record k {
    time_ticks = next_tick k.time_ticks;
    threads = set_state k.thr_current state_ready k.threads;
  }

  wake_end :
      (k k1 : Kernel A) (ready sleeping queue : List Item) (stack : Ptr) (o : Outcome (Kernel A))
      → IsQueue A k ready queue
      → length queue + length sleeping < 2 ^ 32
      → k1.time_ticks ≡ next_tick k.time_ticks
      → thread_cmp_priority k1.threads ≡ thread_cmp_priority k.threads
      → k1.entries ≡ k.entries
      → Agree k.nodes k1.nodes os
      → WakeEnd A L os k1 queue sleeping o
      → TickEnd k ready sleeping (and_then o (λ k'. done (resched A k' stack)))
  wake_end k k1 ready sleeping queue stack _ q small ticks order entries others (starved s e) =
      no_memory s e
  wake_end k k1 ready sleeping queue stack _ q small ticks order entries others
        (awake k2 rs ss r u c) =
      let after : List Item =
        woken (thread_cmp_priority k.threads) k.entries (next_tick k.time_ticks) queue sleeping in
      let r' : Rep A L k2 rs ss os after (asleep k.entries (next_tick k.time_ticks) sleeping) =
        rw (order, entries, ticks) at r in
      let few : length rs < 2 ^ 32 = omega (
        arith,
        small,
        length-values k2.nodes rs,
        ap length r'.ready_holds,
        length-woken (thread_cmp_priority k.threads) k.entries (next_tick k.time_ticks) queue
            sleeping,
      ) in
      let s = resched-Switched A L os k2 rs ss after _ stack r' few in
      ticked _ queue q record {
        rs = s.rs;
        ss = ss;
        rep = s.rep;
        current = s.current;
        ticks = s.unmoved.ticks ∙ u.ticks ∙ ticks;
        order = s.unmoved.order ∙ u.order ∙ order;
        entries = s.unmoved.entries ∙ u.entries ∙ entries;
        others =
            Agree-trans k.nodes k2.nodes _ os
              (Agree-trans k.nodes k1.nodes k2.nodes os others u.others) s.unmoved.others;
      }

  module _ (fuel rounds : ℕ) (k : Kernel A) (rs ss : List Ptr) (ready sleeping : List Item)
      (stack : Ptr) (r : Rep A L k rs ss os ready sleeping) (all_rounds : length ss < rounds)
      (enough : length rs + length ss + 1 < fuel) (small : length rs + length ss + 2 < 2 ^ 32) where
    tick_end :
        (o : Option (Kernel A × Bool))
        → ReadyEnd A L os
            (counted k)
            ss
            (length rs)
            (insert (thread_cmp_priority k.threads) k.thr_current ready)
            ready
            sleeping
            o
        → TickEnd k ready sleeping (tick_from A fuel rounds stack o)
    tick_end _ (left_out k1 rs1 e r1 len u c) =
        wake_end k k1 ready sleeping ready stack _ (inr (refl, e))
          (omega (
            arith,
            small,
            ap length r.ready_holds,
            ap length r.sleep_holds,
            length-values k.nodes rs,
            length-values k.nodes ss,
          ))
          u.ticks (u.order ∙ set_state-order k.thr_current state_ready k.threads) u.entries u.others
          (wake-WakeEnd A L os fuel rounds k1 rs1 ss ready sleeping r1 all_rounds
            (omega (arith, len, enough)) (omega (arith, len, small)))
    tick_end _ (joined k1 rs1 r1 len u c) =
        wake_end k k1 ready sleeping (insert (thread_cmp_priority k.threads) k.thr_current ready)
          stack _ (inl refl)
          (omega (
            arith,
            small,
            ap length r.ready_holds,
            ap length r.sleep_holds,
            length-values k.nodes rs,
            length-values k.nodes ss,
            length-insert (thread_cmp_priority k.threads) k.thr_current ready,
          ))
          u.ticks (u.order ∙ set_state-order k.thr_current state_ready k.threads) u.entries u.others
          (wake-WakeEnd A L os fuel rounds k1 rs1 ss _ sleeping r1 all_rounds
            (omega (arith, len, enough)) (omega (arith, len, small)))

    -- The timer interrupt, with as many rounds as there are sleepers and enough fuel, implements
    -- the tick of the abstract scheduler: the current thread joins the ready ones (or is left out
    -- when there is no memory for a node), the sleepers whose time has come join them in the order
    -- of their times, and the first thread runs. It panics only without memory.
    pub time_irq_handler-tick : TickEnd k ready sleeping (time_irq_handler A fuel rounds k stack)
    unfolding time_irq_handler
    time_irq_handler-tick =
        let same = set_state-order k.thr_current state_ready k.threads in
        tick_end _ (
          subst
            (λ c.
              ReadyEnd A L os (counted k) ss (length rs) (insert c k.thr_current ready) ready
                sleeping (ready_add A fuel (counted k) k.thr_current))
            same
            (ready_add-ReadyEnd A L os fuel (counted k) rs ss ready sleeping k.thr_current
              record { pair = r.pair; ready_holds = r.ready_holds; sleep_holds = r.sleep_holds }
              (omega (arith, enough)) (omega (arith, small))))
