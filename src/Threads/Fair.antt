-- ===== src/Threads/Fair.antt =====
-- lib/time.c: what a tick means for the threads. None is lost, the next one has the highest priority,
-- and none sleeps beyond its time.
use mathlib.Core.List.{Perm, perm_middle}
use mathlib.Core.List.Perm
use jonix.Base.{
  ℕ, ◌+◌, ◌^◌, ◌<◌, ◌≢◌, ap, List, [], ◌∷◌, ◌++◌, length, Ptr, null, leb, arith, inl, inr,
  Bool-cases,
}
use jonix.Heap.{Outcome, done, panic, out_of_fuel}
use jonix.Util.Sort.{Item, Cmp, IsOrder, cmp_member_down, cmp_member_le}
use jonix.Util.OArray.View.{insert, insert-perm, insert-IsSorted, IsSorted, Before}
use jonix.Util.LinkedList.{Allocator, sizeof_node}
use jonix.Util.LinkedList.Live.{IsAllocator, All}
use jonix.Threads.{SleepEntry, Kernel, thread_cmp_priority, sleep_entry_cmp_time, time_irq_handler}
use jonix.Threads.Spec.{Rep, rest_of, first_of, woken, asleep, length-insert, woken-length}
use jonix.Threads.Tick.{TickEnd, no_memory, ticked, next_tick, time_irq_handler-tick}

abbrev pub sleepers : (Ptr → SleepEntry) → List Item → List Item
sleepers entries [] = []
sleepers entries (e ∷ es) = (entries e).thread ∷ sleepers entries es

-- Waking moves threads.
woken-perm :
    (cmp : Cmp) (entries : Ptr → SleepEntry) (ticks : ℕ) (queue sleeping : List Item)
    → Perm
        (woken cmp entries ticks queue sleeping ++ sleepers entries (asleep entries ticks sleeping))
        (queue ++ sleepers entries sleeping)
unfolding woken asleep
woken-perm cmp entries ticks queue [] = Perm.refl _
woken-perm cmp entries ticks queue (e ∷ es) = elim (Bool-cases (leb (entries e).time ticks)) [
  | inl due ↦
      let t = (entries e).thread in
      rw due (
        Perm.trans (woken-perm cmp entries ticks (insert cmp t queue) es) (
          Perm.trans (Perm.append_right (sleepers entries es) (insert-perm cmp t queue))
            (Perm.symm (perm_middle queue (sleepers entries es)))))
  | inr early ↦ rw early (Perm.refl _)
]

woken-IsSorted :
    (cmp : Cmp) (entries : Ptr → SleepEntry) (ticks : ℕ) (queue sleeping : List Item)
    → IsOrder cmp
    → IsSorted cmp queue
    → IsSorted cmp (woken cmp entries ticks queue sleeping)
unfolding woken
woken-IsSorted cmp entries ticks queue [] o s = s
woken-IsSorted cmp entries ticks queue (e ∷ es) o s =
    elim (Bool-cases (leb (entries e).time ticks)) [
      | inl due ↦
          let t = (entries e).thread in
          rw due (
            woken-IsSorted cmp entries ticks (insert cmp t queue) es o
              (insert-IsSorted cmp o t queue s))
      | inr early ↦ rw early s
    ]

abbrev pub IsEarly : (Ptr → SleepEntry) → ℕ → Item → Type 0
IsEarly entries ticks e = ticks < (entries e).time

later-IsEarly :
    (entries : Ptr → SleepEntry) (ticks : ℕ) (e : Item) (es : List Item)
    → ticks < (entries e).time
    → Before (sleep_entry_cmp_time entries) e es
    → All (IsEarly entries ticks) es
later-IsEarly entries ticks e [] early b = tt
later-IsEarly entries ticks e (x ∷ xs) early b = (
  ground (arith, early, b.0, cmp_member_le (λ e. (entries e).time) e x),
  later-IsEarly entries ticks e xs early b.1,
)

asleep-IsEarly :
    (entries : Ptr → SleepEntry) (ticks : ℕ) (sleeping : List Item)
    → IsSorted (sleep_entry_cmp_time entries) sleeping
    → All (IsEarly entries ticks) (asleep entries ticks sleeping)
unfolding asleep
asleep-IsEarly entries ticks [] s = tt
asleep-IsEarly entries ticks (e ∷ es) s = elim (Bool-cases (leb (entries e).time ticks)) [
  | inl due ↦ rw due (asleep-IsEarly entries ticks es s.1)
  | inr early ↦
      let early' : ticks < (entries e).time = ground (arith, early) in
      rw early (early', later-IsEarly entries ticks e es early' s.0)
]

asleep-IsSorted :
    (entries : Ptr → SleepEntry) (ticks : ℕ) (sleeping : List Item)
    → IsSorted (sleep_entry_cmp_time entries) sleeping
    → IsSorted (sleep_entry_cmp_time entries) (asleep entries ticks sleeping)
unfolding asleep
asleep-IsSorted entries ticks [] s = tt
asleep-IsSorted entries ticks (e ∷ es) s = elim (Bool-cases (leb (entries e).time ticks)) [
  | inl due ↦ rw due (asleep-IsSorted entries ticks es s.1)
  | inr early ↦ rw early s
]

-- A property of the result of a run that does not panic; running out of fuel is not allowed.
abbrev pub OnDone : {A : Allocator} → (Kernel A → Type 0) → Outcome (Kernel A) → Type 0
OnDone P (done k) = P k
OnDone P panic = Unit {0}
OnDone P out_of_fuel = ⊥

-- The threads of the kernel after a run are those before it, in another order.
pub record Kept (A : Allocator) (L : IsAllocator A) (k' : Kernel A) (os : List Ptr)
    (before : List Item) : Type 0 where
  pub rs : List Ptr
  pub ss : List Ptr
  pub ready : List Item
  pub sleeping : List Item
  pub rep : Rep A L k' rs ss os ready sleeping
  pub perm : Perm (k'.thr_current ∷ ready ++ sleepers k'.entries sleeping) before

-- The thread that runs comes before the ready ones, which are in order, and no sleeper is due.
pub record Chosen (A : Allocator) (L : IsAllocator A) (k' : Kernel A) (os : List Ptr) : Type 0 where
  pub rs : List Ptr
  pub ss : List Ptr
  pub ready : List Item
  pub sleeping : List Item
  pub rep : Rep A L k' rs ss os ready sleeping
  pub highest : Before (thread_cmp_priority k'.threads) k'.thr_current ready
  pub ordered : IsSorted (thread_cmp_priority k'.threads) ready
  pub by_time : IsSorted (sleep_entry_cmp_time k'.entries) sleeping
  pub early : All (IsEarly k'.entries k'.time_ticks) sleeping

first_rest :
    (cmp : Cmp) (queue : List Item)
    → IsSorted cmp queue
    → Before cmp (first_of queue) (rest_of queue) × IsSorted cmp (rest_of queue)
first_rest cmp [] s = (tt, tt)
first_rest cmp (x ∷ xs) s = s

first_rest-perm :
    (xs ys : List Item) → 0 < length xs → Perm (first_of xs ∷ rest_of xs ++ ys) (xs ++ ys)
first_rest-perm [] ys lt = absurd (omega (arith, lt))
first_rest-perm (x ∷ xs) ys lt = Perm.refl _

module _ (A : Allocator) (L : IsAllocator A) (os : List Ptr) (fuel rounds : ℕ) (k : Kernel A)
    (rs ss : List Ptr) (ready sleeping : List Item) (stack : Ptr)
    (r : Rep A L k rs ss os ready sleeping) (all_rounds : length ss < rounds)
    (enough : length rs + length ss + 1 < fuel) (small : length rs + length ss + 2 < 2 ^ 32) where
  keeps-OnDone :
      (A.kmalloc k.heap sizeof_node).1 ≢ null
      → (o : Outcome (Kernel A)) → TickEnd A L os k ready sleeping o
      → OnDone (λ k'. Kept A L k' os (k.thr_current ∷ ready ++ sleepers k.entries sleeping)) o
  keeps-OnDone memory _ (no_memory s e) = tt
  keeps-OnDone memory _ (ticked k' queue (inr lost) t) = absurd (memory lost.1)
  keeps-OnDone memory _ (ticked k' queue (inl q) t) =
      let cmp = thread_cmp_priority k.threads in
      let ticks = next_tick k.time_ticks in
      let after = woken cmp k.entries ticks queue sleeping in
      let filled : 0 < length after = omega (
        arith,
        woken-length cmp k.entries ticks queue sleeping,
        ap length q,
        length-insert cmp k.thr_current ready,
      ) in
      record {
        rs = t.rs;
        ss = t.ss;
        ready = rest_of after;
        sleeping = asleep k.entries ticks sleeping;
        rep = t.rep;
        perm =
            rw (t.current, t.entries)
              (Perm.trans (first_rest-perm after _ filled) (
                Perm.trans (woken-perm cmp k.entries ticks queue sleeping) (
                  rw q (
                    Perm.append_right (sleepers k.entries sleeping)
                      (insert-perm cmp k.thr_current ready)))));
      }

  ordered-OnDone :
      IsSorted (thread_cmp_priority k.threads) ready
      → IsSorted (sleep_entry_cmp_time k.entries) sleeping
      → (o : Outcome (Kernel A)) → TickEnd A L os k ready sleeping o
      → OnDone (λ k'. Chosen A L k' os) o
  ordered-OnDone sorted by_time _ (no_memory s e) = tt
  ordered-OnDone sorted by_time _ (ticked k' queue q t) =
      let cmp = thread_cmp_priority k.threads in
      let IsQueue-IsSorted : IsSorted cmp queue = elim q [
        | inl e ↦ rw e (insert-IsSorted cmp (cmp_member_down _) k.thr_current ready sorted)
        | inr e ↦ rw e.0 sorted
      ] in
      let after = woken cmp k.entries (next_tick k.time_ticks) queue sleeping in
      let s =
        first_rest cmp after
          (woken-IsSorted cmp k.entries _ queue sleeping (cmp_member_down _) IsQueue-IsSorted) in
      record {
        rs = t.rs;
        ss = t.ss;
        ready = rest_of after;
        sleeping = asleep k.entries (next_tick k.time_ticks) sleeping;
        rep = t.rep;
        highest = rw (t.order, t.current) s.0;
        ordered = rw t.order s.1;
        by_time = rw t.entries (asleep-IsSorted k.entries _ sleeping by_time);
        early = rw (t.entries, t.ticks) (asleep-IsEarly k.entries _ sleeping by_time);
      }

  -- With memory for a node, a timer interrupt that does not panic keeps the threads that run, are
  -- ready or sleep: none is lost and none doubled.
  pub time_irq_handler-Kept :
      (A.kmalloc k.heap sizeof_node).1 ≢ null
      → OnDone
          (λ k'. Kept A L k' os (k.thr_current ∷ ready ++ sleepers k.entries sleeping))
          (time_irq_handler A fuel rounds k stack)
  time_irq_handler-Kept memory = keeps-OnDone memory _ (
      time_irq_handler-tick A L os fuel rounds k rs ss ready sleeping stack r all_rounds enough
        small)

  -- From lists in order, a timer interrupt that does not panic leaves lists in order, runs a thread
  -- that no ready one comes before, and leaves no sleeper whose time has come.
  pub time_irq_handler-Chosen :
      IsSorted (thread_cmp_priority k.threads) ready
      → IsSorted (sleep_entry_cmp_time k.entries) sleeping
      → OnDone (λ k'. Chosen A L k' os) (time_irq_handler A fuel rounds k stack)
  time_irq_handler-Chosen sorted by_time = ordered-OnDone sorted by_time _ (
      time_irq_handler-tick A L os fuel rounds k rs ss ready sleeping stack r all_rounds enough
        small)
