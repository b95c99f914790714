-- ===== src/Threads/Sleep.antt =====
-- lib/time.c: the sleep system call.
use native.Mathlib.Decide.{ℕ_discrete}
use jonix.Base.{
  ℕ, ◌+◌, ◌^◌, ◌<◌, ◌≡◌, ◌≢◌, refl, ap, ◌∙◌, List, length, Ptr, null, Bool, Option, ◌==◌,
  if◌then◌else◌, eq→==, ne→==,
}
use jonix.Heap.{Outcome, done, panic}
use jonix.Util.Sort.{Item}
use jonix.Util.OArray.View.{insert}
use jonix.Util.LinkedList.{Nodes, ListHead, Allocator, sizeof_node}
use jonix.Util.LinkedList.Chain.{values, Agree, Agree-refl, Agree-trans}
use jonix.Util.LinkedList.Live.{IsAllocator}
use jonix.Util.LinkedList.Pair.{Pair, Pair-swap, Pair-kmalloc, PairAdded, full, put, olist_add-Pair}
use jonix.Threads.{
  SleepEntry, Kernel, thread_cmp_priority, sleep_entry_cmp_time, set_state, state_sleep,
  sizeof_sleep_entry, targ_ticks, sleep_from, syscall_sleep, resched,
}
use jonix.Threads.Spec.{Rep, set_state-order, rest_of, first_of}
use jonix.Threads.Switch.{resched-Switched}

-- The entries with one more, at the address `ent`.
abbrev pub with_entry : (Ptr → SleepEntry) → Ptr → SleepEntry → Ptr → SleepEntry
with_entry entries ent e q = if q == ent then e else entries q

-- The sleepers after the call: the current thread is among them unless there was no memory for a node.
pub record Slept (A : Allocator) (L : IsAllocator A) (k k' : Kernel A) (os : List Ptr)
    (entries : Ptr → SleepEntry) (ready sleeping : List Item) : Type 0 where
  pub rs : List Ptr
  pub ss : List Ptr
  pub rep : Rep A L k' rs ss os (rest_of ready) sleeping
  pub current : k'.thr_current ≡ first_of ready
  pub order : thread_cmp_priority k'.threads ≡ thread_cmp_priority k.threads
  pub has_entries : k'.entries ≡ entries
  pub ticks : k'.time_ticks ≡ k.time_ticks
  pub others : Agree k.nodes k'.nodes os

pub data SleepEnd (A : Allocator) (L : IsAllocator A) (k : Kernel A) (os : List Ptr) (time : ℕ)
    (ready sleeping : List Item) : Outcome (Kernel A) → Type 0 where
  no_entry :
      (A.kmalloc k.heap sizeof_sleep_entry).1 ≡ null → SleepEnd A L k os time ready sleeping panic
  sleeps :
      (k' : Kernel A) (ent : Ptr) (entries : Ptr → SleepEntry)
      → ent ≡ (A.kmalloc k.heap sizeof_sleep_entry).1
      → ent ≢ null
      → entries ≡ with_entry k.entries ent (record { thread = k.thr_current; time = time })
      → Slept A L k k' os entries ready (insert (sleep_entry_cmp_time entries) ent sleeping)
      → SleepEnd A L k os time ready sleeping (done k')
  lost :
      (k' : Kernel A) (ent : Ptr) (s : A.State) (entries : Ptr → SleepEntry)
      → ent ≡ (A.kmalloc k.heap sizeof_sleep_entry).1
      → ent ≢ null
      → entries ≡ with_entry k.entries ent (record { thread = k.thr_current; time = time })
      → (A.kmalloc s sizeof_node).1 ≡ null
      → Slept A L k k' os entries ready sleeping
      → SleepEnd A L k os time ready sleeping (done k')

module _ (A : Allocator) (L : IsAllocator A) (os : List Ptr) (k : Kernel A) (rs ss : List Ptr)
    (ready sleeping : List Item) (stack : Ptr) (r : Rep A L k rs ss os ready sleeping)
    (few : length rs < 2 ^ 32) where
  module _ (heap : A.State) (nodes : Nodes) (sleep : ListHead) (ss' : List Ptr)
      (sleeping' : List Item) (entries : Ptr → SleepEntry)
      (p : Pair A L heap nodes sleep ss' k.thr_ready rs os) (h : values nodes rs ≡ ready)
      (w : values nodes ss' ≡ sleeping') (same : Agree k.nodes nodes os) where
    abbrev blocked : Kernel A
    blocked = record k {
      heap = heap;
      nodes = nodes;
      thr_sleep = sleep;
      entries = entries;
      threads = set_state k.thr_current state_sleep k.threads;
    }

    blocked-Slept : Slept A L k (resched A blocked stack) os entries ready sleeping'
    blocked-Slept =
        let s =
          resched-Switched A L os blocked rs ss' ready sleeping' stack
            record {
              pair = Pair-swap A L heap nodes sleep ss' k.thr_ready rs os p;
              ready_holds = h;
              sleep_holds = w;
            }
            few in
        record {
          rs = s.rs;
          ss = ss';
          rep = s.rep;
          current = s.current;
          order = s.unmoved.order ∙ set_state-order k.thr_current state_sleep k.threads;
          has_entries = s.unmoved.entries;
          ticks = s.unmoved.ticks;
          others =
              Agree-trans k.nodes nodes (resched A blocked stack).nodes os same s.unmoved.others;
        }

  sleep_from-SleepEnd :
      (time : ℕ) (heap : A.State) (ent : Ptr) (entries : Ptr → SleepEntry)
      (o : Option (A.State × ListHead × Nodes × Bool))
      → ent ≡ (A.kmalloc k.heap sizeof_sleep_entry).1
      → ent ≢ null
      → entries ≡ with_entry k.entries ent (record { thread = k.thr_current; time = time })
      → PairAdded A L heap k.nodes k.thr_sleep ss k.thr_ready rs os
          (insert (sleep_entry_cmp_time entries) ent (values k.nodes ss))
          o
      → SleepEnd A L k os time ready sleeping (
          sleep_from A
            (record k {
              entries = entries;
              threads = set_state k.thr_current state_sleep k.threads;
            })
            stack
            o)
  sleep_from-SleepEnd time heap ent entries _ e real f (full s' none_left p) =
      lost _ ent heap entries e real f none_left (
        blocked-Slept s' k.nodes k.thr_sleep ss sleeping entries p r.ready_holds r.sleep_holds
          (Agree-refl k.nodes os))
  sleep_from-SleepEnd time heap ent entries _ e real f (put s' h' nodes' ps' m) =
      sleeps _ ent entries e real f (
        blocked-Slept s' nodes' h' ps' _ entries m.pair (m.kept ∙ r.ready_holds)
          (m.holds ∙ ap (insert (sleep_entry_cmp_time entries) ent) r.sleep_holds) m.others)

  -- syscall_sleep panics exactly when there is no memory for the entry, and otherwise puts an entry
  -- with the current thread and its time among the sleepers, unless there is no memory for a node,
  -- and runs the first of the ready threads.
  pub syscall_sleep-SleepEnd :
      (fuel num units unset : ℕ)
      → length ss < fuel
      → length ss + 1 < 2 ^ 32
      → SleepEnd A L k os
          (targ_ticks k.time_ticks num units unset)
          ready
          sleeping
          (syscall_sleep A fuel k num units unset stack)
  unfolding syscall_sleep
  syscall_sleep-SleepEnd fuel num units unset enough small =
      let ent = (A.kmalloc k.heap sizeof_sleep_entry).1 in
      let heap = (A.kmalloc k.heap sizeof_sleep_entry).0 in
      let time = targ_ticks k.time_ticks num units unset in
      let entries = with_entry k.entries ent (record { thread = k.thr_current; time = time }) in
      let p = Pair-swap A L k.heap k.nodes k.thr_ready rs k.thr_sleep ss os r.pair in
      elim (ℕ_discrete ent null) [
        | yes e ↦ rw (eq→== ent null e) (no_entry e)
        | no ne ↦ rw (ne→== ent null ne) (
            sleep_from-SleepEnd time heap ent entries _ refl ne refl (
              olist_add-Pair A L heap k.nodes k.thr_sleep ss k.thr_ready rs os
                (Pair-kmalloc A L k.heap sizeof_sleep_entry k.nodes k.thr_sleep ss k.thr_ready rs os
                  p)
                fuel (sleep_entry_cmp_time entries) ent enough small))
      ]
