-- ===== src/Threads/Tests.antt =====
-- Threads, semaphores and the timer at a state with a running, a ready and a sleeping thread.
use jonix.Base.{
  ℕ, ◌+◌, ◌-◌, ◌<◌, ◌≤◌, false, sym, ◌≡◌, ◌≢◌, ◌==◌, if◌then◌else◌, refl, [], ◌∷◌, inl, Ptr, null,
  arith,
}
use jonix.Util.OArray.View.{insert}
use jonix.Util.LinkedList.{ListHead, Allocator, list_del, olist_add}
use jonix.Util.LinkedList.Rep.{IsList}
use jonix.Util.LinkedList.Live.{IsAllocator}
use jonix.Util.LinkedList.Insert.{Holding, Added, olist_add-Added}
use jonix.Util.LinkedList.Remove.{list_del-first}
use jonix.Util.LinkedList.Pair.{Pair}
use jonix.Threads.{
  Thread, Kernel, Sem, thread_cmp_priority, sem_wait, sem_release, time_irq_handler, syscall_sleep,
}
use jonix.Threads.Spec.{Rep}
use jonix.Threads.Tick.{TickEnd, time_irq_handler-tick}
use jonix.Threads.Fair.{OnDone, Kept, Chosen, time_irq_handler-Kept, time_irq_handler-Chosen}
use jonix.Threads.Semaphores.{SemRep, Waited, Released, sem_wait-Waited, sem_release-Released}
use jonix.Threads.New.{Creation, NewThread, thr_new}
use jonix.Threads.Frame.{Interrupted, thr_new-Interrupted}
use jonix.Threads.Sleep.{SleepEnd, syscall_sleep-SleepEnd}

-- An allocator that hands out one piece of memory behind the other.
abbrev bump : Allocator
bump = record { State = ℕ; kmalloc = λ s n. (s + 16, s + 16); kfree = λ s p. s }

abbrev bump_laws : IsAllocator bump
bump_laws = record {
  Live = λ s q. q ≤ s;
  fresh = λ s n q real live e. omega (arith, live, e);
  live = λ s n real. omega arith;
  kept = λ s n q live. omega (arith, live);
  freed = λ s p q other owned live. live;
}

-- An allocator that hands out again what was freed last, if there is such a piece; `above` is the
-- distance from it to the end of what was handed out.
record Spare : Type 0 where
  spare : Ptr
  above : ℕ

abbrev reuse : Allocator
reuse = record {
  State = Spare;
  kmalloc = λ s n.
      if s.spare == 0
      then (record { spare = 0; above = s.above + 16 }, s.above + 16)
      else (record { spare = 0; above = s.spare + s.above }, s.spare);
  kfree = λ s p. record { spare = p; above = s.spare + s.above - p };
}

reuse-IsAllocator : IsAllocator reuse
reuse-IsAllocator = record {
  Live = λ s q. (0 < q) × (q ≤ s.spare + s.above) × (q ≢ s.spare);
  fresh = λ s n q real live. ground (arith, real, live);
  live = λ s n real. ground (arith, real);
  kept = λ s n q live. ground (arith, live);
  freed = λ s p q other owned live. (live.0, omega (arith, owned.1, live.1), λ e. other (sym e));
}

-- What is freed is used again.
reused : (reuse.kmalloc (reuse.kfree (record { spare = 0; above = 64 }) 32) 12).1 ≡ 32
reused = refl

abbrev thread : ℕ → Thread
thread priority = record {
  tid = 0;
  pid = 0;
  state = 1;
  priority = priority;
  priv = 0;
  sem = 0;
  has_msg = false;
  stack_base = 0;
  stack_size = 0;
  kstack_base = 0;
  kstack_size = 0;
  kstack_ptr = 0;
  page_dir = 0;
  name = [];
}

abbrev one_head : Ptr → ListHead
one_head p = record { first = p; last = p; size = 1 }

-- Thread 11 is ready, 12 runs, and 13 sleeps until tick 5 or waits for a semaphore.
abbrev kernel : Kernel bump
kernel = record {
  heap = 1000;
  nodes = λ p.
      if p == 100
      then record { value = 11; next = 0; prev = 0 }
      else if p == 200
      then record { value = 50; next = 0; prev = 0 }
      else record { value = 13; next = 0; prev = 0 };
  threads = λ t. thread t;
  entries = λ e. record { thread = 13; time = 5 };
  thr_ready = one_head 100;
  thr_sleep = one_head 200;
  thr_current = 12;
  time_ticks = 4;
}

abbrev busy : Sem
busy = record { count = 0; wait_list = one_head 300 }

single-IsList :
    (p : Ptr)
    → p ≢ null
    → (kernel.nodes p).prev ≡ 0
    → (kernel.nodes p).next ≡ 0
    → IsList kernel.nodes (one_head p) (p ∷ [])
single-IsList p real a b = record {
  first = refl;
  last = refl;
  links = (a, b, tt);
  distinct = (tt, tt);
  present = (λ e. real (sym e), tt);
  size = refl;
}

kernel-Pair :
    (q : Ptr)
    → q ≢ null
    → 100 ≢ q
    → q ≤ 1000
    → (kernel.nodes q).prev ≡ 0
    → (kernel.nodes q).next ≡ 0
    → Pair bump bump_laws 1000 kernel.nodes (one_head 100) (100 ∷ []) (one_head q) (q ∷ []) []
kernel-Pair q real other live a b = record {
  one = single-IsList 100 (λ e. omega (arith, e)) refl refl;
  two = single-IsList q real a b;
  apart = ((other, tt), tt);
  one_others = (tt, tt);
  two_others = (tt, tt);
  one_live = (omega arith, tt);
  two_live = (live, tt);
  others_live = tt;
  real = tt;
}

kernel-Rep : Rep bump bump_laws kernel (100 ∷ []) (200 ∷ []) [] (11 ∷ []) (50 ∷ [])
kernel-Rep = record {
  pair = kernel-Pair 200 (λ e. omega (arith, e)) (λ e. omega (arith, e)) (omega arith) refl refl;
  ready_holds = refl;
  sleep_holds = refl;
}

busy-SemRep : SemRep bump bump_laws kernel busy (100 ∷ []) (300 ∷ []) [] (11 ∷ []) (13 ∷ [])
busy-SemRep = record {
  pair = kernel-Pair 300 (λ e. omega (arith, e)) (λ e. omega (arith, e)) (omega arith) refl refl;
  ready_holds = refl;
  wait_holds = refl;
}

olist_add-Added_example :
    Added bump bump_laws 1000
      (one_head 100)
      kernel.nodes
      (100 ∷ [])
      (200 ∷ [])
      (insert (thread_cmp_priority kernel.threads) 12 (11 ∷ []))
      (olist_add bump 2 (thread_cmp_priority kernel.threads) 1000 (one_head 100) kernel.nodes 12)
olist_add-Added_example =
    let p = kernel-Rep.pair in
    olist_add-Added bump bump_laws 1000 (one_head 100) kernel.nodes 12 (100 ∷ []) (200 ∷ []) p.one
      p.one_live p.two_live p.apart (omega arith) 2 (thread_cmp_priority kernel.threads)
      (omega arith)

list_del-first_example :
    ((list_del bump 1000 (one_head 100) kernel.nodes 0).3 ≡ 11)
    × Holding bump bump_laws
        (list_del bump 1000 (one_head 100) kernel.nodes 0).0
        (list_del bump 1000 (one_head 100) kernel.nodes 0).1
        kernel.nodes
        (list_del bump 1000 (one_head 100) kernel.nodes 0).2
        []
        (200 ∷ [])
        []
list_del-first_example =
    let p = kernel-Rep.pair in
    list_del-first bump bump_laws 1000 (one_head 100) kernel.nodes 100 [] p.one (200 ∷ [])
      p.one_live p.two_live p.apart (λ e. omega (arith, e), tt) (omega arith)

time_irq_handler-tick_example :
    TickEnd bump bump_laws [] kernel (11 ∷ []) (50 ∷ []) (time_irq_handler bump 4 2 kernel 5000)
time_irq_handler-tick_example =
    time_irq_handler-tick bump bump_laws [] 4 2 kernel (100 ∷ []) (200 ∷ []) (11 ∷ []) (50 ∷ [])
      5000 kernel-Rep (omega arith) (omega arith) (omega arith)

time_irq_handler-Kept_example :
    OnDone
      (λ k'. Kept bump bump_laws k' [] (12 ∷ 11 ∷ 13 ∷ []))
      (time_irq_handler bump 4 2 kernel 5000)
time_irq_handler-Kept_example =
    time_irq_handler-Kept bump bump_laws [] 4 2 kernel (100 ∷ []) (200 ∷ []) (11 ∷ []) (50 ∷ [])
      5000 kernel-Rep (omega arith) (omega arith) (omega arith) (λ e. omega (arith, e))

time_irq_handler-Chosen_example :
    OnDone (λ k'. Chosen bump bump_laws k' []) (time_irq_handler bump 4 2 kernel 5000)
time_irq_handler-Chosen_example =
    time_irq_handler-Chosen bump bump_laws [] 4 2 kernel (100 ∷ []) (200 ∷ []) (11 ∷ []) (50 ∷ [])
      5000 kernel-Rep (omega arith) (omega arith) (omega arith) (tt, tt) (tt, tt)

sem_wait-Waited_example :
    Waited bump bump_laws kernel busy [] (11 ∷ []) (13 ∷ []) (sem_wait bump kernel busy 5000)
sem_wait-Waited_example =
    sem_wait-Waited bump bump_laws [] kernel busy (100 ∷ []) (300 ∷ []) (11 ∷ []) (13 ∷ [])
      busy-SemRep 5000 (inl refl) (omega arith) (omega arith)

sem_release-Released_example :
    Released bump bump_laws kernel busy [] (11 ∷ []) (13 ∷ []) (sem_release bump 2 kernel busy)
sem_release-Released_example =
    sem_release-Released bump bump_laws [] 2 kernel busy (100 ∷ []) 300 [] (11 ∷ []) (13 ∷ [])
      busy-SemRep (omega arith) (omega arith) (omega arith)

syscall_sleep-SleepEnd_example :
    SleepEnd bump bump_laws kernel [] 2004
      (11 ∷ [])
      (50 ∷ [])
      (syscall_sleep bump 2 kernel 2 115 0 5000)
syscall_sleep-SleepEnd_example =
    syscall_sleep-SleepEnd bump bump_laws [] kernel (100 ∷ []) (200 ∷ []) (11 ∷ []) (50 ∷ []) 5000
      kernel-Rep (omega arith) 2 2 115 0 (omega arith) (omega arith)

-- Identifiers that count up; the pages of a user thread are not asked for.
abbrev next_id : ℕ → Ptr → ℕ × ℕ
next_id ids thread = (ids + 1, ids)

abbrev no_pages : ℕ → ℕ → ℕ × Ptr
no_pages s n = (s, 0)

abbrev no_page : ℕ → ℕ × Ptr
no_page s = (s, 0)

abbrev before_thread : Creation bump no_pages no_page next_id
before_thread = record {
  heap = 1000;
  nodes = λ p. record { value = 0; next = 0; prev = 0 };
  mem = λ a. 0;
  threads = λ p. thread 1;
  thr_threads = record { first = 0; last = 0; size = 0 };
  thr_tids = 1;
}

abbrev null_thread : NewThread bump no_pages no_page next_id
null_thread = record {
  pid = 0;
  start = 0x100000;
  stack_size = 10;
  priority = 0;
  priv = 0;
  name = 78 ∷ 117 ∷ 108 ∷ 108 ∷ [];
}

thr_new-Interrupted_example :
    Interrupted bump no_pages no_page next_id
      (thr_new bump no_pages no_page next_id before_thread null_thread)
      1016
      5128
      0x100000
thr_new-Interrupted_example =
    thr_new-Interrupted bump no_pages no_page next_id before_thread null_thread refl
      (λ e. absurd (omega (arith, e))) (omega arith) (omega arith)
