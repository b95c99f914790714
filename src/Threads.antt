-- ===== src/Threads.antt =====
-- lib/thr.c, lib/sched.c, lib/sem.c and lib/time.c: threads, the switch between them, semaphores, the
-- timer interrupt and the sleep system call. thr_run loads the registers of the new thread, which are
-- not part of the state here, and the messages on the screen are left out.
mod Tests
pub mod Spec
pub mod Wake
pub mod Switch
pub mod Tick
pub mod Fair
pub mod Semaphores
pub mod Sleep
pub mod New
pub mod Frame
pub mod Init
use jonix.Base.{
  ℕ, zero, suc, ◌+◌, ◌-◌, ◌*◌, ◌%◌, ◌^◌, Bool, true, false, not, ◌&&◌, Option, none, some, ltb, leb,
  ◌==◌, if◌then◌else◌, Ptr, null, List,
}
use jonix.Base.Int.{pos, negsuc}
use jonix.Heap.{Outcome, done, panic, out_of_fuel}
use jonix.Util.Sort.{Item, Cmp, cmp_member}
use jonix.Util.LinkedList.{
  Nodes, ListHead, Allocator, list_new, list_add, list_del, olist_new, olist_add, olist_del,
}

abbrev pub state_curr : ℕ
state_curr = 0

abbrev pub state_ready : ℕ
state_ready = 1

abbrev pub state_sem : ℕ
state_sem = 2

abbrev pub state_susp : ℕ
state_susp = 3

abbrev pub state_sleep : ℕ
state_sleep = 4

pub record Thread : Type 0 where
  pub tid : ℕ
  pub pid : ℕ
  pub state : ℕ
  pub priority : ℕ
  pub priv : ℕ
  pub sem : ℕ
  pub has_msg : Bool
  pub stack_base : Ptr
  pub stack_size : ℕ
  pub kstack_base : Ptr
  pub kstack_size : ℕ
  pub kstack_ptr : Ptr
  pub page_dir : Ptr
  pub name : List ℕ

pub record SleepEntry : Type 0 where
  pub thread : Ptr
  pub time : ℕ

-- `count` is the word of a signed int.
pub record Sem : Type 0 where
  pub count : ℕ
  pub wait_list : ListHead

-- The memory and the globals that these files share. The heap serves the nodes of the lists and the
-- sleep entries.
pub record Kernel (A : Allocator) : Type 0 where
  pub heap : A.State
  pub nodes : Nodes
  pub threads : Ptr → Thread
  pub entries : Ptr → SleepEntry
  pub thr_ready : ListHead
  pub thr_sleep : ListHead
  pub thr_current : Ptr
  pub time_ticks : ℕ

abbrev pub thread_cmp_priority : (Ptr → Thread) → Cmp
thread_cmp_priority threads = cmp_member (negsuc 0) (λ t. (threads t).priority)

abbrev pub sleep_entry_cmp_time : (Ptr → SleepEntry) → Cmp
sleep_entry_cmp_time entries = cmp_member (pos 1) (λ e. (entries e).time)

abbrev pub set_state : Ptr → ℕ → (Ptr → Thread) → Ptr → Thread
set_state t v threads q = if q == t then record (threads t) { state = v } else threads q

abbrev pub set_kstack_ptr : Ptr → Ptr → (Ptr → Thread) → Ptr → Thread
set_kstack_ptr t v threads q = if q == t then record (threads t) { kstack_ptr = v } else threads q

abbrev pub sizeof_sleep_entry : ℕ
sizeof_sleep_entry = 8

abbrev pub sem_new : ℕ → Sem
sem_new init_cnt = record { count = init_cnt; wait_list = list_new }

-- The time to wake at; `unset` is what the variable holds for a unit that the switch does not know.
abbrev pub targ_ticks : ℕ → ℕ → ℕ → ℕ → ℕ
targ_ticks ticks num units unset =
    if units == 109
    then (ticks + num) % 2 ^ 32
    else if units == 99
    then (ticks + 10 * num) % 2 ^ 32
    else if units == 100
    then (ticks + 100 * num) % 2 ^ 32
    else if units == 115
    then (ticks + 1000 * num) % 2 ^ 32
    else unset

abbrev pub and_then : {A B : Type 0} → Outcome A → (A → Outcome B) → Outcome B
and_then (done a) f = f a
and_then panic f = panic
and_then out_of_fuel f = out_of_fuel

module _ (A : Allocator) where
  -- The stack pointer saved is the word below the saved registers.
  abbrev pub thr_switch : Kernel A → Ptr → Ptr → Kernel A
  thr_switch k curr_state next_thr = record k {
    threads = set_kstack_ptr k.thr_current ((curr_state + 2 ^ 32 - 4) % 2 ^ 32) k.threads;
    thr_current = next_thr;
  }

  -- From what olist_del returns on.
  abbrev pub resched_to : Kernel A → Ptr → A.State × ListHead × Nodes × Item → Kernel A
  resched_to k stack (heap, ready, nodes, thread) =
      thr_switch (record k { heap = heap; thr_ready = ready; nodes = nodes }) stack thread

  pub resched : Kernel A → Ptr → Kernel A
  resched k stack = resched_to k stack (olist_del A k.heap k.thr_ready k.nodes 0)

  -- sem_wait from what list_add returns on; whether it succeeded is not looked at.
  abbrev pub wait_from : Kernel A → Sem → Ptr → A.State × ListHead × Nodes × Bool → Kernel A × Sem
  wait_from k sem stack (heap, wait_list, nodes, ok) = (
    resched
        (record k {
          heap = heap;
          nodes = nodes;
          threads = set_state k.thr_current state_sem k.threads;
        })
        stack,
    record sem { wait_list = wait_list },
  )

  -- `stack` is where resched_no_int puts the registers.
  pub sem_wait : Kernel A → Sem → Ptr → Kernel A × Sem
  sem_wait k sem stack =
      if ltb 0 sem.count && ltb sem.count (2 ^ 31)
      then (k, record sem { count = sem.count - 1 })
      else wait_from k sem stack (list_add A k.heap sem.wait_list k.nodes k.thr_current)

  abbrev pub ready_added :
      Kernel A → Option (A.State × ListHead × Nodes × Bool) → Option (Kernel A × Bool)
  ready_added k none = none
  ready_added k (some (heap, ready, nodes, ok)) =
      some (record k { heap = heap; thr_ready = ready; nodes = nodes }, ok)

  -- Puts a thread on the list of ready ones; the Boolean is that of olist_add.
  abbrev pub ready_add : ℕ → Kernel A → Ptr → Option (Kernel A × Bool)
  ready_add fuel k thread =
      ready_added k
        (olist_add A fuel (thread_cmp_priority k.threads) k.heap k.thr_ready k.nodes thread)

  -- The end of sem_release: the thread becomes ready even if the list has no memory for it.
  abbrev pub release_end : Sem → ListHead → Ptr → Option (Kernel A × Bool) → Option (Kernel A × Sem)
  release_end sem wait_list thread none = none
  release_end sem wait_list thread (some (k, ok)) = some (
    record k { threads = set_state thread state_ready k.threads },
    record sem { wait_list = wait_list },
  )

  -- sem_release from what list_del returns on.
  abbrev pub release_from :
      ℕ → Kernel A → Sem → A.State × ListHead × Nodes × Item → Option (Kernel A × Sem)
  release_from fuel k sem (heap, wait_list, nodes, thread) =
      release_end sem wait_list thread
        (ready_add fuel (record k { heap = heap; nodes = nodes }) thread)

  pub sem_release : ℕ → Kernel A → Sem → Option (Kernel A × Sem)
  sem_release fuel k sem =
      if sem.wait_list.first == null
      then some (k, record sem { count = (sem.count + 1) % 2 ^ 32 })
      else release_from fuel k sem (list_del A k.heap sem.wait_list k.nodes 0)

  -- The loop condition of time_irq_handler: the first sleeper is due.
  abbrev pub is_due : Kernel A → Bool
  is_due k =
      not (k.thr_sleep.first == null)
      && leb (k.entries (k.nodes k.thr_sleep.first).value).time k.time_ticks

  -- The check of a result of olist_add.
  abbrev pub or_panic : Option (Kernel A × Bool) → Outcome (Kernel A)
  or_panic none = out_of_fuel
  or_panic (some (k, ok)) = if ok then done k else panic

  -- The body of that loop, from what olist_del returns on.
  abbrev pub wake_entry : ℕ → Kernel A → A.State × ListHead × Nodes × Item → Outcome (Kernel A)
  wake_entry fuel k (heap, sleep, nodes, entry) =
      let thread = (k.entries entry).thread in
      or_panic (
        ready_add fuel
          (record k {
            heap = heap;
            thr_sleep = sleep;
            nodes = nodes;
            threads = set_state thread state_ready k.threads;
          })
          thread)

  pub wake_one : ℕ → Kernel A → Outcome (Kernel A)
  wake_one fuel k = wake_entry fuel k (olist_del A k.heap k.thr_sleep k.nodes 0)

  pub wake : ℕ → ℕ → Kernel A → Outcome (Kernel A)
  wake fuel zero k = out_of_fuel
  wake fuel (suc rounds) k = elim (is_due k) [
    | false ↦ done k
    | true ↦ and_then (wake_one fuel k) (wake fuel rounds)
  ]

  -- The handler from the first olist_add on, whose result is not looked at.
  abbrev pub tick_from : ℕ → ℕ → Ptr → Option (Kernel A × Bool) → Outcome (Kernel A)
  tick_from fuel rounds stack none = out_of_fuel
  tick_from fuel rounds stack (some (k, ok)) =
      and_then (wake fuel rounds k) (λ k'. done (resched k' stack))

  pub time_irq_handler : ℕ → ℕ → Kernel A → Ptr → Outcome (Kernel A)
  time_irq_handler fuel rounds k stack = tick_from fuel rounds stack (
      ready_add fuel
        (record k {
          time_ticks = (k.time_ticks + 1) % 2 ^ 32;
          threads = set_state k.thr_current state_ready k.threads;
        })
        k.thr_current)

  -- syscall_sleep from what olist_add returns on; whether it succeeded is not looked at.
  abbrev pub sleep_from :
      Kernel A → Ptr → Option (A.State × ListHead × Nodes × Bool) → Outcome (Kernel A)
  sleep_from k stack none = out_of_fuel
  sleep_from k stack (some (heap, sleep, nodes, ok)) =
      done (resched (record k { heap = heap; thr_sleep = sleep; nodes = nodes }) stack)

  -- `num` and `units` are the ebx and ecx on the stack.
  pub syscall_sleep : ℕ → Kernel A → ℕ → ℕ → ℕ → Ptr → Outcome (Kernel A)
  syscall_sleep fuel k num units unset stack =
      let (heap, ent) = A.kmalloc k.heap sizeof_sleep_entry in
      let filled : SleepEntry = record {
        thread = k.thr_current;
        time = targ_ticks k.time_ticks num units unset;
      } in
      let entries : Ptr → SleepEntry = λ q. if q == ent then filled else k.entries q in
      if ent == null
      then panic
      else sleep_from
          (record k { entries = entries; threads = set_state k.thr_current state_sleep k.threads })
          stack (olist_add A fuel (sleep_entry_cmp_time entries) heap k.thr_sleep k.nodes ent)
