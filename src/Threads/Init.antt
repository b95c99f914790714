-- ===== src/Threads/Init.antt =====
-- lib/thr.c: thr_init. idarray_new and idlist_add, whose source does not compile, are arguments.
use jonix.Base.{
  ℕ, ◌-◌, ◌%◌, ◌^◌, Bool, false, not, Option, none, some, ◌==◌, if◌then◌else◌, List, [], ◌∷◌, Ptr,
  null, Mem,
}
use jonix.Heap.{Outcome, done, panic, out_of_fuel}
use jonix.Util.LinkedList.{Nodes, ListHead, Allocator, list_new, list_add, olist_new, olist_add}
use jonix.Paging.{vpage_dir}
use jonix.Threads.{Thread, thread_cmp_priority, state_curr}
use jonix.Threads.New.{Creation, thr_new, sizeof_thread}

abbrev pub thr_max_tid : ℕ
thr_max_tid = 1000

abbrev pub kernel_stack_size : ℕ
kernel_stack_size = 0x4000

-- "Null Thread" and "Kernel Main".
abbrev pub null_name : List ℕ
null_name = 78 ∷ 117 ∷ 108 ∷ 108 ∷ 32 ∷ 84 ∷ 104 ∷ 114 ∷ 101 ∷ 97 ∷ 100 ∷ []

abbrev pub main_name : List ℕ
main_name = 75 ∷ 101 ∷ 114 ∷ 110 ∷ 101 ∷ 108 ∷ 32 ∷ 77 ∷ 97 ∷ 105 ∷ 110 ∷ 0 ∷ []

abbrev pub main_thread : ℕ → Ptr → Thread
main_thread tid kmem_stack = record {
  tid = tid;
  pid = tid;
  state = state_curr;
  priority = 255;
  priv = 0;
  sem = 0;
  has_msg = false;
  stack_base = 0;
  stack_size = 0;
  kstack_base = kmem_stack;
  kstack_size = kernel_stack_size;
  kstack_ptr = 0;
  page_dir = vpage_dir;
  name = main_name;
}

module _ (A : Allocator) (kpsalloc : A.State → ℕ → A.State × Ptr)
    (kpalloc : A.State → A.State × Ptr) {I : Type 0} (idarray_add idlist_add : I → Ptr → I × ℕ)
    (idarray_new : A.State → ℕ → A.State × I × Bool) (thr_null kmem_stack : Ptr) where
  -- The globals that thr_init sets; thr_sem, thr_msg and thr_sleep are empty lists.
  pub record Init : Type 0 where
    pub creation : Creation A kpsalloc kpalloc idarray_add
    pub thr_ready : ListHead
    pub thr_sem : ListHead
    pub thr_msg : ListHead
    pub thr_sleep : ListHead
    pub thr_current : Ptr

  -- The main thread, once the null thread is on the list of ready threads.
  unfoldable pub init_main : Creation A kpsalloc kpalloc idarray_add → ListHead → Outcome Init
  init_main k ready =
      let (heap, main) = A.kmalloc k.heap sizeof_thread in
      let (ids, id) = idlist_add k.thr_tids main in
      let (heap', thr_threads, nodes, added) = list_add A heap k.thr_threads k.nodes main in
      if main == null
      then panic
      else if not added
      then panic
      else done (record {
        creation = record k {
          heap = heap';
          nodes = nodes;
          thr_threads = thr_threads;
          thr_tids = ids;
          threads = λ q. if q == main then main_thread (id % 2 ^ 16) kmem_stack else k.threads q;
        };
        thr_ready = ready;
        thr_sem = list_new;
        thr_msg = list_new;
        thr_sleep = olist_new;
        thr_current = main;
      })

  -- From what the first olist_add returns on.
  abbrev pub init_ready :
      Creation A kpsalloc kpalloc idarray_add
      → Option (A.State × ListHead × Nodes × Bool)
      → Outcome Init
  init_ready k none = out_of_fuel
  init_ready k (some (heap, ready, nodes, added)) =
      if added then init_main (record k { heap = heap; nodes = nodes }) ready else panic

  -- The heap, the nodes, the memory and the descriptors are those of the boot so far.
  unfoldable pub thr_init : ℕ → A.State → Nodes → Mem → (Ptr → Thread) → Outcome Init
  thr_init fuel heap nodes mem threads =
      let (heap', ids, failed) = idarray_new heap (thr_max_tid - 1) in
      let before : Creation A kpsalloc kpalloc idarray_add = record {
        heap = heap';
        nodes = nodes;
        mem = mem;
        threads = threads;
        thr_threads = list_new;
        thr_tids = ids;
      } in
      let (k, null_thr) = thr_new A kpsalloc kpalloc idarray_add before (record {
        pid = 0;
        start = thr_null;
        stack_size = 10;
        priority = 0;
        priv = 0;
        name = null_name;
      }) in
      let readied =
        init_ready k
          (olist_add A fuel (thread_cmp_priority k.threads) k.heap olist_new k.nodes null_thr) in
      if failed then panic else if null_thr == null then panic else readied
