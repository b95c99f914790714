-- ===== src/Threads/New.antt =====
-- lib/thr.c: thr_new, and set_page_table_entry_flags of lib/mem.c. The source of idarray_add does not
-- compile, so it is an argument. The descriptor of a thread is a value; its stacks lie in byte memory.
use jonix.Base.{
  ℕ, zero, suc, ◌+◌, ◌-◌, ◌*◌, ◌/◌, ◌%◌, ◌^◌, Bool, true, false, not, ◌==◌, if◌then◌else◌, List, [],
  ◌∷◌, ◌++◌, Ptr, null, Mem, load32, store32, bit_or,
}
use jonix.CString.{memset, memcpy}
use jonix.Util.LinkedList.{Nodes, ListHead, Allocator, list_add}
use jonix.Paging.{present, vpage_dir, pd_index, pt_index}
use jonix.Tables.{gdt_index_user_code, gdt_index_user_data}
use jonix.Threads.{Thread, state_susp}

abbrev pub thr_kstack_size : ℕ
thr_kstack_size = 4096

abbrev pub thr_name_len : ℕ
thr_name_len = 20

-- `sizeof` of thread_t, isr_stack_kernel_t and isr_stack_user_t on i386.
abbrev pub sizeof_thread : ℕ
sizeof_thread = 64

abbrev pub sizeof_kernel_frame : ℕ
sizeof_kernel_frame = 68

abbrev pub sizeof_user_frame : ℕ
sizeof_user_frame = 76

abbrev pub gdt_seg_descriptor : ℕ → ℕ → ℕ
gdt_seg_descriptor index priv = bit_or (index * 2 ^ 3) (priv * 2) % 2 ^ 16

-- The entry is looked for at a distance from the directory, in units of a word.
unfoldable pub set_page_table_entry_flags : Mem → Ptr → ℕ → ℕ → Mem × Bool
set_page_table_entry_flags m pd addr flags =
    let entry = pd + 4 * (4096 * pd_index addr + 4 * pt_index addr) in
    let m' = store32 m entry (load32 m entry / 4096 * 4096) in
    if not (present (load32 m (pd + 4 * pd_index addr)))
    then (m, false)
    else (store32 m' entry (bit_or (load32 m' entry) flags), true)

-- The loop over the pages of a user stack, from page `i` below its base on.
unfoldable pub set_stack_flags : ℕ → ℕ → Ptr → Ptr → Mem → Mem
set_stack_flags zero i page_dir stack_base m = m
set_stack_flags (suc left) i page_dir stack_base m =
    set_stack_flags left (i + 1) page_dir stack_base
      (set_page_table_entry_flags m page_dir ((stack_base + 2 ^ 32 - i * 4096) % 2 ^ 32) 7).0

-- Words that are written one after the other, each with its index.
unfoldable pub store_words : Ptr → List (ℕ × ℕ) → Mem → Mem
store_words p [] m = m
store_words p (w ∷ ws) m = store_words p ws (store32 m (p + 4 * w.0) w.1)

-- The words of the stack of an interrupted thread, in the order in which they are written.
abbrev pub frame_words : Ptr → Ptr → List (ℕ × ℕ)
frame_words kstack start =
    (0, gdt_seg_descriptor gdt_index_user_data 0)
    ∷ (1, gdt_seg_descriptor gdt_index_user_data 0)
    ∷ (2, gdt_seg_descriptor gdt_index_user_data 0)
    ∷ (3, gdt_seg_descriptor gdt_index_user_data 0)
    ∷ (4, 0)
    ∷ (5, 0)
    ∷ (6, 0)
    ∷ (8, 0)
    ∷ (9, 0)
    ∷ (10, 0)
    ∷ (11, 0)
    ∷ (7, kstack + 48)
    ∷ (12, 0)
    ∷ (13, 0)
    ∷ (14, start)
    ∷ (15, gdt_seg_descriptor gdt_index_user_code 0)
    ∷ (16, 514)
    ∷ []

-- The two words more of a user thread.
abbrev pub user_words : Ptr → List (ℕ × ℕ)
user_words stack_base = (17, stack_base) ∷ (18, gdt_seg_descriptor gdt_index_user_data 0) ∷ []

-- The frame of a new thread below `kstack_base`, and the word under it.
unfoldable pub new_frame : Bool → Ptr → Ptr → Ptr → Mem → Mem
new_frame user kstack_base stack_base start m =
    let kstack =
      if user then kstack_base - sizeof_user_frame else kstack_base - sizeof_kernel_frame in
    let framed = store_words kstack (frame_words kstack start) m in
    store32 (if user then store_words kstack (user_words stack_base) framed else framed)
      (kstack - 4) 0

-- The first characters of a name.
unfoldable pub name_of : ℕ → List ℕ → List ℕ
name_of zero name = []
name_of (suc n) [] = []
name_of (suc n) (c ∷ cs) = c ∷ name_of n cs

-- `kpsalloc` and `kpalloc` are those of lib/mem.c.
module _ (A : Allocator) (kpsalloc : A.State → ℕ → A.State × Ptr)
    (kpalloc : A.State → A.State × Ptr) {I : Type 0} (idarray_add : I → Ptr → I × ℕ) where
  pub record Creation : Type 0 where
    pub heap : A.State
    pub nodes : Nodes
    pub mem : Mem
    pub threads : Ptr → Thread
    pub thr_threads : ListHead
    pub thr_tids : I

  -- The arguments of thr_new that it uses.
  pub record NewThread : Type 0 where
    pub pid : ℕ
    pub start : Ptr
    pub stack_size : ℕ
    pub priority : ℕ
    pub priv : ℕ
    pub name : List ℕ

  -- The end of thr_new: the thread is complete but for its name.
  unfoldable pub finish_thread : Creation → Ptr → Thread → List ℕ → Creation × Ptr
  finish_thread k thread t name =
      let named : Thread = record t { name = name_of thr_name_len name ++ 0 ∷ [] } in
      let (heap, thr_threads, nodes, ok) = list_add A k.heap k.thr_threads k.nodes thread in
      (
        record k {
          heap = heap;
          nodes = nodes;
          thr_threads = thr_threads;
          threads = λ q. if q == thread then named else k.threads q;
        },
        thread,
      )

  -- The page directory of a thread: the kernel's own, or a copy for a user thread.
  unfoldable pub with_page_dir : Creation → Ptr → Thread → List ℕ → Creation × Ptr
  with_page_dir k thread t name =
      let (heap, page_dir) = kpalloc k.heap in
      let copied = memcpy page_dir vpage_dir 4096 k.mem in
      let mem = set_stack_flags (t.stack_size / 4096) 1 page_dir t.stack_base copied in
      if t.priv == 0
      then finish_thread k thread (record t { page_dir = vpage_dir }) name
      else if page_dir == null
      then (
        record k { heap = A.kfree (A.kfree (A.kfree heap t.kstack_base) t.stack_base) thread },
        null,
      )
      else finish_thread (record k { heap = heap; mem = mem }) thread
          (record t { page_dir = page_dir }) name

  -- From the frame of the kernel stack on.
  unfoldable pub with_frame : Creation → Ptr → Thread → NewThread → Creation × Ptr
  with_frame k thread t new =
      let size = if t.priv == 0 then sizeof_kernel_frame else sizeof_user_frame in
      let mem = new_frame (not (t.priv == 0)) t.kstack_base t.stack_base new.start k.mem in
      with_page_dir (record k { mem = mem }) thread
        (record t { kstack_ptr = t.kstack_base - size - 4 }) new.name

  -- From the user stack on.
  unfoldable pub with_stack : Creation → Ptr → Thread → NewThread → Creation × Ptr
  with_stack k thread t new =
      let no_pages = new.stack_size / 4096 + (if new.stack_size % 4096 == 0 then 0 else 1) in
      let (heap, stack) = kpsalloc k.heap (no_pages % 2 ^ 16) in
      let stack_base = (stack + no_pages * 4096) % 2 ^ 32 in
      if t.priv == 0
      then with_frame k thread (record t { stack_base = null; stack_size = 0 }) new
      else if stack_base == null
      then (record k { heap = A.kfree (A.kfree heap t.kstack_base) thread }, null)
      else with_frame (record k { heap = heap }) thread
          (record t { stack_base = stack_base; stack_size = no_pages * 4096 % 2 ^ 32 }) new

  -- Without memory for the descriptor, kmalloc zeroes the bytes at NULL. The tid has 16 bits, and it is compared with -1 over 32. The pid is a truth value.
  unfoldable pub thr_new : Creation → NewThread → Creation × Ptr
  thr_new k new =
      let (heap1, thread) = A.kmalloc k.heap sizeof_thread in
      let (ids, id) = idarray_add k.thr_tids thread in
      let tid = id % 2 ^ 16 in
      let (heap2, kstack) = A.kmalloc heap1 thr_kstack_size in
      let kstack_base = (kstack + thr_kstack_size) % 2 ^ 32 in
      let k2 : Creation = record k {
        heap = heap2;
        thr_tids = ids;
        mem = memset kstack 0 thr_kstack_size k.mem;
      } in
      let t : Thread = record {
        tid = tid;
        pid = if (new.pid == 0) then (if tid == 0 then 0 else 1) else 1;
        state = state_susp;
        priority = new.priority;
        priv = new.priv;
        sem = 0;
        has_msg = false;
        stack_base = 0;
        stack_size = 0;
        kstack_base = kstack_base;
        kstack_size = thr_kstack_size;
        kstack_ptr = 0;
        page_dir = 0;
        name = [];
      } in
      let made = with_stack k2 thread t new in
      if thread == null
      then (record k { heap = heap1; mem = memset null 0 sizeof_thread k.mem }, null)
      else if tid == 2 ^ 32 - 1
      then (record k { heap = A.kfree heap1 thread; thr_tids = ids }, null)
      else if kstack_base == null
      then (record k2 { heap = A.kfree heap2 thread }, null)
      else made
