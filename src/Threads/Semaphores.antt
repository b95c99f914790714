-- ===== src/Threads/Semaphores.antt =====
-- lib/sem.c: a semaphore, its waiting threads in the order of their arrival, and the ready threads.
use mathlib.Core.Path.{subst}
use jonix.Base.{
  ℕ, ◌+◌, ◌-◌, ◌^◌, ◌<◌, ◌%◌, ◌≡◌, refl, sym, ap, ◌∙◌, List, [], ◌∷◌, ◌++◌, length, Bool, true,
  false, Ptr, null, Option, some, arith, ltb, ◌≤◌, ◌⊎◌, inl, inr, ◌&&◌, ne→==, ◌==◌,
}
use jonix.Util.Sort.{Item}
use jonix.Util.OArray.View.{insert}
use jonix.Util.LinkedList.{Nodes, ListHead, Allocator, sizeof_node, set_prev}
use jonix.Util.LinkedList.Chain.{head_or, values, Agree, Agree-refl, Agree-trans}
use jonix.Util.LinkedList.Rep.{IsList}
use jonix.Util.LinkedList.Live.{IsAllocator}
use jonix.Util.LinkedList.Remove.{del_head, list_del-run}
use jonix.Util.LinkedList.Pair.{
  Pair, Pair-swap, PairAdded, full, put, olist_add-Pair, list_add-Pair, list_del-Pair,
}
use jonix.Threads.{
  Kernel, Sem, thread_cmp_priority, set_state, state_sem, state_ready, sem_wait, sem_release,
  wait_from, release_from, release_end, ready_added, resched,
}
use jonix.Threads.Spec.{Unmoved, rest_of, first_of, set_state-order}
use jonix.Threads.Switch.{Picked, resched-Picked}

-- The list of ready threads and that of the semaphore hold these threads; `os` are the addresses of
-- other nodes, those of the sleepers and of other semaphores among them.
pub record SemRep (A : Allocator) (L : IsAllocator A) (k : Kernel A) (sem : Sem)
    (rs ws os : List Ptr) (ready waiting : List Item) : Type 0 where
  pub pair : Pair A L k.heap k.nodes k.thr_ready rs sem.wait_list ws os
  pub ready_holds : values k.nodes rs ≡ ready
  pub wait_holds : values k.nodes ws ≡ waiting

-- The threads and the semaphore after an operation.
pub record SemAfter (A : Allocator) (L : IsAllocator A) (k k' : Kernel A) (sem sem' : Sem)
    (os : List Ptr) (ready waiting : List Item) : Type 0 where
  pub rs : List Ptr
  pub ws : List Ptr
  pub rep : SemRep A L k' sem' rs ws os ready waiting
  pub count : sem'.count ≡ sem.count
  pub sleep : k'.thr_sleep ≡ k.thr_sleep
  pub unmoved : Unmoved A k k' os

-- A wait for a semaphore without units: the thread joins the waiting ones, if there is memory for it,
-- and the first of the ready threads runs.
pub data Waited (A : Allocator) (L : IsAllocator A) (k : Kernel A) (sem : Sem) (os : List Ptr)
    (ready waiting : List Item) : Kernel A × Sem → Type 0 where
  waits :
      (k' : Kernel A) (sem' : Sem)
      → SemAfter A L k k' sem sem' os (rest_of ready) (waiting ++ k.thr_current ∷ [])
      → k'.thr_current ≡ first_of ready
      → Waited A L k sem os ready waiting (k', sem')
  forgotten :
      (k' : Kernel A) (sem' : Sem)
      → (A.kmalloc k.heap sizeof_node).1 ≡ null
      → SemAfter A L k k' sem sem' os (rest_of ready) waiting
      → k'.thr_current ≡ first_of ready
      → Waited A L k sem os ready waiting (k', sem')

-- A release with a waiting thread: the first of them joins the ready ones, if there is memory for it.
pub data Released (A : Allocator) (L : IsAllocator A) (k : Kernel A) (sem : Sem) (os : List Ptr)
    (ready waiting : List Item) : Option (Kernel A × Sem) → Type 0 where
  runs :
      (k' : Kernel A) (sem' : Sem)
      → SemAfter A L k k' sem sem' os
          (insert (thread_cmp_priority k.threads) (first_of waiting) ready)
          (rest_of waiting)
      → k'.thr_current ≡ k.thr_current
      → Released A L k sem os ready waiting (some (k', sem'))
  dropped :
      (k' : Kernel A) (sem' : Sem) (s : A.State)
      → (A.kmalloc s sizeof_node).1 ≡ null
      → SemAfter A L k k' sem sem' os ready (rest_of waiting)
      → k'.thr_current ≡ k.thr_current
      → Released A L k sem os ready waiting (some (k', sem'))

module _ (A : Allocator) (L : IsAllocator A) (os : List Ptr) (k : Kernel A) (sem : Sem)
    (rs ws : List Ptr) (ready waiting : List Item)
    (r : SemRep A L k sem rs ws os ready waiting) where
  module _ (heap : A.State) (nodes : Nodes) (wait_list : ListHead) (ws' : List Ptr)
      (waiting' : List Item) (stack : Ptr) (p : Pair A L heap nodes k.thr_ready rs wait_list ws' os)
      (h : values nodes rs ≡ ready) (w : values nodes ws' ≡ waiting')
      (same : Agree k.nodes nodes os) (small : length rs < 2 ^ 32) where
    abbrev blocked : Kernel A
    blocked = record k {
      heap = heap;
      nodes = nodes;
      threads = set_state k.thr_current state_sem k.threads;
    }

    abbrev picked : Picked A L blocked (resched A blocked stack) wait_list ws' os ready
    picked = resched-Picked A L os blocked rs wait_list ws' ready stack p h small

    -- The switch at the end of sem_wait.
    switch-SemAfter :
        SemAfter A L k
          (resched A blocked stack)
          sem
          (record sem { wait_list = wait_list })
          os
          (rest_of ready)
          waiting'
    switch-SemAfter = record {
      rs = picked.rs;
      ws = ws';
      rep = record { pair = picked.pair; ready_holds = picked.holds; wait_holds = picked.kept ∙ w };
      count = refl;
      sleep = picked.sleep;
      unmoved = record {
        order = picked.unmoved.order ∙ set_state-order k.thr_current state_sem k.threads;
        entries = picked.unmoved.entries;
        ticks = picked.unmoved.ticks;
        others =
            Agree-trans k.nodes nodes (resched A blocked stack).nodes os same picked.unmoved.others;
      };
    }

    switch-current : (resched A blocked stack).thr_current ≡ first_of ready
    switch-current = picked.current

  wait_from-Waited :
      (stack : Ptr) (o : A.State × ListHead × Nodes × Bool)
      → length rs < 2 ^ 32
      → PairAdded A L k.heap k.nodes sem.wait_list ws k.thr_ready rs os
          (values k.nodes ws ++ k.thr_current ∷ [])
          (some o)
      → Waited A L k sem os ready waiting (wait_from A k sem stack o)
  wait_from-Waited stack _ small (full s' e p) =
      let p' = Pair-swap A L s' k.nodes sem.wait_list ws k.thr_ready rs os p in
      forgotten _ _ e
        (switch-SemAfter s' k.nodes sem.wait_list ws waiting stack p' r.ready_holds r.wait_holds
          (Agree-refl k.nodes os) small)
        (switch-current s' k.nodes sem.wait_list ws waiting stack p' r.ready_holds r.wait_holds
          (Agree-refl k.nodes os) small)
  wait_from-Waited stack _ small (put s' h' nodes' ps' m) =
      let p' = Pair-swap A L s' nodes' h' ps' k.thr_ready rs os m.pair in
      let w : values nodes' ps' ≡ waiting ++ k.thr_current ∷ [] =
        m.holds ∙ ap (λ (l : List Item). l ++ k.thr_current ∷ []) r.wait_holds in
      waits _ _
        (switch-SemAfter s' nodes' h' ps' _ stack p' (m.kept ∙ r.ready_holds) w m.others small)
        (switch-current s' nodes' h' ps' _ stack p' (m.kept ∙ r.ready_holds) w m.others small)

  -- sem_wait on a semaphore without units puts the current thread behind the waiting ones, or
  -- leaves it out when there is no memory, and runs the first of the ready threads.
  pub sem_wait-Waited :
      (stack : Ptr)
      → (sem.count ≡ 0) ⊎ (2 ^ 31 ≤ sem.count)
      → length rs < 2 ^ 32
      → length ws + 1 < 2 ^ 32
      → Waited A L k sem os ready waiting (sem_wait A k sem stack)
  unfolding sem_wait
  sem_wait-Waited stack none_left few small =
      let blocks : (ltb 0 sem.count && ltb sem.count (2 ^ 31)) ≡ false = elim none_left [
        | inl e ↦ rw e refl
        | inr ge ↦ ground (arith, ge)
      ] in
      rw blocks (
        wait_from-Waited stack _ few (
          list_add-Pair A L k.heap k.nodes sem.wait_list ws k.thr_ready rs os
            (Pair-swap A L k.heap k.nodes k.thr_ready rs sem.wait_list ws os r.pair) k.thr_current
            small))

  release_end-Released :
      (heap : A.State) (nodes : Nodes) (wait_list : ListHead) (ws' : List Ptr) (thread : Ptr)
      (o : Option (A.State × ListHead × Nodes × Bool))
      → first_of waiting ≡ thread
      → values nodes rs ≡ values k.nodes rs
      → values nodes ws' ≡ rest_of waiting
      → Agree k.nodes nodes os
      → PairAdded A L heap nodes k.thr_ready rs wait_list ws' os
          (insert (thread_cmp_priority k.threads) thread (values nodes rs))
          o
      → Released A L k sem os ready waiting (
          release_end A sem wait_list thread
            (ready_added A (record k { heap = heap; nodes = nodes }) o))
  release_end-Released heap nodes wait_list ws' thread _ t h w same (full s' e p) =
      dropped _ _ heap e
        record {
          rs = rs;
          ws = ws';
          rep = record { pair = p; ready_holds = h ∙ r.ready_holds; wait_holds = w };
          count = refl;
          sleep = refl;
          unmoved = record {
            order = set_state-order thread state_ready k.threads;
            entries = refl;
            ticks = refl;
            others = same;
          };
        }
        refl
  release_end-Released heap nodes wait_list ws' thread _ t h w same (put s' h' nodes' ps' m) =
      let cmp = thread_cmp_priority k.threads in
      runs _ _
        record {
          rs = ps';
          ws = ws';
          rep = record {
            pair = m.pair;
            ready_holds =
                m.holds
                ∙ ap (insert cmp thread) (h ∙ r.ready_holds)
                ∙ ap (λ x. insert cmp x ready) (sym t);
            wait_holds = m.kept ∙ w;
          };
          count = refl;
          sleep = refl;
          unmoved = record {
            order = set_state-order thread state_ready k.threads;
            entries = refl;
            ticks = refl;
            others = Agree-trans k.nodes nodes nodes' os same m.others;
          };
        }
        refl

  -- The release of a semaphore without waiting threads adds a unit.
  pub sem_release-none :
      (fuel : ℕ)
      → waiting ≡ []
      → sem_release A fuel k sem ≡ some (k, record sem { count = (sem.count + 1) % 2 ^ 32 })
  unfolding sem_release
  sem_release-none fuel e =
      let idle : sem.wait_list.first ≡ null = go ws r.pair.two (r.wait_holds ∙ e) in rw idle refl
    where
      go :
          (qs : List Ptr)
          → IsList k.nodes sem.wait_list qs
          → values k.nodes qs ≡ []
          → sem.wait_list.first ≡ null
      go [] l e' = l.first
      go (q ∷ qs) l e' = absurd (omega (arith, ap length e'))

  -- A wait for a semaphore with units takes one, and the thread runs on.
  pub sem_wait-units :
      (stack : Ptr)
      → 0 < sem.count
      → sem.count < 2 ^ 31
      → sem_wait A k sem stack ≡ (k, record sem { count = sem.count - 1 })
  unfolding sem_wait
  sem_wait-units stack some_units positive =
      let a : ltb 0 sem.count ≡ true = ground (arith, some_units) in
      let b : ltb sem.count (2 ^ 31) ≡ true = ground (arith, positive) in rw (a, b) refl

-- sem_release on a semaphore with waiting threads moves the first of them to the ready ones, in the
-- order of priorities, or loses it when there is no memory; the count is as it was.
pub sem_release-Released :
    (A : Allocator) (L : IsAllocator A) (os : List Ptr) (fuel : ℕ) (k : Kernel A) (sem : Sem)
    (rs : List Ptr) (p : Ptr) (ws : List Ptr) (ready waiting : List Item)
    → SemRep A L k sem rs (p ∷ ws) os ready waiting
    → length rs < fuel
    → length rs + 1 < 2 ^ 32
    → length (p ∷ ws) < 2 ^ 32
    → Released A L k sem os ready waiting (sem_release A fuel k sem)
unfolding sem_release
sem_release-Released A L os fuel k sem rs p ws ready waiting r enough few small =
    let busy : (sem.wait_list.first == null) ≡ false =
      rw r.pair.two.first (ne→== p null (λ e. r.pair.two.present.0 (sym e))) in
    let m =
      list_del-Pair A L k.heap k.nodes sem.wait_list p ws k.thr_ready rs os
        (Pair-swap A L k.heap k.nodes k.thr_ready rs sem.wait_list (p ∷ ws) os r.pair) small in
    let heap = A.kfree k.heap p in
    let nodes = set_prev (head_or ws null) null k.nodes in
    let wait_list = del_head sem.wait_list ws in
    let pair = Pair-swap A L heap nodes wait_list ws k.thr_ready rs os m.pair in
    let cmp = thread_cmp_priority k.threads in
    let thread = (k.nodes p).value in
    rw busy (
      subst (λ d. Released A L k sem os ready waiting (release_from A fuel k sem d))
        (sym (list_del-run A L k.heap sem.wait_list k.nodes p ws r.pair.two))
        (release_end-Released A L os k sem rs (p ∷ ws) ready waiting r heap nodes wait_list ws
          thread _ (ap first_of (sym r.wait_holds)) m.kept (m.holds ∙ ap rest_of r.wait_holds)
          m.others
          (olist_add-Pair A L heap nodes k.thr_ready rs wait_list ws os pair fuel cmp thread enough
            few)))
