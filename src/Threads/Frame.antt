-- ===== src/Threads/Frame.antt =====
-- lib/thr.c: the stack of a new kernel thread, as thr_new leaves it.
use native.Mathlib.Decide.{ℕ_discrete}
use jonix.Base.{
  ℕ, ◌+◌, ◌-◌, ◌*◌, ◌%◌, ◌^◌, ◌≤◌, ◌<◌, ◌≡◌, ◌≢◌, refl, ap, ◌∙◌, false, ltb, ◌==◌, if◌then◌else◌,
  List, [], ◌∷◌, Ptr, null, Mem, load32, store32, load32-store32_self, load32-store32-Apart, Apart,
  Bool-cases, arith, inl, inr, eq→==, ne→==,
}
use jonix.Util.LinkedList.{Allocator}
use jonix.Threads.{Thread, state_susp}
use jonix.Threads.New.{
  store_words, frame_words, new_frame, Creation, NewThread, thr_new, with_stack, with_frame,
  with_page_dir, finish_thread, sizeof_thread, thr_kstack_size,
}

-- The values are words.
Fit : List (ℕ × ℕ) → Type 0
Fit [] = Unit
Fit (w ∷ ws) = (w.1 < 2 ^ 32) × Fit ws

-- The last word that is written with an index, or what was there.
last_word : ℕ → ℕ → List (ℕ × ℕ) → ℕ
last_word old i [] = old
last_word old i (w ∷ ws) = last_word (if i == w.0 then w.1 else old) i ws

apart : (p i k : ℕ) → i ≢ k → Apart (p + 4 * k) 4 (p + 4 * i) 4
apart p i k ne = elim (Bool-cases (ltb i k)) [
  | inl lt ↦ inr (ground (arith, lt))
  | inr ge ↦ inl (ground (arith, ge, ne))
]

load32-store_words :
    (p i : ℕ) (ws : List (ℕ × ℕ)) (m : Mem)
    → Fit ws
    → load32 (store_words p ws m) (p + 4 * i) ≡ last_word (load32 m (p + 4 * i)) i ws
unfolding store_words last_word Fit
load32-store_words p i [] m fit = refl
load32-store_words p i (w ∷ ws) m (small, fit) =
    load32-store_words p i ws (store32 m (p + 4 * w.0) w.1) fit
    ∙ ap (λ (x : ℕ). last_word x i ws)
        (elim (ℕ_discrete i w.0) [
          | yes e ↦
              let place : p + 4 * i ≡ p + 4 * w.0 = ap (λ (x : ℕ). p + 4 * x) e in
              ap (load32 (store32 m (p + 4 * w.0) w.1)) place
              ∙ load32-store32_self m (p + 4 * w.0) w.1 small
              ∙ rw (eq→== i w.0 e) refl
          | no ne ↦
              load32-store32-Apart m (p + 4 * w.0) w.1 (p + 4 * i) (apart p i w.0 ne)
              ∙ rw (ne→== i w.0 ne) refl
        ])

-- Word `i` of the stack of a thread that was interrupted before `start`: the segments, the registers, the
-- address of the code, its segment, and the flags.
abbrev pub interrupted : Ptr → Ptr → ℕ → ℕ
interrupted kstack start i =
    if ltb i 4
    then 40
    else if i == 7
    then kstack + 48
    else if i == 14
    then start
    else if i == 15
    then 32
    else if i == 16
    then 514
    else 0

last_word-frame_words :
    (old kstack start i : ℕ)
    → i < 17
    → last_word old i (frame_words kstack start) ≡ interrupted kstack start i
unfolding last_word
last_word-frame_words old kstack start i lt = ground (arith, lt)

Fit-frame_words :
    (kstack start : ℕ) → kstack + 48 < 2 ^ 32 → start < 2 ^ 32 → Fit (frame_words kstack start)
unfolding Fit
Fit-frame_words kstack start small code = (
  omega arith,
  (
    omega arith,
    (
      omega arith,
      (
        omega arith,
        (
          omega arith,
          (
            omega arith,
            (
              omega arith,
              (
                omega arith,
                (
                  omega arith,
                  (
                    omega arith,
                    (
                      omega arith,
                      (
                        small,
                        (omega arith, (omega arith, (code, (omega arith, (omega arith, tt))))),
                      ),
                    ),
                  ),
                ),
              ),
            ),
          ),
        ),
      ),
    ),
  ),
)

-- A word of the stack of a new kernel thread.
new_frame-word :
    (kstack_base start : ℕ) (m : Mem) (i : ℕ)
    → 72 ≤ kstack_base
    → kstack_base < 2 ^ 32
    → start < 2 ^ 32
    → i < 17
    → load32 (new_frame false kstack_base null start m) (kstack_base - 68 + 4 * i)
      ≡ interrupted (kstack_base - 68) start i
unfolding new_frame
new_frame-word kstack_base start m i room small code lt =
    let kstack = kstack_base - 68 in
    load32-store32-Apart (store_words kstack (frame_words kstack start) m) (kstack - 4) 0
      (kstack + 4 * i) (inl (omega (arith, room)))
    ∙ load32-store_words kstack i (frame_words kstack start) m
        (Fit-frame_words kstack start (omega (arith, small)) code)
    ∙ last_word-frame_words _ kstack start i lt

new_frame-under :
    (kstack_base start : ℕ) (m : Mem)
    → 72 ≤ kstack_base
    → load32 (new_frame false kstack_base null start m) (kstack_base - 72) ≡ 0
unfolding new_frame
new_frame-under kstack_base start m room =
    let place : kstack_base - 72 ≡ kstack_base - 68 - 4 = omega (arith, room) in
    rw place (load32-store32_self _ (kstack_base - 68 - 4) 0 (omega arith))

module _ (A : Allocator) (kpsalloc : A.State → ℕ → A.State × Ptr)
    (kpalloc : A.State → A.State × Ptr) {I : Type 0} (idarray_add : I → Ptr → I × ℕ) where
  -- What the kernel and the address of a new thread say of it.
  pub record Interrupted (r : Creation A kpsalloc kpalloc idarray_add × Ptr)
      (thread kstack_base start : Ptr) : Type 0 where
    pub created : r.1 ≡ thread
    pub state : (r.0.threads thread).state ≡ state_susp
    pub stack : (r.0.threads thread).kstack_ptr ≡ kstack_base - 72
    pub under : load32 r.0.mem (kstack_base - 72) ≡ 0
    pub frame :
        (i : ℕ)
        → i < 17
        → load32 r.0.mem (kstack_base - 72 + 4 + 4 * i) ≡ interrupted (kstack_base - 68) start i

  with_stack-Interrupted :
      (k : Creation A kpsalloc kpalloc idarray_add) (thread : Ptr) (t : Thread)
      (new : NewThread A kpsalloc kpalloc idarray_add)
      → t.priv ≡ 0
      → t.state ≡ state_susp
      → 72 ≤ t.kstack_base
      → t.kstack_base < 2 ^ 32
      → new.start < 2 ^ 32
      → Interrupted
          (with_stack A kpsalloc kpalloc idarray_add k thread t new)
          thread
          t.kstack_base
          new.start
  unfolding with_stack with_frame with_page_dir finish_thread
  with_stack-Interrupted k thread t new kernel susp room small code =
      let frame : (i : ℕ)
          → i < 17
          → load32 (new_frame false t.kstack_base null new.start k.mem)
              (t.kstack_base - 72 + 4 + 4 * i)
            ≡ interrupted (t.kstack_base - 68) new.start i =
        λ i lt.
          ap (load32 (new_frame false t.kstack_base null new.start k.mem))
            {y = t.kstack_base - 68 + 4 * i} (omega (arith, room))
          ∙ new_frame-word t.kstack_base new.start k.mem i room small code lt in
      rw (eq→== t.priv 0 kernel) (record {
        created = refl;
        state = rw (eq→== thread thread refl) susp;
        stack = rw (eq→== thread thread refl) (omega (arith, room));
        under = new_frame-under t.kstack_base new.start k.mem room;
        frame = frame;
      })

  -- thr_new for a kernel thread, with memory for its descriptor and a kernel stack that ends below
  -- 4 GB, returns a suspended thread whose stack is that of a thread that was interrupted before
  -- its start: the saved pointer leads to a word 0 and behind it to the segments, the registers,
  -- the address of the code, its segment and the flags.
  pub thr_new-Interrupted :
      (k : Creation A kpsalloc kpalloc idarray_add) (new : NewThread A kpsalloc kpalloc idarray_add)
      → new.priv ≡ 0
      → (A.kmalloc k.heap sizeof_thread).1 ≢ null
      → (A.kmalloc (A.kmalloc k.heap sizeof_thread).0 thr_kstack_size).1 + thr_kstack_size < 2 ^ 32
      → new.start < 2 ^ 32
      → Interrupted
          (thr_new A kpsalloc kpalloc idarray_add k new)
          (A.kmalloc k.heap sizeof_thread).1
          ((A.kmalloc (A.kmalloc k.heap sizeof_thread).0 thr_kstack_size).1 + thr_kstack_size)
          new.start
  unfolding thr_new
  thr_new-Interrupted k new kernel real small code =
      let kstack = (A.kmalloc (A.kmalloc k.heap sizeof_thread).0 thr_kstack_size).1 in
      let base : (kstack + 4096) % 2 ^ 32 ≡ kstack + 4096 = omega (arith, small) in
      let id = (idarray_add k.thr_tids (A.kmalloc k.heap sizeof_thread).1).1 in
      let fine : id % 2 ^ 16 == 2 ^ 32 - 1 ≡ false = ne→== _ _ (λ e. absurd (omega (arith, e))) in
      let there : kstack + 4096 == null ≡ false = ne→== _ _ (λ e. absurd (omega (arith, e))) in
      rw (ne→== _ null real, fine, base, there)
        (with_stack-Interrupted _ (A.kmalloc k.heap sizeof_thread).1 _ new kernel refl (omega arith)
          small code)
