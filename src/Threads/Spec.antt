-- ===== src/Threads/Spec.antt =====
-- The abstract scheduler: the threads that are ready, in order, and the sleep entries, in order. The
-- relation `Rep` ties the lists of lib/thr.c to them.
use native.Mathlib.Decide.{ℕ_discrete}
use mathlib.Core.Path.{fun_ext}
use jonix.Base.Int.{negsuc}
use jonix.Base.{
  eq→==, ne→==, ℕ, suc, ◌+◌, ◌≤◌, arith, ◌≡◌, refl, ap, sym, ◌∙◌, List, [], ◌∷◌, length, leb,
  if◌then◌else◌, Ptr, null, Bool-cases, inl, inr,
}
use jonix.Util.Sort.{cmp_member, Item, Cmp, le_zero}
use jonix.Util.OArray.View.{insert}
use jonix.Util.LinkedList.{Nodes, Allocator}
use jonix.Util.LinkedList.Chain.{values, Agree, Agree-trans}
use jonix.Util.LinkedList.Live.{IsAllocator}
use jonix.Util.LinkedList.Pair.{Pair}
use jonix.Threads.{Thread, SleepEntry, Kernel, thread_cmp_priority, set_state, set_kstack_ptr}

-- The lists of the kernel hold these threads and entries; `os` are the addresses of other nodes.
pub record Rep (A : Allocator) (L : IsAllocator A) (k : Kernel A) (rs ss os : List Ptr)
    (ready sleeping : List Item) : Type 0 where
  pub pair : Pair A L k.heap k.nodes k.thr_ready rs k.thr_sleep ss os
  pub ready_holds : values k.nodes rs ≡ ready
  pub sleep_holds : values k.nodes ss ≡ sleeping

-- What an operation leaves alone: the order of the threads, the entries, the clock, and the nodes at
-- the addresses `os`.
pub record Unmoved (A : Allocator) (before after : Kernel A) (os : List Ptr) : Type 0 where
  pub order : thread_cmp_priority after.threads ≡ thread_cmp_priority before.threads
  pub entries : after.entries ≡ before.entries
  pub ticks : after.time_ticks ≡ before.time_ticks
  pub others : Agree before.nodes after.nodes os

pub Unmoved-trans :
    (A : Allocator) (k1 k2 k3 : Kernel A) (os : List Ptr)
    → Unmoved A k1 k2 os
    → Unmoved A k2 k3 os
    → Unmoved A k1 k3 os
Unmoved-trans A k1 k2 k3 os a b = record {
  order = b.order ∙ a.order;
  entries = b.entries ∙ a.entries;
  ticks = b.ticks ∙ a.ticks;
  others = Agree-trans k1.nodes k2.nodes k3.nodes os a.others b.others;
}

set_state-priority :
    (t v q : Ptr) (threads : Ptr → Thread)
    → (set_state t v threads q).priority ≡ (threads q).priority
set_state-priority t v q threads = elim (ℕ_discrete q t) [
  | yes e ↦ rw (eq→== q t e) (ap (λ r. (threads r).priority) (sym e))
  | no ne ↦ rw (ne→== q t ne) refl
]

set_kstack_ptr-priority :
    (t v q : Ptr) (threads : Ptr → Thread)
    → (set_kstack_ptr t v threads q).priority ≡ (threads q).priority
set_kstack_ptr-priority t v q threads = elim (ℕ_discrete q t) [
  | yes e ↦ rw (eq→== q t e) (ap (λ r. (threads r).priority) (sym e))
  | no ne ↦ rw (ne→== q t ne) refl
]

pub set_state-order :
    (t v : Ptr) (threads : Ptr → Thread)
    → thread_cmp_priority (set_state t v threads) ≡ thread_cmp_priority threads
set_state-order t v threads =
    ap (cmp_member (negsuc 0)) (fun_ext λ q. set_state-priority t v q threads)

pub set_kstack_ptr-order :
    (t v : Ptr) (threads : Ptr → Thread)
    → thread_cmp_priority (set_kstack_ptr t v threads) ≡ thread_cmp_priority threads
set_kstack_ptr-order t v threads =
    ap (cmp_member (negsuc 0)) (fun_ext λ q. set_kstack_ptr-priority t v q threads)

pub length-values : (nodes : Nodes) (ps : List Ptr) → length (values nodes ps) ≡ length ps
length-values nodes [] = refl
length-values nodes (p ∷ ps) = ap suc (length-values nodes ps)

pub length-insert :
    (cmp : Cmp) (x : Item) (xs : List Item) → length (insert cmp x xs) ≡ suc (length xs)
unfolding insert
length-insert cmp x [] = refl
length-insert cmp x (y ∷ ys) = elim (Bool-cases (le_zero (cmp y x))) [
  | inl e ↦ rw e (ap suc (length-insert cmp x ys))
  | inr e ↦ rw e refl
]

abbrev pub rest_of : List Item → List Item
rest_of [] = []
rest_of (x ∷ xs) = xs

abbrev pub first_of : List Item → Item
first_of [] = null
first_of (x ∷ xs) = x

-- The threads whose entries are due go to the ready ones, in the order of their entries.
unfoldable pub woken : Cmp → (Ptr → SleepEntry) → ℕ → List Item → List Item → List Item
woken cmp entries ticks ready [] = ready
woken cmp entries ticks ready (e ∷ es) =
    if leb (entries e).time ticks
    then woken cmp entries ticks (insert cmp (entries e).thread ready) es
    else ready

unfoldable pub asleep : (Ptr → SleepEntry) → ℕ → List Item → List Item
asleep entries ticks [] = []
asleep entries ticks (e ∷ es) =
    if leb (entries e).time ticks then asleep entries ticks es else e ∷ es

pub length-woken :
    (cmp : Cmp) (entries : Ptr → SleepEntry) (ticks : ℕ) (ready sleeping : List Item)
    → length (woken cmp entries ticks ready sleeping) ≤ length ready + length sleeping
unfolding woken
length-woken cmp entries ticks ready [] = omega arith
length-woken cmp entries ticks ready (e ∷ es) = elim (Bool-cases (leb (entries e).time ticks)) [
  | inl due ↦
      let t = (entries e).thread in
      rw due (
        omega (
          arith,
          length-woken cmp entries ticks (insert cmp t ready) es,
          length-insert cmp t ready,
        ))
  | inr early ↦ rw early (omega arith)
]

pub woken-length :
    (cmp : Cmp) (entries : Ptr → SleepEntry) (ticks : ℕ) (ready sleeping : List Item)
    → length ready ≤ length (woken cmp entries ticks ready sleeping)
unfolding woken
woken-length cmp entries ticks ready [] = omega arith
woken-length cmp entries ticks ready (e ∷ es) = elim (Bool-cases (leb (entries e).time ticks)) [
  | inl due ↦
      let t = (entries e).thread in
      rw due (
        omega (
          arith,
          woken-length cmp entries ticks (insert cmp t ready) es,
          length-insert cmp t ready,
        ))
  | inr early ↦ rw early (omega arith)
]
