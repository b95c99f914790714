-- ===== src/Heap/Find.antt =====
-- lib/heap.c: heap_alloc without page alignment.
use mathlib.Core.List.{Mem, mem-cons_self, mem-append_right}
use mathlib.Core.List.Perm
use mathlib.Core.Path.{subst}
use jonix.Base.{
  ℕ, zero, suc, ◌+◌, ◌-◌, ◌*◌, ◌/◌, ◌%◌, ◌<◌, ◌≤◌, ◌≡◌, inl, inr, refl, sym, ap, Bool, true, false,
  List, [], ◌∷◌, ◌++◌, some, none, ◌==◌, if◌then◌else◌, Ptr, null, Mem as Memory, u32_mod, arith,
  Bool-cases,
}
use jonix.Util.Sort.{Item}
use jonix.Util.OArray.View.{items, slots, contains, contains-Mem}
use jonix.Heap.{
  HeapT, Pager, Outcome, done, heap_alloc, heap_extend, scan, give, sizeof_ftr, hdr_size,
}
use jonix.Heap.Tags.{Block, block, holes}
use jonix.Heap.Inv.{HeapInv, holes-append}
use jonix.Heap.Keeps.{Allocation, give-HeapInv, without}
use jonix.Heap.Scan.{size_at, First, scan-First}
use jonix.Heap.Extend.{Extended, unchanged, grown, heap_extend-HeapInv}
use jonix.Heap.Coalesce.{blocks-At}

-- The pages that heap_alloc asks for.
abbrev pub pages_for : ℕ → ℕ
pages_for hf = hf / 4096 + (if hf % 4096 == 0 then 0 else 1)

pages_for_room : (n : ℕ) → n ≤ 4096 * pages_for n
pages_for_room n = ground arith

-- What heap_alloc without page alignment comes to, for `n` bytes with the tags.
pub data Allocated (P : Pager) (s : P.State) (h : HeapT) (m : Memory) (bs : List Block) (n : ℕ)
    : Outcome (P.State × HeapT × Memory × Ptr) → Type 0 where
  -- The hole at the first slot of the index whose hole is large enough is taken.
  found :
      (k : ℕ) (h' : HeapT) (m' : Memory)
      → First h m 0 n k
      → k < h.index.size
      → Allocation h m bs n h' m' (h.index.array k + 12)
      → Allocated P s h m bs n (done (s, h', m', h.index.array k + 12))
  -- Every hole is too small, and the heap is extended and a block of the extension taken.
  extended :
      (s' : P.State) (h1 h' : HeapT) (m1 m' : Memory) (p : Ptr)
      → ((j : ℕ) → j < h.index.size → size_at h m j < n)
      → HeapInv h1 m1 (bs ++ block (4096 * pages_for n) true ∷ [])
      → Allocation h1 m1 (bs ++ block (4096 * pages_for n) true ∷ []) n h' m' p
      → Allocated P s h m bs n (done (s', h', m', p))
  -- Every hole is too small and the heap cannot be extended: NULL is returned.
  refused :
      (s' : P.State) (h' : HeapT) (m' : Memory)
      → ((j : ℕ) → j < h.index.size → size_at h m j < n)
      → HeapInv h' m' bs
      → Allocated P s h m bs n (done (s', h', m', null))

-- If each slot holds a hole that is too small, so is each item.
small-contains :
    (m : Memory) (f : ℕ → Item) (p : Ptr) (n i left : ℕ)
    → ((j : ℕ) → i ≤ j → j < i + left → hdr_size m (f j) < n)
    → contains p (slots f i left) ≡ true
    → hdr_size m p < n
small-contains m f p n i zero small c = cc
small-contains m f p n i (suc left) small c = elim (Bool-cases (f i == p)) [
  | inl e ↦
      let q : f i ≡ p = ground (arith, e) in
      subst (λ (x : Ptr). hdr_size m x < n) q (small i (omega arith) (omega arith))
  | inr e ↦
      small-contains m f p n (i + 1) left (λ j lo hi. small j (omega arith) (omega arith))
        (ground (arith, c, e))
]

-- After an extension the new hole is in the index.
new_hole-small :
    (h : HeapT) (m : Memory) (bs : List Block) (b n : ℕ)
    → HeapInv h m (bs ++ block b true ∷ [])
    → ((j : ℕ) → 0 ≤ j → j < 0 + h.index.size → size_at h m j < n)
    → b < n
new_hole-small h m bs b n inv small =
    let (p, left, is, right) = blocks-At m h.start bs (block b true) [] h.end inv.tiled in
    let order = holes-append m h.start bs (block b true ∷ []) p left in
    let there : Mem p (items h.index) =
      (Perm.mem_iff inv.indexed).1
        (subst (Mem p) (sym order) (mem-append_right (holes h.start bs) mem-cons_self)) in
    omega (
      arith,
      is.hdr.size,
      small-contains m h.index.array p n 0 h.index.size small (contains-Mem p _ there),
    )

-- The outcome of a search that finds a hole.
found_run :
    (P : Pager) (fuel : ℕ) (s : P.State) (h : HeapT) (m : Memory) (bs : List Block) (size k : ℕ)
    → HeapInv h m bs
    → size + 20 < u32_mod
    → size + 20 ≤ size_at h m k
    → k < h.index.size
    → (let a = h.index.array k in
        scan h.index.size 0 h m size (size + 20) false
        ≡ done (some (give (without h k) m a (a + hdr_size m a - sizeof_ftr) size (size + 20))))
    → (h' : HeapT) × (m' : Memory) × (heap_alloc P (suc fuel) s h m size false
        ≡ done (s, h', m', h.index.array k + 12))
      × Allocation h m bs (size + 20) h' m' (h.index.array k + 12)
unfolding heap_alloc
found_run P fuel s h m bs size k inv small large lt e =
    let (h', m', p, gives, alloc, payload) = give-HeapInv h m bs k size inv lt large in
    let wrap : (size + 12 + 8) % u32_mod ≡ size + 20 = omega (arith, small) in
    (
      h',
      m',
      rw (wrap, e, gives, payload, heap_alloc) refl,
      subst (λ (x : Ptr). Allocation h m bs (size + 20) h' m' x) payload alloc,
    )

-- What follows an attempt to extend the heap.
abbrev after_extend :
    (P : Pager) → ℕ → ℕ → P.State × HeapT × Memory × Bool → Outcome (P.State × HeapT × Memory × Ptr)
after_extend P fuel size (s, h, m, ok) = elim ok [
  | false ↦ done (s, h, m, null)
  | true ↦ heap_alloc P fuel s h m size false
]

-- The outcome of a search that finds none.
missed_run :
    (P : Pager) (fuel : ℕ) (s s' : P.State) (h h1 : HeapT) (m m1 : Memory) (size hf : ℕ) (ok : Bool)
    → (size + 12 + 8) % u32_mod ≡ hf
    → scan h.index.size 0 h m size hf false ≡ done none
    → heap_extend P s h (pages_for hf) m ≡ (s', h1, m1, ok)
    → heap_alloc P (suc fuel) s h m size false ≡ after_extend P fuel size (s', h1, m1, ok)
unfolding heap_alloc
missed_run P fuel s s' h h1 m m1 size hf ok wrap =
    subst
      (λ (n : ℕ).
        scan h.index.size 0 h m size n false ≡ done none
        → heap_extend P s h (pages_for n) m ≡ (s', h1, m1, ok)
        → heap_alloc P (suc fuel) s h m size false ≡ after_extend P fuel size (s', h1, m1, ok))
      wrap (λ e run. rw (e, heap_alloc) (ap (after_extend P fuel size) run))

-- An extension, once every hole is too small.
Extended-run :
    (P : Pager) (fuel size : ℕ) (s s' : P.State) (h : HeapT) (m m1 : Memory) (bs : List Block)
    (h1 : HeapT) (bs1 : List Block) (ok : Bool)
    → size + 20 < u32_mod
    → ((j : ℕ) → j < h.index.size → size_at h m j < size + 20)
    → scan h.index.size 0 h m size (size + 20) false ≡ done none
    → heap_extend P s h (pages_for (size + 20)) m ≡ (s', h1, m1, ok)
    → Extended h bs (4096 * pages_for (size + 20)) h1 bs1 ok
    → HeapInv h1 m1 bs1
    → Allocated P s h m bs (size + 20) (heap_alloc P (suc (suc fuel)) s h m size false)
Extended-run P fuel size s s' h m m1 bs _ _ _ small none_fits e run unchanged inv =
    let wrap : (size + 12 + 8) % u32_mod ≡ size + 20 = omega (arith, small) in
    rw (missed_run P (suc fuel) s s' h h m m1 size (size + 20) false wrap e run)
      (refused s' h m1 none_fits inv)
Extended-run P fuel size s s' h m m1 bs _ _ _ small none_fits e run (grown o) inv =
    let wrap : (size + 12 + 8) % u32_mod ≡ size + 20 = omega (arith, small) in
    let h1 : HeapT = record h { index = o; end = h.end + 4096 * pages_for (size + 20) } in
    elim (scan-First h1 m1 o.size 0 size (size + 20)) [
      | inl missing ↦ absurd (
          omega (
            arith,
            pages_for_room (size + 20),
            new_hole-small h1 m1 bs (4096 * pages_for (size + 20)) (size + 20) inv missing.1,
          ))
      | inr (k, first, lt, e1) ↦
          let (h', m', run1, alloc) =
            found_run P fuel s' h1 m1 _ size k inv small first.large (omega (arith, lt)) e1 in
          rw (missed_run P (suc fuel) s s' h h1 m m1 size (size + 20) true wrap e run, run1)
            (extended s' h1 h' m1 m' _ none_fits inv alloc)
    ]

-- heap_alloc without page alignment needs at most one call of itself, so two rounds of fuel are
-- enough for an outcome: the hole at the first slot that is large enough is taken, or the heap
-- grows and a block of it is taken, or it cannot grow and NULL is returned. The invariant holds in
-- each case, if the pager changes no byte of the heap and the pages end below the end of the
-- address space.
pub heap_alloc-Allocated :
    (P : Pager) (fuel : ℕ) (s : P.State) (h : HeapT) (m : Memory) (bs : List Block) (size : ℕ)
    → HeapInv h m bs
    → size + 20 < u32_mod
    → ((q : Ptr)
        → h.start ≤ q
        → q < h.end
        → (P.psalloc_at_v s m h.end h.rw_flag h.user (pages_for (size + 20))).1 q ≡ m q)
    → h.end + 4096 * pages_for (size + 20) < u32_mod
    → Allocated P s h m bs (size + 20) (heap_alloc P (suc (suc fuel)) s h m size false)
heap_alloc-Allocated P fuel s h m bs size inv small keeps fits =
    elim (scan-First h m h.index.size 0 size (size + 20)) [
      | inl missing ↦
          let (s', h1, m1, ok, bs1, run, ext, inv1) =
            heap_extend-HeapInv P s h m bs (pages_for (size + 20)) inv keeps fits (ground arith) in
          Extended-run P fuel size s s' h m m1 bs h1 bs1 ok small (all_small missing.1) missing.0
            run ext inv1
      | inr (k, first, lt, e) ↦
          let (h', m', run, alloc) =
            found_run P (suc fuel) s h m bs size k inv small first.large (omega (arith, lt)) e in
          rw run (found k h' m' first (omega (arith, lt)) alloc)
    ]
  where
    all_small :
        ((j : ℕ) → 0 ≤ j → j < 0 + h.index.size → size_at h m j < size + 20)
        → (j : ℕ) → j < h.index.size
        → size_at h m j < size + 20
    all_small f j lt = f j (omega arith) (omega arith)
