-- ===== src/Heap/Free.antt =====
-- lib/heap.c: heap_free, which joins the block that it frees with the holes beside it.
use mathlib.Core.List.{Perm, perm_middle}
use mathlib.Core.List.Perm
use mathlib.Core.Path.{subst}
use jonix.Base.{
  ◌+◌, ◌-◌, ◌<◌, ◌≡◌, inl, inr, refl, sym, ap, ◌∙◌, true, false, List, ◌∷◌, ◌++◌, Ptr, Mem, arith,
}
use jonix.Util.OArray.{OArray}
use jonix.Util.OArray.View.{items, slots, insert-perm}
use jonix.Heap.Keeps.{Tiled-total}
use jonix.Util.OArray.Add.{oarray_add-insert}
use jonix.Heap.{HeapT, cmp_size, set_hole, free_start, heap_free, free_end, passed}
use jonix.Heap.Tags.{
  Block, block, IsBlock, Tiled, Tiled-Same, Tiled-append, holes, total, set_hole-IsHdr,
  set_hole-Outside, IsFtr-Same,
}
use jonix.Heap.Inv.{HeapInv, holes-append}
use jonix.Heap.Coalesce.{Freeing, freed, blocks-At, to_last, merge_next-Freeing, merge_prev-Freeing}

-- The first step: the block is marked as a hole.
free_start-Freeing :
    (h : HeapT) (m : Mem) (a : Ptr) (before : List Block) (this : Block) (after : List Block)
    → HeapInv h m (before ++ this ∷ after)
    → Tiled m h.start before a
    → IsBlock m a this
    → Tiled m (a + this.size) after h.end
    → this.hole ≡ false
    → h.index.size < h.index.max_size
    → (free_start h a m ≡ passed h (set_hole a 1 m) a)
      × Freeing h (set_hole a 1 m) a before (block this.size true) after
unfolding free_start
free_start-Freeing h m a before this after inv left is right used room =
    let m' = set_hole a 1 m in
    let out = set_hole-Outside m a 1 in
    (
      rw (is.hdr.magic, is.hdr.size, is.ftr.magic) refl,
      record {
        low = inv.low;
        left = Tiled-Same m m' h.start before a (λ q lo hi. out q (inr (omega arith))) left;
        here = record {
          room = is.room;
          fits = is.fits;
          hdr = set_hole-IsHdr m a this true is.hdr;
          ftr = IsFtr-Same m m' _ a (λ q lo hi. out q (inl (omega (arith, is.room)))) is.ftr;
        };
        right =
            Tiled-Same m m' _ after h.end (λ q lo hi. out q (inl (omega (arith, is.room)))) right;
        free = refl;
        indexed =
            subst (Perm (items h.index))
              (holes-append m h.start before (this ∷ after) a left ∙ rw used refl) inv.indexed;
        room = room;
        small = inv.small;
      },
    )

-- The last step: the hole goes into the index.
free_end-HeapInv :
    (h : HeapT) (m : Mem) (a : Ptr) (before : List Block) (this : Block) (after : List Block)
    → Freeing h m a before this after
    → (o : OArray) × (free_end (passed h m a) ≡ (record h { index = o }, m, true))
      × HeapInv (record h { index = o }) m (before ++ this ∷ after)
free_end-HeapInv h m a before this after f =
    let (g, add, s, beyond) = oarray_add-insert (cmp_size m) h.index a f.room in
    let order : holes h.start (before ++ this ∷ after)
        ≡ holes h.start before ++ a ∷ holes (a + this.size) after =
      holes-append m h.start before (this ∷ after) a f.left ∙ rw f.free refl in
    (
      _,
      rw add refl,
      record {
        low = f.low;
        tiled = Tiled-append m h.start before (this ∷ after) a h.end f.left (f.here, f.right);
        indexed =
            subst (λ (l : List Ptr). Perm (slots g 0 (h.index.size + 1)) l) (sym order)
              (subst
                (λ (l : List Ptr). Perm l (holes h.start before ++ a ∷ holes (a + this.size) after))
                (sym s)
                (Perm.trans (insert-perm (cmp_size m) a (items h.index))
                  (Perm.trans (Perm.cons a f.indexed) (Perm.symm (perm_middle _ _)))));
        room = omega (arith, f.room);
        small = f.small;
      },
    )

-- heap_free at the address that a used block was given at, with room in the index, returns 1. The
-- block is a hole then, joined with a hole right before it and with one right behind it, the
-- other blocks are as they were, and the invariant holds.
pub heap_free-HeapInv :
    (h : HeapT) (m : Mem) (before : List Block) (this : Block) (after : List Block)
    → HeapInv h m (before ++ this ∷ after)
    → this.hole ≡ false
    → h.index.size < h.index.max_size
    → (h' : HeapT) × (m' : Mem) × (heap_free h (h.start + total before + 12) m ≡ (h', m', true))
      × HeapInv h' m' (freed before (block this.size true) after)
      × (h'.start ≡ h.start)
      × (h'.end ≡ h.end)
unfolding heap_free
heap_free-HeapInv h m before this after inv used room =
    let (a, left, is, right) = blocks-At m h.start before this after h.end inv.tiled in
    let addr : h.start + total before + 12 - 12 ≡ a =
      omega (arith, Tiled-total m h.start before a left) in
    let (start_run, f1) = free_start-Freeing h m a before this after inv left is right used room in
    let two = merge_prev-Freeing h _ a before (block this.size true) after (to_last before) f1 in
    let (h3, m3, this3, after3, run3, spec3, start3, end3, f3) =
      merge_next-Freeing two.heap two.mem two.place two.before' two.this' after two.next in
    let (o, add, inv') = free_end-HeapInv h3 m3 two.place two.before' this3 after3 f3 in
    (
      _,
      m3,
      rw (addr, start_run, two.run, run3) add,
      subst (HeapInv (record h3 { index = o }) m3)
          (ap (λ (l : List Block). two.before' ++ l) spec3 ∙ two.spec) inv',
      start3 ∙ two.start,
      end3 ∙ two.end,
    )
