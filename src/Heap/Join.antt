-- ===== src/Heap/Join.antt =====
-- lib/heap.c: the two joins of heap_free, as changes of tags.
use mathlib.Core.Path.{subst}
use jonix.Base.{
  ◌+◌, ◌-◌, ◌<◌, ◌≤◌, ◌≡◌, inl, inr, refl, ◌∙◌, true, ltb, if◌then◌else◌, Ptr, Mem, store32, arith,
  Bool-cases,
}
use jonix.Util.OArray.{oarray_del_value}
use jonix.Heap.{HeapT, set_size, sizeof_ftr, merge_prev, merge_next, passed}
use jonix.Heap.Tags.{
  Block, block, IsBlock, IsFtr, Outside, IsHdr-Same, IsFtr-Same, set_size-IsHdr, set_size-Outside,
  retarget-IsFtr, retarget-Outside,
}

-- Two blocks that lie side by side become one: the size of the first header is that of both, and the
-- footer of the second leads to it.
module _ (m : Mem) (a : Ptr) (b c : Block) (is_b : IsBlock m a b)
    (is_c : IsBlock m (a + b.size) c) where
  abbrev pub joined : Mem
  joined = store32 (set_size a (b.size + c.size) m) (a + (b.size + c.size) - sizeof_ftr) a

  pub joined-Outside : Outside a (b.size + c.size) m joined
  joined-Outside q apart =
      retarget-Outside (set_size a (b.size + c.size) m) (a + (b.size + c.size) - 8) a q
        (omega (arith, is_b.room))
      ∙ set_size-Outside m a (b.size + c.size) q (omega (arith, is_b.room))

  pub joined-IsBlock : IsBlock joined a (block (b.size + c.size) b.hole)
  joined-IsBlock =
      let m1 = set_size a (b.size + c.size) m in
      let ftr : a + b.size + c.size - 8 ≡ a + (b.size + c.size) - 8 = omega (arith, is_c.room) in
      record {
        room = omega (arith, is_b.room);
        fits = omega (arith, is_c.fits);
        hdr =
            IsHdr-Same m1 joined a (block (b.size + c.size) b.hole)
              (λ q lo hi.
                retarget-Outside m1 (a + (b.size + c.size) - 8) a q
                  (inr (omega (arith, is_b.room, is_c.room))))
              (set_size-IsHdr m a b (b.size + c.size) (omega (arith, is_c.fits)) is_b.hdr);
        ftr =
            retarget-IsFtr m1 (a + (b.size + c.size) - 8) a (a + b.size) (omega (arith, is_b.fits))
              (IsFtr-Same m m1 (a + (b.size + c.size) - 8) (a + b.size)
                (λ q lo hi.
                  set_size-Outside m a (b.size + c.size) q
                    (inl (omega (arith, is_b.room, is_c.room))))
                (subst (λ (x : Ptr). IsFtr m x (a + b.size)) ftr is_c.ftr));
      }

module _ (h : HeapT) (m : Mem) (a : Ptr) (b c : Block) (is_b : IsBlock m a b)
    (is_c : IsBlock m (a + b.size) c) where
  -- A block with another before it: the two are joined if the one before is a hole.
  pub merge_prev-joined :
      h.start ≤ a
      → merge_prev h (a + b.size) m ≡ (
          if b.hole
          then passed
              (record h { index = (oarray_del_value h.index a).0 })
              (joined m a b c is_b is_c)
              a
          else passed h m (a + b.size))
  unfolding merge_prev
  merge_prev-joined lo =
      let inside : ltb h.start (a + b.size) ≡ true = ground (arith, is_b.room) in
      let end : a + b.size + c.size - 8 ≡ a + (b.size + c.size) - 8 = omega (arith, is_c.room) in
      rw
        (
          inside, is_b.ftr.back, is_b.ftr.magic, is_b.hdr.magic, is_b.hdr.hole, is_b.hdr.size,
          is_c.hdr.size, end,
        )
        (elim (Bool-cases b.hole) [ inl e ↦ rw e refl | inr e ↦ rw e refl ])

  -- A block with another behind it: the two are joined if the one behind is a hole.
  pub merge_next-joined :
      a + b.size < h.end
      → merge_next h a m ≡ (
          if c.hole
          then passed
              (record h { index = (oarray_del_value h.index (a + b.size)).0 })
              (joined m a b c is_b is_c)
              a
          else passed h m a)
  unfolding merge_next
  merge_next-joined lo =
      let inside : ltb (a + b.size) h.end ≡ true = ground arith in
      let end : a + b.size + c.size - 8 ≡ a + (b.size + c.size) - 8 = omega (arith, is_c.room) in
      rw (is_b.hdr.size, inside, is_c.hdr.magic, is_c.hdr.hole, is_c.hdr.size, is_c.ftr.magic, end)
        (elim (Bool-cases c.hole) [ inl e ↦ rw e refl | inr e ↦ rw e refl ])
