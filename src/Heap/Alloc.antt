-- ===== src/Heap/Alloc.antt =====
-- lib/heap.c: the end of heap_alloc, which gives a block away whole or cuts it in two.
use mathlib.Core.Path.{subst}
use jonix.Base.{
  ℕ, ◌+◌, ◌-◌, ◌%◌, ◌<◌, ◌≤◌, ◌≡◌, inl, inr, refl, ◌∙◌, true, false, List, [], ◌∷◌, if◌then◌else◌,
  leb, Ptr, Mem, store32, u32_mod, arith, Apart, Bool-cases, leb→lt,
}
use jonix.Heap.{
  HeapT, sizeof_hdr, sizeof_ftr, write_hdr, write_ftr, set_hole, set_size, index_add, give,
}
use jonix.Heap.Tags.{
  Block, block, IsBlock, IsHdr, IsFtr, Tiled, Outside, IsHdr-Same, IsFtr-Same, write_hdr-IsHdr,
  write_hdr-Outside, write_ftr-IsFtr, write_ftr-Outside, retarget-IsFtr, retarget-Outside,
  set_hole-IsHdr, set_hole-Outside, set_size-IsHdr, set_size-Outside,
}

-- The blocks that a hole `b` becomes when a block of `n` bytes, tags included, is taken from it.
abbrev pub split : Block → ℕ → List Block
split b n =
    if leb b.size (n + 20)
    then block b.size false ∷ []
    else block n false ∷ block (b.size - n) true ∷ []

-- The outcome of `give` at a block `b` of address `a`, for `n` bytes.
pub record Given (h : HeapT) (m : Mem) (a : Ptr) (b : Block) (n : ℕ) (h' : HeapT) (m' : Mem)
    (p : Ptr) : Type 0 where
  pub payload : p ≡ a + sizeof_hdr
  pub tiled : Tiled m' a (split b n) (a + b.size)
  pub outside : Outside a b.size m m'
  pub index : h' ≡ (if leb b.size (n + 20) then h else (index_add m' h (a + n)).0)

give_whole :
    (m : Mem) (a : Ptr) (b : Block)
    → IsBlock m a b
    → IsBlock (set_hole a 0 m) a (block b.size false)
give_whole m a b is =
    let out = set_hole-Outside m a 0 in
    record {
      room = is.room;
      fits = is.fits;
      hdr = set_hole-IsHdr m a b false is.hdr;
      ftr =
          IsFtr-Same m _ (a + b.size - 8) a (λ q lo hi. out q (inl (omega (arith, is.room))))
            is.ftr;
    }

module _ (m : Mem) (a : Ptr) (b : Block) (n : ℕ) (is : IsBlock m a b) (least : 20 ≤ n)
    (spare : n + 20 < b.size) where
  m1 : Mem
  m1 = set_hole a 0 (set_size a n m)

  m2 : Mem
  unfolding m1
  m2 = write_ftr (a + n - 8) a m1

  m3 : Mem
  unfolding m2
  m3 = write_hdr (a + n) 1 (b.size + u32_mod - n) m2

  m4 : Mem
  unfolding m3
  m4 = store32 m3 (a + b.size - 8) (a + n)

  m1-IsHdr : IsHdr m1 a (block n false)
  unfolding m1
  m1-IsHdr =
      set_hole-IsHdr (set_size a n m) a (block n b.hole) false
        (set_size-IsHdr m a b n (omega (arith, is.fits)) is.hdr)

  m1-m2 : Outside (a + n - 8) 8 m1 m2
  unfolding m2
  m1-m2 = write_ftr-Outside m1 (a + n - 8) a

  m2-m3 : Outside (a + n) 12 m2 m3
  unfolding m3
  m2-m3 = write_hdr-Outside m2 (a + n) 1 (b.size + u32_mod - n)

  m3-m4 : Outside (a + b.size - 8) 8 m3 m4
  unfolding m4
  m3-m4 = retarget-Outside m3 (a + b.size - 8) (a + n)

  m-m1 : Outside a 12 m m1
  unfolding m1
  m-m1 q apart = set_hole-Outside (set_size a n m) a 0 q apart ∙ set_size-Outside m a n q apart

  m1-m4 : (q : Ptr) → Apart (a + n - 8) 20 q 1 → Apart (a + b.size - 8) 8 q 1 → m4 q ≡ m1 q
  m1-m4 q near far = m3-m4 q far ∙ m2-m3 q (omega arith) ∙ m1-m2 q (omega arith)

  m-m4 : Outside a b.size m m4
  m-m4 q apart = m1-m4 q (omega arith) (omega arith) ∙ m-m1 q (omega arith)

  front : IsBlock m4 a (block n false)
  front = record {
    room = omega arith;
    fits = omega (arith, is.fits);
    hdr =
        IsHdr-Same m1 m4 a (block n false)
          (λ q lo hi. m1-m4 q (inr (omega arith)) (inr (omega arith))) m1-IsHdr;
    ftr =
        IsFtr-Same m2 m4 (a + n - 8) a
          (λ q lo hi. m3-m4 q (inr (omega arith)) ∙ m2-m3 q (inr (omega arith)))
          (unfold m2 in write_ftr-IsFtr m1 (a + n - 8) a (omega (arith, is.fits)));
  }

  old-IsFtr : IsFtr m3 (a + b.size - 8) a
  old-IsFtr =
      IsFtr-Same m m3 (a + b.size - 8) a
        (λ q lo hi.
          m2-m3 q (inl (omega arith)) ∙ m1-m2 q (inl (omega arith)) ∙ m-m1 q (inl (omega arith)))
        is.ftr

  rest : IsBlock m4 (a + n) (block (b.size - n) true)
  rest = record {
    room = omega arith;
    fits = omega (arith, is.fits);
    hdr =
        IsHdr-Same m3 m4 (a + n) (block (b.size - n) true) (λ q lo hi. m3-m4 q (inr (omega arith)))
          (unfold m3 in
            write_hdr-IsHdr m2 (a + n) (block (b.size - n) true) (b.size + u32_mod - n)
              (omega (arith, is.fits)));
    ftr =
        subst (λ (q : Ptr). IsFtr m4 q (a + n)) {x = a + b.size - 8} (omega arith)
          (unfold m4 in
            retarget-IsFtr m3 (a + b.size - 8) (a + n) a (omega (arith, is.fits)) old-IsFtr);
  }

  Given-split : (h : HeapT) → Given h m a b n (index_add m4 h (a + n)).0 m4 (a + sizeof_hdr)
  Given-split h =
      let cut : leb b.size (n + 20) ≡ false = ground arith in
      record {
        payload = refl;
        tiled = rw cut (front, (rest, omega arith));
        outside = m-m4;
        index = rw cut;
      }

-- The end of heap_alloc at a hole that is large enough: what it gives begins behind the header of
-- a block of at least the size, the bytes of the hole are tiled again, and no other byte changes.
pub give-Given :
    (h : HeapT) (m : Mem) (a : Ptr) (b : Block) (size : ℕ)
    → IsBlock m a b
    → 20 ≤ a
    → size + 20 ≤ b.size
    → (h' : HeapT) × (m' : Mem) × (p : Ptr) × (give h m a (a + b.size - sizeof_ftr) size (size + 20)
        ≡ (h', m', p))
      × Given h m a b (size + 20) h' m' p
unfolding give m4
give-Given h m a b size is low large =
    let wrap : (size + 20 + 12 + 8) % u32_mod ≡ size + 20 + 20 = omega (arith, is.fits) in
    let place : a + size + 12 ≡ a + (size + 20) - 8 = omega arith in
    elim (Bool-cases (leb b.size (size + 20 + 20))) [
      | inl whole ↦ (
        h,
        set_hole a 0 m,
        a + sizeof_hdr,
        rw (wrap, is.hdr.size, whole),
        record {
          payload = refl;
          tiled = rw whole (give_whole m a b is, refl);
          outside = λ q apart. set_hole-Outside m a 0 q (omega (arith, is.room));
          index = rw whole;
        },
      )
      | inr cut ↦ (
        _,
        m4 m a b (size + 20) is (omega arith) (leb→lt _ _ cut),
        a + sizeof_hdr,
        rw (wrap, is.hdr.size, cut, place) refl,
        Given-split m a b (size + 20) is (omega arith) (leb→lt _ _ cut) h,
      )
    ]
