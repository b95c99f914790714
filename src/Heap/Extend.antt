-- ===== src/Heap/Extend.antt =====
-- lib/heap.c: heap_place and heap_extend, which make a new hole of whole pages.
use mathlib.Core.List.{Perm, perm_append_comm}
use mathlib.Core.List.Perm
use mathlib.Core.Path.{subst}
use jonix.Base.{
  ℕ, ◌+◌, ◌-◌, ◌*◌, ◌%◌, ◌<◌, ◌≤◌, ◌≡◌, inl, inr, refl, sym, ap, ◌∙◌, Bool, true, false, List, [],
  ◌∷◌, ◌++◌, some, ltb, leb, Ptr, Mem, store8, store32, u32_mod, arith, Bool-cases, leb→le, leb→lt,
}
use jonix.Util.Sort.{Item, Cmp}
use jonix.Util.OArray.{OArray, oarray_place}
use jonix.Util.OArray.View.{items, slots, insert, insert-perm}
use jonix.Util.OArray.Add.{oarray_add-insert, oarray_add-full}
use jonix.Heap.Place.{
  preamble, IsHeapT, write_heap-Outside, write_first-Outside, write_first-IsHeapT,
}
use jonix.Heap.{
  HeapT, Pager, heap_place, heap_extend, write_heap, write_first, hdr_magic, write_hdr, write_ftr,
  sizeof_ftr, sizeof_heap, heap_index_size, min_heap_size, cmp_size,
}
use jonix.Heap.Tags.{
  Block, block, IsBlock, Tiled, Tiled-Same, Tiled-append, holes, Outside, IsHdr-Same,
  write_hdr-IsHdr, write_hdr-Outside, write_ftr-IsFtr, write_ftr-Outside,
}
use jonix.Heap.Inv.{HeapInv, holes-append}

-- A header and a footer make a hole.
module _ (m : Mem) (a size : ℕ) (room : 20 ≤ size) (fits : a + size < u32_mod) where
  abbrev pub new_hole : Mem
  new_hole = write_ftr (a + size - sizeof_ftr) a (write_hdr a 1 size m)

  pub new_hole-IsBlock : IsBlock new_hole a (block size true)
  new_hole-IsBlock =
      let m1 = write_hdr a 1 size m in
      record {
        room = room;
        fits = fits;
        hdr =
            IsHdr-Same m1 new_hole a (block size true)
              (λ q lo hi. write_ftr-Outside m1 (a + size - 8) a q (inr (omega arith)))
              (write_hdr-IsHdr m a (block size true) size (omega arith));
        ftr = write_ftr-IsFtr m1 (a + size - 8) a (omega arith);
      }

  pub new_hole-Outside : Outside a size m new_hole
  new_hole-Outside q apart =
      write_ftr-Outside (write_hdr a 1 size m) (a + size - 8) a q (omega arith)
      ∙ write_hdr-Outside m a 1 size q (omega arith)

-- The outcome of an extension: the heap is as it was, or it has `n` bytes more, as a hole.
pub data Extended (h : HeapT) (bs : List Block) (n : ℕ) : HeapT → List Block → Bool → Type 0 where
  unchanged : Extended h bs n h bs false
  grown :
      (o : OArray)
      → Extended h bs n (record h { index = o; end = h.end + n }) (bs ++ block n true ∷ []) true

-- The tags of a heap that has a hole behind its last block.
Tiled-new_hole :
    (m : Mem) (a e n : ℕ) (bs : List Block)
    → (room : 20 ≤ n) → (fits : e + n < u32_mod) → Tiled m a bs e
    → Tiled (new_hole m e n room fits) a (bs ++ block n true ∷ []) (e + n)
Tiled-new_hole m a e n bs room fits t =
    Tiled-append _ a bs (block n true ∷ []) e (e + n)
      (Tiled-Same m _ a bs e (λ q lo hi. new_hole-Outside m e n room fits q (inr (omega arith))) t)
      (new_hole-IsBlock m e n room fits, refl)

indexed-new_hole :
    (m : Mem) (o g : ℕ → Item) (a e n size : ℕ) (bs : List Block) (cmp : Cmp)
    → Tiled m a bs e
    → Perm (slots o 0 size) (holes a bs)
    → slots g 0 (size + 1) ≡ insert cmp e (slots o 0 size)
    → Perm (slots g 0 (size + 1)) (holes a (bs ++ block n true ∷ []))
indexed-new_hole m o g a e n size bs cmp t perm s =
    subst (λ (l : List Ptr). Perm l (holes a (bs ++ block n true ∷ []))) (sym s)
      (Perm.trans (insert-perm cmp e _) (
        subst (Perm (e ∷ slots o 0 size)) (sym (holes-append m a bs (block n true ∷ []) e t))
          (Perm.trans (Perm.cons e perm) (perm_append_comm (e ∷ []) (holes a bs)))))

-- heap_extend keeps the invariant of the heap, whether the pages are mapped and whether the index
-- has room or not; when it returns 1, the heap has the new bytes as a hole at its end. The pager
-- changes no byte of the heap, and the new pages end below the end of the address space.
pub heap_extend-HeapInv :
    (P : Pager) (s : P.State) (h : HeapT) (m : Mem) (bs : List Block) (n : ℕ)
    → HeapInv h m bs
    → ((q : Ptr)
        → h.start ≤ q
        → q < h.end
        → (P.psalloc_at_v s m h.end h.rw_flag h.user n).1 q ≡ m q)
    → h.end + 4096 * n < u32_mod
    → 0 < n
    → (s' : P.State) × (h' : HeapT) × (m' : Mem) × (ok : Bool) × (bs' : List Block) × (heap_extend P
          s h n m
        ≡ (s', h', m', ok))
      × Extended h bs (4096 * n) h' bs' ok
      × HeapInv h' m' bs'
unfolding heap_extend
heap_extend-HeapInv P s h m bs n inv keeps fits some_pages =
    let (s', m', mapped) = P.psalloc_at_v s m h.end h.rw_flag h.user n in
    let e = h.end in
    let b = 4096 * n in
    let room : 20 ≤ b = omega arith in
    let end : (e + b) % u32_mod ≡ e + b = omega arith in
    let ftr : (e + b - 8) % u32_mod ≡ e + b - 8 = omega arith in
    let tiled : Tiled m' h.start bs e = Tiled-Same m m' h.start bs e keeps inv.tiled in
    let wide = Tiled-new_hole m' h.start e b bs room fits tiled in
    let m2 = new_hole m' e b room fits in
    elim (Bool-cases mapped) [
      | inr fails ↦ rw fails (
        s',
        h,
        m',
        false,
        bs,
        refl,
        unchanged,
        record {
          low = inv.low;
          tiled = tiled;
          indexed = inv.indexed;
          room = inv.room;
          small = inv.small;
        },
      )
      | inl maps ↦ elim (Bool-cases (leb h.index.max_size h.index.size)) [
        | inl full ↦
            rw (maps, end, ftr, oarray_add-full (cmp_size m2) h.index e (leb→le _ _ full))
              (
                s',
                h,
                m2,
                false,
                bs,
                refl,
                unchanged,
                record {
                  low = inv.low;
                  tiled =
                      Tiled-Same m' m2 h.start bs e
                        (λ q lo hi. new_hole-Outside m' e b room fits q (inr (omega arith))) tiled;
                  indexed = inv.indexed;
                  room = inv.room;
                  small = inv.small;
                },
              )
        | inr free ↦
            let (g, add, slots, beyond) =
              oarray_add-insert (cmp_size m2) h.index e (leb→lt _ _ free) in
            rw (maps, end, ftr, add)
              (
                s',
                _,
                m2,
                true,
                _,
                refl,
                grown _,
                record {
                  low = inv.low;
                  tiled = wide;
                  indexed =
                      indexed-new_hole m' h.index.array g h.start e b h.index.size bs (cmp_size m2)
                        tiled inv.indexed slots;
                  room = omega (arith, leb→lt _ _ free);
                  small = inv.small;
                },
              )
      ]
    ]

-- The first of the slots that hold one item.
one_slot : (cmp : Cmp) (g : ℕ → Item) (a : Ptr) → slots g 0 1 ≡ insert cmp a [] → g 0 ≡ a
unfolding insert
one_slot cmp g a e = ap (λ (l : List Ptr). elim l [ [] ↦ 0 | x ∷ xs ↦ x ]) e

-- heap_place, at the start of a page and with enough pages that end below 4 GB, makes a heap of one
-- hole that fills the pages behind the structure and its index and satisfies the invariant. Memory
-- holds the structure at the start, and the hole in the first slot of the index, and no byte
-- outside the pages is changed.
pub heap_place-HeapInv :
    (space : ℕ → Item) (cmp start n : ℕ) (rw_flag user : Bool) (m : Mem)
    → cmp < u32_mod
    → start % 4096 ≡ 0
    → preamble + 4096 + min_heap_size ≤ 4096 * n
    → start + 4096 * n < u32_mod
    → (h : HeapT) × (m' : Mem) × (heap_place space cmp start n rw_flag user m ≡ some (h, m'))
      × HeapInv h m' (block (4096 * n - preamble) true ∷ [])
      × (h.start ≡ start + preamble)
      × (h.end ≡ start + 4096 * n)
      × IsHeapT m' start cmp h
      × Outside start (4096 * n) m m'
unfolding heap_place oarray_place write_hdr
heap_place-HeapInv space cmp start n rw_flag user m word page large fits =
    let a = start + preamble in
    let b = 4096 * n - preamble in
    let room : 20 ≤ b = omega arith in
    let below : a + b < u32_mod = omega arith in
    let o = oarray_place space heap_index_size in
    let h : HeapT = record { start = a; end = a + b; index = o; user = user; rw_flag = rw_flag } in
    let m1 = write_heap start cmp h m in
    let m2 = new_hole m1 a b room below in
    let (g, add, items, beyond) = oarray_add-insert (cmp_size m2) o a (omega arith) in
    let o' : OArray = record { array = g; max_size = heap_index_size; size = 1 } in
    let h' : HeapT = record h { index = o' } in
    let first : g 0 ≡ a = one_slot (cmp_size m2) g a items in
    let e1 : start + sizeof_heap + heap_index_size * 4 ≡ a = omega arith in
    let e2 : (start + 4096 * n) % u32_mod ≡ a + b = omega arith in
    let e3 : (start + 4096 * n - sizeof_ftr) % u32_mod ≡ a + b - 8 = omega arith in
    let e4 : ltb (4096 * n) (sizeof_heap + heap_index_size * 4 + 4096 + min_heap_size) ≡ false =
      ground arith in
    let e5 : write_hdr a 1 (a + b + u32_mod - a) m1 ≡ write_hdr a 1 b m1 =
      ap (λ (z : ℕ). store32 (store32 (store8 m1 a 1) (a + 4) z) (a + 8) hdr_magic)
        (omega (arith, below)) in
    let first_Outside = write_first-Outside m2 start h' in
    rw (page, e4, e2, e3, e1, e5, add)
      (
        h',
        write_first start h' m2,
        refl,
        record {
          low = omega arith;
          tiled =
              Tiled-Same m2 _ a (block b true ∷ []) (a + b)
                (λ q lo hi. first_Outside q (omega (arith, lo)))
                (new_hole-IsBlock m1 a b room below, refl);
          indexed =
              subst (λ (l : List Ptr). Perm l (a ∷ [])) (sym items)
                (insert-perm (cmp_size m2) a []);
          room = omega arith;
          small = omega arith;
        },
        refl,
        omega arith,
        write_first-IsHeapT m m2 start cmp h o'
            (λ q lt. new_hole-Outside m1 a b room below q (omega (arith, lt))) (omega arith)
            (omega arith) (omega arith) word (omega arith) refl (omega arith)
            (omega (arith, first, below)),
        λ q apart.
            first_Outside q (omega (arith, apart, large))
            ∙ new_hole-Outside m1 a b room below q (omega (arith, apart, large))
            ∙ write_heap-Outside m start cmp h q (omega (arith, apart, large)),
      )
