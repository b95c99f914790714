-- ===== src/Heap/Tests.antt =====
-- lib/heap.c at heaps of a page.
use mathlib.Core.List.Perm
use jonix.Base.{
  ◌+◌, ◌-◌, ◌≡◌, ◌==◌, if◌then◌else◌, refl, true, false, some, List, [], ◌∷◌, ◌++◌, Mem, arith,
  load32, store32, store8, Bool,
}
use jonix.Heap.{
  HeapT, Pager, heap_place, heap_alloc, heap_extend, heap_free, set_hole, write_hdr, write_ftr,
}
use jonix.Heap.Place.{IsHeapT, preamble}
use jonix.Heap.Tags.{Block, block, IsBlock, Outside}
use jonix.Heap.Inv.{HeapInv}
use jonix.Heap.Extend.{
  new_hole, new_hole-IsBlock, Extended, heap_extend-HeapInv, heap_place-HeapInv,
}
use jonix.Heap.Find.{Allocated, heap_alloc-Allocated}
use jonix.Heap.Coalesce.{freed, join_next}
use jonix.Heap.Free.{heap_free-HeapInv}

-- A pager that has pages, and one that has none.
abbrev pages : Pager
pages = record { State = Unit {0}; psalloc_at_v = λ s m v rw user n. (s, m, true) }

abbrev no_pages : Pager
no_pages = record { State = Unit {0}; psalloc_at_v = λ s m v rw user n. (s, m, false) }

-- One hole of a page.
abbrev one_heap : HeapT
one_heap = record {
  start = 4096;
  end = 8192;
  index = record { array = λ i. 4096; max_size = 16; size = 1 };
  user = false;
  rw_flag = true;
}

abbrev one_mem : Mem
one_mem = new_hole (λ a. 0) 4096 4096 (omega arith) (omega arith)

one-HeapInv : HeapInv one_heap one_mem (block 4096 true ∷ [])
one-HeapInv = record {
  low = omega arith;
  tiled = (new_hole-IsBlock (λ a. 0) 4096 4096 (omega arith) (omega arith), refl);
  indexed = Perm.refl _;
  room = omega arith;
  small = omega arith;
}

heap_alloc-Allocated_example :
    Allocated pages tt one_heap one_mem
      (block 4096 true ∷ [])
      5020
      (heap_alloc pages 2 tt one_heap one_mem 5000 false)
heap_alloc-Allocated_example =
    heap_alloc-Allocated pages 0 tt one_heap one_mem (block 4096 true ∷ []) 5000 one-HeapInv
      (omega arith) (λ q lo hi. refl) (omega arith)

heap_extend-HeapInv_example :
    (s' : Unit {0}) × (h' : HeapT) × (m' : Mem) × (ok : Bool) × (bs' : List Block) × (heap_extend
        pages tt one_heap 2 one_mem
      ≡ (s', h', m', ok))
    × Extended one_heap (block 4096 true ∷ []) 8192 h' bs' ok
    × HeapInv h' m' bs'
heap_extend-HeapInv_example =
    heap_extend-HeapInv pages tt one_heap one_mem (block 4096 true ∷ []) 2 one-HeapInv
      (λ q lo hi. refl) (omega arith) (omega arith)

heap_place-HeapInv_example :
    (h : HeapT) × (m' : Mem) × (heap_place (λ i. 0) 4096 8192 300 true false (λ a. 0)
      ≡ some (h, m'))
    × HeapInv h m' (block (1228800 - preamble) true ∷ [])
    × (h.start ≡ 8192 + preamble)
    × (h.end ≡ 1236992)
    × IsHeapT m' 8192 4096 h
    × Outside 8192 1228800 (λ a. 0) m'
heap_place-HeapInv_example =
    heap_place-HeapInv (λ i. 0) 4096 8192 300 true false (λ a. 0) (omega arith) (omega arith)
      (omega arith) (omega arith)

-- A used block between two holes.
abbrev three_mem : Mem
three_mem = set_hole 5096 0 (
    new_hole
      (new_hole (new_hole (λ a. 0) 4096 1000 (omega arith) (omega arith)) 5096 1000 (omega arith)
        (omega arith))
      6096 2096 (omega arith) (omega arith))

abbrev three_heap : HeapT
three_heap = record {
  start = 4096;
  end = 8192;
  index = record { array = λ i. if i == 0 then 4096 else 6096; max_size = 16; size = 2 };
  user = false;
  rw_flag = true;
}

three-IsBlock :
    IsBlock three_mem 4096 (block 1000 true)
    × IsBlock three_mem 5096 (block 1000 false)
    × IsBlock three_mem 6096 (block 2096 true)
unfolding write_hdr write_ftr load32 store32 store8
three-IsBlock = (
  record {
    room = omega arith;
    fits = omega arith;
    hdr = record { hole = refl; size = refl; magic = refl };
    ftr = record { back = refl; magic = refl };
  },
  record {
    room = omega arith;
    fits = omega arith;
    hdr = record { hole = refl; size = refl; magic = refl };
    ftr = record { back = refl; magic = refl };
  },
  record {
    room = omega arith;
    fits = omega arith;
    hdr = record { hole = refl; size = refl; magic = refl };
    ftr = record { back = refl; magic = refl };
  },
)

three-HeapInv :
    HeapInv three_heap three_mem
      ((block 1000 true ∷ []) ++ block 1000 false ∷ (block 2096 true ∷ []))
three-HeapInv =
    let (a, b, c) = three-IsBlock in
    record {
      low = omega arith;
      tiled = (a, (b, (c, refl)));
      indexed = Perm.refl _;
      room = omega arith;
      small = omega arith;
    }

heap_free-HeapInv_example :
    (h' : HeapT) × (m' : Mem) × (heap_free three_heap 5108 three_mem ≡ (h', m', true))
    × HeapInv h' m' (block 4096 true ∷ [])
    × (h'.start ≡ 4096)
    × (h'.end ≡ 8192)
unfolding freed join_next
heap_free-HeapInv_example =
    heap_free-HeapInv three_heap three_mem (block 1000 true ∷ []) (block 1000 false)
      (block 2096 true ∷ []) three-HeapInv refl (omega arith)
