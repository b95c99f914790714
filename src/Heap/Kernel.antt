-- ===== src/Heap/Kernel.antt =====
-- lib/mem.c: kmalloc, kpalloc, kpsalloc and kfree, which call the functions of the heap. The copy of
-- the error string is not kept.
use jonix.Base.{ℕ, Bool, false, Ptr, Mem}
use jonix.CString.{memset}
use jonix.Heap.{
  HeapT, Pager, Outcome, done, panic, out_of_fuel, heap_alloc, heap_palloc, heap_psalloc, heap_free,
}

-- The memory is zeroed whether it was allocated or not: without memory, from address 0 on.
pub kmalloc : (P : Pager) → ℕ → P.State → HeapT → Mem → ℕ → Outcome (P.State × HeapT × Mem × Ptr)
kmalloc P fuel s h m size = elim (heap_alloc P fuel s h m size false) [
  | done (s', h', m', ptr) ↦ done (s', h', memset ptr 0 size m', ptr)
  | panic ↦ panic
  | out_of_fuel ↦ out_of_fuel
]

pub kpalloc : (P : Pager) → ℕ → P.State → HeapT → Mem → Outcome (P.State × HeapT × Mem × Ptr)
kpalloc P fuel s h m = heap_palloc P fuel s h m

pub kpsalloc : (P : Pager) → ℕ → P.State → HeapT → Mem → ℕ → Outcome (P.State × HeapT × Mem × Ptr)
kpsalloc P fuel s h m pages = heap_psalloc P fuel s h m pages

pub kfree : HeapT → Ptr → Mem → HeapT × Mem × Bool
kfree h addr m = heap_free h addr m
