-- ===== src/Heap.antt =====
-- lib/heap.c: the kernel heap, a run of blocks between boundary tags, with an index of its holes.
-- The blocks lie in byte memory. The `heap_t` structure is a record, and the slots of its index,
-- which lie below the blocks, are those of the ordered array. heap_place stores them in memory, too;
-- the operations behind it change them in the record.
pub mod Tags
pub mod Inv
pub mod Alloc
pub mod Keeps
pub mod Scan
pub mod Place
pub mod Extend
pub mod Join
pub mod Coalesce
pub mod Free
pub mod Find
pub mod Kernel
mod Tests
use jonix.Base.{
  ℕ, zero, suc, ◌+◌, ◌-◌, ◌*◌, ◌/◌, ◌%◌, ◌^◌, Bool, true, false, not, ◌&&◌, ◌||◌, Option, none,
  some, ltb, leb, ◌==◌, if◌then◌else◌, Ptr, null, Mem, store8, load32, store32, u32_mod, bit_and,
  ◌≡◌,
}
use jonix.Base.Int.{ℤ, pos}
use jonix.CString.{memset, memmove}
use jonix.Util.Sort.{Item, Cmp, cmp_member}
use jonix.Util.OArray.{OArray, oarray_place, oarray_add, oarray_get, oarray_del, oarray_del_value}

abbrev pub heap_index_size : ℕ
heap_index_size = 0x20000

abbrev pub min_heap_size : ℕ
min_heap_size = 0x10000

abbrev pub hdr_magic : ℕ
hdr_magic = 0x8e99da12

abbrev pub ftr_magic : ℕ
ftr_magic = 0x981a7cb4

-- `sizeof` of heap_t, heap_hdr_t and heap_ftr_t on i386.
abbrev pub sizeof_heap : ℕ
sizeof_heap = 28

abbrev pub sizeof_hdr : ℕ
sizeof_hdr = 12

abbrev pub sizeof_ftr : ℕ
sizeof_ftr = 8

-- Fields of a `heap_hdr_t` at an address: `hole`, a byte, then `size` and `magic`.
abbrev pub hdr_hole : Mem → Ptr → ℕ
hdr_hole m p = m p

abbrev pub hdr_size : Mem → Ptr → ℕ
hdr_size m p = load32 m (p + 4)

abbrev pub hdr_magic_of : Mem → Ptr → ℕ
hdr_magic_of m p = load32 m (p + 8)

-- Fields of a `heap_ftr_t`.
abbrev pub ftr_hdr : Mem → Ptr → ℕ
ftr_hdr m p = load32 m p

abbrev pub ftr_magic_of : Mem → Ptr → ℕ
ftr_magic_of m p = load32 m (p + 4)

abbrev pub set_hole : Ptr → ℕ → Mem → Mem
set_hole p v m = store8 m p v

abbrev pub set_size : Ptr → ℕ → Mem → Mem
set_size p v m = store32 m (p + 4) (v % u32_mod)

unfoldable pub write_hdr : Ptr → ℕ → ℕ → Mem → Mem
write_hdr p hole size m = store32 (set_size p size (set_hole p hole m)) (p + 8) hdr_magic

unfoldable pub write_ftr : Ptr → Ptr → Mem → Mem
write_ftr p hdr m = store32 (store32 m p hdr) (p + 4) ftr_magic

pub record HeapT : Type 0 where
  pub start : Ptr
  pub end : Ptr
  pub index : OArray
  pub user : Bool
  pub rw_flag : Bool

-- What heap_extend asks of lib/mem.c: pages at an address of the virtual memory.
pub record Pager : Type 1 where
  pub State : Type 0
  pub psalloc_at_v : State → Mem → ℕ → Bool → Bool → ℕ → State × Mem × Bool

-- A run ends with a value, stops in PANIC, or takes more rounds than it was given.
pub data Outcome (A : Type 0) : Type 0 where
  done : A → Outcome A
  panic : Outcome A
  out_of_fuel : Outcome A

-- The comparison of the index, heap_hdr_t_cmp_size.
abbrev pub cmp_size : Mem → Cmp
cmp_size m = cmp_member (pos 1) (hdr_size m)

abbrev pub index_add : Mem → HeapT → Ptr → HeapT × Bool
index_add m h p =
    let (index, added) = oarray_add (cmp_size m) h.index p in (record h { index = index }, added)

abbrev pub page_mask : ℕ
page_mask = 0xFFFFF000

abbrev pub byte_of : Bool → ℕ
byte_of b = if b then 1 else 0

-- The stores of heap_place to its heap_t at `p`. `cmp` is the address of heap_hdr_t_cmp_size.
unfoldable pub write_heap : Ptr → Ptr → HeapT → Mem → Mem
write_heap p cmp h m =
    let m1 = store32 (store32 m (p + 8) (p + sizeof_heap)) (p + 12) cmp in
    let m2 = store32 (store32 m1 (p + 16) h.index.max_size) (p + 20) h.index.size in
    let m3 = store32 (store32 m2 p h.start) (p + 4) h.end in
    store8 (store8 m3 (p + 24) (byte_of h.user)) (p + 25) (byte_of h.rw_flag)

-- The stores of oarray_add to the first slot of the index, and to its size.
unfoldable pub write_first : Ptr → HeapT → Mem → Mem
write_first p h m = store32 (store32 m (p + sizeof_heap) (h.index.array 0)) (p + 20) h.index.size

-- heap_place: `slots` are what memory holds at the place of the index.
pub heap_place : (ℕ → Item) → Ptr → Ptr → ℕ → Bool → Bool → Mem → Option (HeapT × Mem)
unfolding write_heap write_first write_hdr write_ftr
heap_place slots cmp start no_pages rw_flag user m =
    if not (start % 4096 == 0)
    then none
    else if ltb (4096 * no_pages) (sizeof_heap + heap_index_size * 4 + 4096 + min_heap_size)
    then none
    else let first = start + sizeof_heap + heap_index_size * 4 in
      let end = (start + 4096 * no_pages) % u32_mod in
      let ftr = (start + 4096 * no_pages - sizeof_ftr) % u32_mod in
      let h : HeapT = record {
        start = first;
        end = end;
        index = oarray_place slots heap_index_size;
        user = user;
        rw_flag = rw_flag;
      } in
      let m' = write_heap start cmp h m in
      let m'' = write_ftr ftr first (write_hdr first 1 (end + u32_mod - first) m') in
      let (h', added) = index_add m'' h first in some (h', write_first start h' m'')

pub heap_extend : (P : Pager) → P.State → HeapT → ℕ → Mem → P.State × HeapT × Mem × Bool
unfolding write_hdr write_ftr
heap_extend P s h no_pages m =
    let (s', m', mapped) = P.psalloc_at_v s m h.end h.rw_flag h.user no_pages in
    if not mapped
    then (s', h, m', false)
    else let grown = (h.end + 4096 * no_pages) % u32_mod in
      let ftr = (h.end + 4096 * no_pages - sizeof_ftr) % u32_mod in
      let m'' = write_ftr ftr h.end (write_hdr h.end 1 (4096 * no_pages) m') in
      let (h', added) = index_add m'' h h.end in
      if not added then (s', h', m'', false) else (s', record h' { end = grown }, m'', true)

-- The end of heap_alloc, once a block is found and is out of the index: it is given away whole, or
-- its end becomes a hole of its own.
pub give : HeapT → Mem → Ptr → Ptr → ℕ → ℕ → HeapT × Mem × Ptr
unfolding write_hdr write_ftr
give h m hdr ftr size size_hf =
    if leb (hdr_size m hdr) ((size_hf + sizeof_hdr + sizeof_ftr) % u32_mod)
    then (h, set_hole hdr 0 m, hdr + sizeof_hdr)
    else let hdr2 = hdr + size_hf in
      let m1 = set_hole hdr 0 (set_size hdr size_hf m) in
      let m2 = write_ftr (hdr + size + sizeof_hdr) hdr m1 in
      let m3 = write_hdr hdr2 1 (hdr_size m hdr + u32_mod - size_hf) m2 in
      let m4 = store32 m3 ftr hdr2 in ((index_add m4 h hdr2).0, m4, hdr + sizeof_hdr)

-- The branch of heap_alloc that moves the header up to the last place before a page: what it cuts
-- off is lost at the start of the heap, joins the block before, or is a hole of its own.
-- The destination of the memmove is `new_hdr - sizeof(heap_ftr_t)` in units of a header.
pub carve : HeapT → Mem → ℕ → Ptr → Ptr → Ptr → Outcome (HeapT × Mem × Ptr)
unfolding write_hdr write_ftr
carve h m i hdr ftr next_page =
    let h1 : HeapT = record h { index = oarray_del h.index i } in
    let new_hdr = next_page - sizeof_hdr in
    let offset = new_hdr - hdr in
    let new_size = hdr_size m hdr + u32_mod - offset in
    let tag = λ (n : Mem). write_hdr new_hdr 1 new_size (store32 n ftr new_hdr) in
    if leb offset (sizeof_ftr + sizeof_hdr)
    then (if ltb ((hdr + u32_mod - sizeof_ftr - sizeof_hdr) % u32_mod) h.start
        then done (h1, tag (memset hdr 0 offset m), new_hdr)
        else let prev_ftr = hdr - sizeof_ftr in
          let prev_hdr = ftr_hdr m prev_ftr in
          if not (ftr_magic_of m prev_ftr == ftr_magic)
          then panic
          else let m1 = set_size prev_hdr (hdr_size m prev_hdr + offset) m in
            let moved = memmove 0 (new_hdr - sizeof_ftr * sizeof_hdr) prev_ftr sizeof_ftr m1 in
            elim moved [ none ↦ out_of_fuel | some m2 ↦ done (h1, tag m2, new_hdr) ])
    else let m1 = write_ftr (new_hdr - sizeof_ftr) hdr (set_size hdr offset m) in
      done ((index_add m1 h1 hdr).0, tag m1, new_hdr)

-- The loop of heap_alloc over the index, with `left` entries to go.
pub scan : ℕ → ℕ → HeapT → Mem → ℕ → ℕ → Bool → Outcome (Option (HeapT × Mem × Ptr))
unfolding give carve
scan zero i h m size size_hf page_align = done none
scan (suc left) i h m size size_hf page_align =
    let rest = scan left (i + 1) h m size size_hf page_align in
    let hdr = oarray_get h.index i in
    let ftr = hdr + hdr_size m hdr - sizeof_ftr in
    let next_page = bit_and ((hdr + sizeof_hdr + 4096) % u32_mod) page_mask in
    if not (leb size_hf (hdr_size m hdr))
    then rest
    else if page_align && not (bit_and (hdr + sizeof_hdr) page_mask == 0)
    then if leb ((hdr + hdr_size m hdr) % u32_mod) ((next_page + size + sizeof_ftr) % u32_mod)
      then rest
      else elim (carve h m i hdr ftr next_page) [
        | done (h', m', hdr') ↦ done (some (give h' m' hdr' ftr size size_hf))
        | panic ↦ panic
        | out_of_fuel ↦ out_of_fuel
      ]
    else done (some (give (record h { index = oarray_del h.index i }) m hdr ftr size size_hf))

-- heap_alloc calls itself after each extension of the heap; `fuel` bounds these calls.
pub heap_alloc :
    (P : Pager) → ℕ → P.State → HeapT → Mem → ℕ → Bool → Outcome (P.State × HeapT × Mem × Ptr)
unfolding scan heap_extend
heap_alloc P zero s h m size page_align = out_of_fuel
heap_alloc P (suc fuel) s h m size page_align =
    let size_hf = (size + sizeof_hdr + sizeof_ftr) % u32_mod in
    let no_new_pages = size_hf / 4096 + (if size_hf % 4096 == 0 then 0 else 1) in
    elim (scan h.index.size 0 h m size size_hf page_align) [
      | done (some (h', m', p)) ↦ done (s, h', m', p)
      | done none ↦
          (let (s', h', m', grown) = heap_extend P s h no_new_pages m in
            elim grown [
              | false ↦ done (s', h', m', null)
              | true ↦ heap_alloc P fuel s' h' m' size page_align
            ])
      | panic ↦ panic
      | out_of_fuel ↦ out_of_fuel
    ]

pub heap_palloc : (P : Pager) → ℕ → P.State → HeapT → Mem → Outcome (P.State × HeapT × Mem × Ptr)
unfolding heap_alloc
heap_palloc P fuel s h m = heap_alloc P fuel s h m 4096 true

pub heap_psalloc :
    (P : Pager) → ℕ → P.State → HeapT → Mem → ℕ → Outcome (P.State × HeapT × Mem × Ptr)
unfolding heap_alloc
heap_psalloc P fuel s h m pages = heap_alloc P fuel s h m (4096 * pages) true

-- A step of heap_free: a magic number is wrong, or the block to free now starts at `hdr`.
pub data Checked : Type 0 where
  corrupted : HeapT → Mem → Checked
  passed : HeapT → Mem → Ptr → Checked

pub free_start : HeapT → Ptr → Mem → Checked
free_start h hdr m =
    if not (hdr_magic_of m hdr == hdr_magic)
    then corrupted h m
    else if not (ftr_magic_of m (hdr + hdr_size m hdr - sizeof_ftr) == ftr_magic)
    then corrupted h m
    else passed h (set_hole hdr 1 m) hdr

pub merge_prev : HeapT → Ptr → Mem → Checked
merge_prev h hdr m =
    let prev_ftr = hdr - sizeof_ftr in
    let prev_hdr = ftr_hdr m prev_ftr in
    let ftr = hdr + hdr_size m hdr - sizeof_ftr in
    if not (ltb h.start hdr)
    then passed h m hdr
    else if not (ftr_magic_of m prev_ftr == ftr_magic)
    then corrupted h m
    else if not (hdr_magic_of m prev_hdr == hdr_magic)
    then corrupted h m
    else if hdr_hole m prev_hdr == 0
    then passed h m hdr
    else let m1 = set_size prev_hdr (hdr_size m prev_hdr + hdr_size m hdr) m in
      let m2 = store32 m1 ftr prev_hdr in
      passed (record h { index = (oarray_del_value h.index prev_hdr).0 }) m2 prev_hdr

pub merge_next : HeapT → Ptr → Mem → Checked
merge_next h hdr m =
    let next_hdr = hdr + hdr_size m hdr in
    let next_ftr = next_hdr + hdr_size m next_hdr - sizeof_ftr in
    if not (ltb next_hdr h.end)
    then passed h m hdr
    else if not (hdr_magic_of m next_hdr == hdr_magic)
    then corrupted h m
    else if hdr_hole m next_hdr == 0
    then passed h m hdr
    else if not (ftr_magic_of m next_ftr == ftr_magic)
    then corrupted h m
    else let m1 = set_size hdr (hdr_size m hdr + hdr_size m next_hdr) m in
      let m2 = store32 m1 next_ftr hdr in
      passed (record h { index = (oarray_del_value h.index next_hdr).0 }) m2 hdr

infixl 5 ◌>>=◌
abbrev ◌>>=◌ : Checked → (HeapT → Ptr → Mem → Checked) → Checked
corrupted h m >>= f = corrupted h m
passed h m hdr >>= f = f h hdr m

abbrev pub free_end : Checked → HeapT × Mem × Bool
free_end (corrupted h m) = (h, m, false)
free_end (passed h m hdr) = let (h', added) = index_add m h hdr in (h', m, added)

pub heap_free : HeapT → Ptr → Mem → HeapT × Mem × Bool
unfolding free_start merge_prev merge_next
heap_free h addr m = free_end (free_start h (addr - sizeof_hdr) m >>= merge_prev >>= merge_next)
