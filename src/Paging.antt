-- ===== src/Paging.antt =====
-- lib/mem.c: the stacks of free physical pages, and the page tables in the last 4 MB of virtual
-- memory. A mask of low bits is a remainder, and `|` of fields that share no bit is a sum.
pub mod Stack
pub mod Map
pub mod Boot
mod Tests
use jonix.Base.{
  ℕ, zero, suc, ◌+◌, ◌-◌, ◌*◌, ◌/◌, ◌%◌, ◌^◌, Bool, true, false, not, ◌&&◌, ◌||◌, ltb, ◌==◌,
  if◌then◌else◌, Ptr, bit_or, u32_mod, in_range,
}

-- A stack of page addresses: the memory of its words, and the two pointers into it.
pub record PageStack : Type 0 where
  pub base : Ptr
  pub ptr : Ptr
  pub slot : Ptr → ℕ

-- The two stacks, and the words of the page tables by virtual address.
pub record Paging : Type 0 where
  pub ms1 : PageStack
  pub ms2 : PageStack
  pub word : Ptr → ℕ

abbrev pub vpage_tables : Ptr
vpage_tables = 0xFFC00000

abbrev pub vpage_dir : Ptr
vpage_dir = 0xFFFFF000

abbrev pub store_word : (Ptr → ℕ) → Ptr → ℕ → Ptr → ℕ
store_word f p v q = if q == p then v else f q

-- The loops of mem_init that fill a stack downwards, from the page `base + i * 4096` on.
pub fill_stack : ℕ → ℕ → PageStack → PageStack
fill_stack zero i s = s
fill_stack (suc left) i s =
    fill_stack left (i + 1)
      (record s { ptr = s.ptr - 4; slot = store_word s.slot (s.ptr - 4) (s.base + i * 4096) })

-- ms1_ppalloc and ms2_ppalloc.
pub ms_ppalloc : PageStack → ℕ × PageStack
ms_ppalloc s = if s.ptr == s.base then (0, s) else (s.slot s.ptr, record s { ptr = s.ptr + 4 })

pub ppalloc : Paging → ℕ × Paging
unfolding ms_ppalloc
ppalloc p =
    let (page2, ms2) = ms_ppalloc p.ms2 in
    let (page1, ms1) = ms_ppalloc p.ms1 in
    if not (page2 == 0)
    then (page2, record p { ms2 = ms2 })
    else if not (page1 == 0)
    then (page1, record p { ms1 = ms1; ms2 = ms2 })
    else (0, record p { ms1 = ms1; ms2 = ms2 })

pub ms_push : PageStack → ℕ → PageStack
ms_push s addr = record s { ptr = s.ptr - 4; slot = store_word s.slot (s.ptr - 4) addr }

pub ppfree : Paging → ℕ → Paging
unfolding ms_push
ppfree p addr =
    if ltb addr 0x1000000
    then record p { ms1 = ms_push p.ms1 addr }
    else record p { ms2 = ms_push p.ms2 addr }

abbrev pub pd_index : ℕ → ℕ
pd_index virt = virt / 2 ^ 22

abbrev pub pt_index : ℕ → ℕ
pt_index virt = virt / 2 ^ 12 % 1024

-- Where the entry of a page directory and that of a page table are.
abbrev pub pd_entry : ℕ → Ptr
pd_entry virt = vpage_dir + 4 * pd_index virt

abbrev pub page_table : ℕ → Ptr
page_table virt = vpage_tables + 4096 * pd_index virt

abbrev pub pt_entry : ℕ → Ptr
pt_entry virt = page_table virt + 4 * pt_index virt

abbrev pub present : ℕ → Bool
present entry = entry % 2 == 1

abbrev pub flags_of : Bool → Bool → ℕ
flags_of rw_flag user = 1 + (if rw_flag then 2 else 0) + (if user then 4 else 0)

-- `memset(pt, 0, 4096)`, over words.
abbrev pub zero_page : (Ptr → ℕ) → Ptr → Ptr → ℕ
zero_page f pt q = if in_range pt 4096 q then 0 else f q

-- The end of pmap, once there is a page table: an entry that is not yet present is set.
pub pmap_entry : Paging → ℕ → ℕ → ℕ → Paging × Bool
pmap_entry p phys virt flags =
    if present (p.word (pt_entry virt))
    then (p, false)
    else (record p { word = store_word p.word (pt_entry virt) (phys + flags) }, true)

-- The middle of pmap: the page table of the page is there, or a physical page becomes that table.
pub with_table : Paging → ℕ → ℕ → Paging × Bool
unfolding ppalloc
with_table p virt flags =
    if present (p.word (pd_entry virt))
    then (p, true)
    else let (phys_pt, p') = ppalloc p in
      if phys_pt == 0
      then (p', false)
      else let word = store_word p'.word (pd_entry virt) (bit_or phys_pt flags) in
        (record p' { word = zero_page word (page_table virt) }, true)

pub pmap : Paging → ℕ → ℕ → Bool → Bool → Paging × Bool
unfolding with_table pmap_entry
pmap p phys virt rw_flag user =
    let (p', ready) = with_table p virt (flags_of rw_flag user) in
    if not (phys % 4096 == 0) || not (virt % 4096 == 0)
    then (p, false)
    else if not ready
    then (p', false)
    else pmap_entry p' phys virt (flags_of rw_flag user)

pub palloc_at_v : Paging → ℕ → Bool → Bool → Paging × Bool
unfolding ppalloc pmap
palloc_at_v p virt rw_flag user =
    let (phys, p') = ppalloc p in if phys == 0 then (p', false) else pmap p' phys virt rw_flag user

pub psalloc_at_v : ℕ → Paging → ℕ → Bool → Bool → Paging × Bool
unfolding palloc_at_v
psalloc_at_v zero p virt rw_flag user = (p, true)
psalloc_at_v (suc num) p virt rw_flag user =
    let (p', mapped) = palloc_at_v p virt rw_flag user in
    let rest = psalloc_at_v num p' ((virt + 4096) % u32_mod) rw_flag user in
    if not mapped then (p', false) else rest

pub kpalloc_at_v : Paging → ℕ → Paging × Bool
kpalloc_at_v p virt = palloc_at_v p virt true false

pub kpsalloc_at_v : Paging → ℕ → ℕ → Paging × Bool
kpsalloc_at_v p virt num = psalloc_at_v num p virt true false

-- The index of the page table's entry is masked with 0xFFFF here, not with 0x3FF.
pub kpfree_at_v : Paging → ℕ → Paging × Bool
unfolding ppfree
kpfree_at_v p addr =
    let entry = page_table addr + 4 * (addr / 2 ^ 12 % 2 ^ 16) in
    if not (addr % 4096 == 0)
    then (p, false)
    else if not (present (p.word (pd_entry addr)) && present (p.word entry))
    then (p, false)
    else let page = p.word entry - p.word entry % 4096 in
      let p' = ppfree p page in (record p' { word = store_word p'.word entry 0 }, true)

-- The physical address of a virtual one, by the entry of its page table.
pub addr_v2p : Paging → ℕ → ℕ
addr_v2p p v = let entry = p.word (pt_entry v) in entry - entry % 4096 + v % 4096

pub get_page_table_entry_flags : Paging → ℕ → ℕ
get_page_table_entry_flags p addr =
    if not (present (p.word (pd_entry addr))) then 0 else p.word (pt_entry addr)
