-- ===== src/Paging/Boot.antt =====
-- lib/mem.c: the page directory and the page tables that mem_init makes before paging is on. `word` is
-- physical memory by words, and the stack of pages is apart from it.
pub mod Identity
pub mod Translate
pub mod Init
use jonix.Base.{ℕ, zero, suc, ◌+◌, ◌-◌, ◌*◌, ◌/◌, ◌%◌, ◌^◌, ◌==◌, if◌then◌else◌, Ptr, in_range}
use jonix.Paging.{PageStack, store_word, fill_stack}

-- The variables of mem_init while it makes the tables.
pub record Build : Type 0 where
  pub ms1 : PageStack
  pub word : Ptr → ℕ
  pub dir : Ptr
  pub dir_ind : ℕ
  pub pt : Ptr
  pub j : ℕ

-- `*(memstack1_ptr++)`.
abbrev pub pop_page : PageStack → ℕ × PageStack
pop_page s = (s.slot s.ptr, record s { ptr = s.ptr + 4 })

-- A new page table, which goes into the page directory with the flags.
unfoldable pub next_table : ℕ → Build → Build
next_table flags b =
    let (pt, ms1) = pop_page b.ms1 in
    record {
      ms1 = ms1;
      word = store_word b.word (b.dir + 4 * b.dir_ind) (pt + flags);
      dir = b.dir;
      dir_ind = b.dir_ind + 1;
      pt = pt;
      j = 0;
    }

-- An entry of the page table, for page `i` behind `base`.
unfoldable pub map_entry : ℕ → ℕ → Build → Build
map_entry base i b = record b {
  word = store_word b.word (b.pt + 4 * b.j) (base + 4096 * i + 3);
  j = b.j + 1;
}

-- The loops over the pages, with `left` to go from page `i` on. A new table gets `flags`.
unfoldable pub map_pages : ℕ → ℕ → ℕ → ℕ → Build → Build
map_pages flags base zero i b = b
map_pages flags base (suc left) i b =
    map_pages flags base left (i + 1)
      (map_entry base i (if b.j == 1024 then next_table flags b else b))

abbrev pub zero_words : Ptr → ℕ → (Ptr → ℕ) → Ptr → ℕ
zero_words p n word q = if in_range p (4 * n) q then 0 else word q

-- The directory and the first table.
unfoldable pub start_tables : PageStack → (Ptr → ℕ) → Build
start_tables ms1 word =
    let (dir, ms1') = pop_page ms1 in
    next_table 3 (record { ms1 = ms1'; word = word; dir = dir; dir_ind = 0; pt = 0; j = 0 })

-- The rest of the last table and of the directory, whose last entry is the directory itself.
unfoldable pub end_tables : Build → Build
end_tables b =
    let word = zero_words (b.pt + 4 * b.j) (1024 - b.j) b.word in
    let word' = zero_words (b.dir + 4 * b.dir_ind) (1023 - b.dir_ind) word in
    record b { word = store_word word' (b.dir + 4 * 1023) (b.dir + 3) }

-- All of it: `low` pages from 0 on, and behind them the `high` pages of the second stack from 16 MB on.
unfoldable pub mem_init_tables : ℕ → ℕ → PageStack → (Ptr → ℕ) → Build
mem_init_tables low high ms1 word =
    end_tables (map_pages 0 (4096 * 4096) high 0 (map_pages 3 0 low 0 (start_tables ms1 word)))

-- The second stack moves with its mapping, to right behind the first one; its pointer counts words.
unfoldable pub move_stack : Ptr → PageStack → PageStack
move_stack base1 s = record s {
  base = s.base + base1 - 4096 * 4096;
  ptr = s.ptr + base1 / 4 * 4 - 4 * (1024 * 4096);
}

-- The first page behind the kernel, which ends at `kmem_end`.
abbrev pub kmem_end_4k : ℕ → ℕ
kmem_end_4k kmem_end = 1 + kmem_end / 4096

-- The pages below 16 MB behind the kernel, and how many of them the first stack takes, an unsigned char.
abbrev pub mem_lt_16 : ℕ → ℕ
mem_lt_16 kmem_end = (4096 + 2 ^ 32 - kmem_end_4k kmem_end) % 2 ^ 32

abbrev pub memstack1_size : ℕ → ℕ
memstack1_size kmem_end = (1 + mem_lt_16 kmem_end / 1024) % 2 ^ 8

-- The same for the memory from 16 MB on; `mem_total` is in kB.
abbrev pub mem_ge_16 : ℕ → ℕ
mem_ge_16 mem_total = (mem_total + 2 ^ 32 - 0x4000) % 2 ^ 32 / 4

abbrev pub memstack2_size : ℕ → ℕ
memstack2_size mem_total = 1 + mem_ge_16 mem_total / 1024

abbrev pub empty_stack : Ptr → (Ptr → ℕ) → PageStack
empty_stack base slot = record { base = base; ptr = base; slot = slot }

unfoldable pub mem_init_ms1 : ℕ → (Ptr → ℕ) → PageStack
mem_init_ms1 kmem_end slot =
    let size = memstack1_size kmem_end in
    fill_stack ((mem_lt_16 kmem_end + 2 ^ 32 - size) % 2 ^ 32) 0
      (empty_stack (4096 * (kmem_end_4k kmem_end + size)) slot)

unfoldable pub mem_init_ms2 : ℕ → (Ptr → ℕ) → PageStack
mem_init_ms2 mem_total slot =
    let size = memstack2_size mem_total in
    fill_stack ((mem_ge_16 mem_total + 2 ^ 32 - size) % 2 ^ 32) 0
      (empty_stack (4096 * (4096 + size)) slot)

-- mem_init up to the switch to paging, over the words of physical memory: the two stacks are filled one
-- after the other, and the tables take their pages from the first one. The table pages are apart from it.
unfoldable pub mem_init_paging : ℕ → ℕ → (Ptr → ℕ) → Build
mem_init_paging kmem_end mem_total word =
    let ms1 = mem_init_ms1 kmem_end word in
    let ms2 = mem_init_ms2 mem_total ms1.slot in
    mem_init_tables (kmem_end_4k kmem_end + memstack1_size kmem_end) (memstack2_size mem_total)
      (record ms1 { slot = ms2.slot }) ms2.slot
