-- ===== src/Paging/Boot/Init.antt =====
-- lib/mem.c: mem_init up to the switch to paging, from the sizes of the kernel and of the memory on.
use jonix.Base.{
  ℕ, ◌+◌, ◌-◌, ◌*◌, ◌/◌, ◌%◌, ◌^◌, ◌≤◌, ◌<◌, ◌≡◌, ap, ◌∙◌, true, ltb, if◌then◌else◌, Ptr, arith,
}
use jonix.Paging.{PageStack, present, fill_stack}
use jonix.Paging.Stack.{Filled, fill_stack-Filled, fill_stack-base, fill_stack-below}
use jonix.Paging.Boot.{
  mem_init_paging, mem_init_ms1, mem_init_ms2, mem_ge_16, move_stack, kmem_end_4k, mem_lt_16,
  memstack1_size, memstack2_size, empty_stack,
}
use jonix.Paging.Boot.Identity.{IsPages}
use jonix.Paging.Boot.Translate.{
  translate, entry_of, mem_init_tables-translate, mem_init_tables-present,
}

-- The pages of a stack that fill_stack has filled, from its top.
filled_page : ℕ → ℕ → ℕ → ℕ
filled_page n base k = base + (n - (k + 1)) * 4096

Filled-IsPages :
    (n base : ℕ) (s : PageStack)
    → s.base ≡ base
    → base % 4096 ≡ 0
    → Filled n s
    → IsPages n s (filled_page n base)
unfolding filled_page
Filled-IsPages n base s at whole f = record {
  slot = λ k lt.
      let place : s.ptr + 4 * k ≡ s.base - 4 * (n - (k + 1) + 1) = omega (arith, f.ptr, lt) in
      ap s.slot place
      ∙ f.pages (n - (k + 1)) (omega (arith, lt))
      ∙ ap (λ (x : ℕ). x + (n - (k + 1)) * 4096) at;
  whole = λ k lt. omega (arith, whole);
  once = λ k l kt lt e. omega (arith, kt, lt, e);
}

-- The pages that are left for the first stack.
abbrev pages_of : ℕ → ℕ
pages_of kmem_end = (mem_lt_16 kmem_end + 2 ^ 32 - memstack1_size kmem_end) % 2 ^ 32

abbrev pub low_pages : ℕ → ℕ
low_pages kmem_end = kmem_end_4k kmem_end + memstack1_size kmem_end

module _ (kmem_end mem_total : ℕ) (word : Ptr → ℕ) (kernel : kmem_end < 15 * 2 ^ 20)
    (more : 0x4004 ≤ mem_total) (memory : mem_total < 2 ^ 22) where
  abbrev ms1 : PageStack
  ms1 = mem_init_ms1 kmem_end word

  abbrev ms2 : PageStack
  ms2 = mem_init_ms2 mem_total ms1.slot

  -- The fill of the second stack leaves the first one alone.
  ms1_kept : (q : Ptr) → q < 4096 * 4096 → ms2.slot q ≡ ms1.slot q
  unfolding mem_init_ms2
  ms1_kept q below =
      fill_stack-below ((mem_ge_16 mem_total + 2 ^ 32 - memstack2_size mem_total) % 2 ^ 32) 0
        (empty_stack (4096 * (4096 + memstack2_size mem_total)) ms1.slot) q
        (omega (arith, more, memory)) (omega (arith, more, memory, below))

  ms1-Filled : Filled (pages_of kmem_end) ms1 × (ms1.base ≡ 4096 * low_pages kmem_end)
  unfolding mem_init_ms1
  ms1-Filled =
      let n = pages_of kmem_end in
      let base = 4096 * low_pages kmem_end in
      (
        fill_stack-Filled n base word (omega (arith, kernel)),
        fill_stack-base n 0 (empty_stack base word),
      )

  ms1-IsPages :
      IsPages
        (pages_of kmem_end)
        (record ms1 { slot = ms2.slot })
        (filled_page (pages_of kmem_end) (4096 * low_pages kmem_end))
  ms1-IsPages =
      let (filled, at) = ms1-Filled in
      let own =
        Filled-IsPages (pages_of kmem_end) (4096 * low_pages kmem_end) ms1 at (omega arith)
          filled in
      record {
        slot = λ k lt.
            ms1_kept (ms1.ptr + 4 * k) (omega (arith, filled.ptr, at, lt, kernel)) ∙ own.slot k lt;
        whole = own.whole;
        once = own.once;
      }

  few_pages : low_pages kmem_end + memstack2_size mem_total < 1024 * 1023
  few_pages = omega (arith, kernel, memory)

  enough_pages : low_pages kmem_end + memstack2_size mem_total < 1024 * (pages_of kmem_end - 1)
  enough_pages = omega (arith, kernel, memory, more)

  two_pages : 2 ≤ pages_of kmem_end
  two_pages = omega (arith, kernel)

  -- With the kernel below 15 MB and 16 MB and 16 kB to 4 GB of memory: by the tables that mem_init
  -- makes, the processor finds the pages of the kernel and of the first stack at their own
  -- addresses, and those of the second stack, which begin at 16 MB, right behind them. The flags of
  -- the entries are not looked at here.
  pub mem_init_paging-translate :
      (v : ℕ)
      → v < 4096 * (low_pages kmem_end + memstack2_size mem_total)
      → translate
          (mem_init_paging kmem_end mem_total word).word
          (mem_init_paging kmem_end mem_total word).dir
          v
        ≡ (if ltb v (4096 * low_pages kmem_end)
            then v
            else 4096 * 4096 + (v - 4096 * low_pages kmem_end))
  unfolding mem_init_paging
  mem_init_paging-translate v small =
      mem_init_tables-translate (pages_of kmem_end) (record ms1 { slot = ms2.slot })
        (filled_page (pages_of kmem_end) (4096 * low_pages kmem_end)) ms2.slot (low_pages kmem_end)
        (memstack2_size mem_total) v ms1-IsPages two_pages enough_pages few_pages small

  -- With the kernel below 15 MB and 16 MB and 16 kB to 4 GB of memory: for each address of the
  -- pages of the kernel and of the first stack, the entries of the directory and of the page table
  -- are present.
  pub mem_init_paging-present :
      (v : ℕ)
      → v < 4096 * low_pages kmem_end
      → (present (
            (mem_init_paging kmem_end mem_total word).word
              ((mem_init_paging kmem_end mem_total word).dir + 4 * (v / 2 ^ 22)))
          ≡ true)
        × (present (
              entry_of
                (mem_init_paging kmem_end mem_total word).word
                (mem_init_paging kmem_end mem_total word).dir
                v)
            ≡ true)
  unfolding mem_init_paging
  mem_init_paging-present v small =
      mem_init_tables-present (pages_of kmem_end) (record ms1 { slot = ms2.slot })
        (filled_page (pages_of kmem_end) (4096 * low_pages kmem_end)) ms2.slot (low_pages kmem_end)
        (memstack2_size mem_total) v ms1-IsPages two_pages enough_pages few_pages small

  -- With the kernel below 15 MB and 16 MB and 16 kB to 4 GB of memory: the words of the second
  -- stack of pages, of which mem_init moves the pointers before it uses the stack by virtual
  -- addresses, are found at their old physical addresses by the new tables. The flags of the
  -- entries are not looked at here.
  pub move_stack-translate :
      (slot2 : Ptr → ℕ) (k : ℕ)
      → (mem_init_ms2 mem_total slot2).ptr + 4 * k < (mem_init_ms2 mem_total slot2).base
      → translate
          (mem_init_paging kmem_end mem_total word).word
          (mem_init_paging kmem_end mem_total word).dir
          ((move_stack (4096 * low_pages kmem_end) (mem_init_ms2 mem_total slot2)).ptr + 4 * k)
        ≡ (mem_init_ms2 mem_total slot2).ptr + 4 * k
  unfolding move_stack mem_init_ms2
  move_stack-translate slot2 k on_stack =
      let n = (mem_ge_16 mem_total + 2 ^ 32 - memstack2_size mem_total) % 2 ^ 32 in
      let base = 4096 * (4096 + memstack2_size mem_total) in
      let s = fill_stack n 0 (empty_stack base slot2) in
      let filled = fill_stack-Filled n base slot2 (omega (arith, more, memory)) in
      let at = fill_stack-base n 0 (empty_stack base slot2) in
      let first : 4096 * 4096 ≤ s.ptr = omega (arith, filled.ptr, at, more, memory) in
      mem_init_paging-translate
        (s.ptr + 4096 * low_pages kmem_end / 4 * 4 - 4 * (1024 * 4096) + 4 * k)
        (omega (arith, first, on_stack, at))
      ∙ ground (arith, first)
