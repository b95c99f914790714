-- ===== src/Paging/Tests.antt =====
-- lib/mem.c, the pages, at concrete stacks and tables.
use jonix.Base.{
  ◌<◌, ◌+◌, ◌-◌, ◌*◌, ◌/◌, ◌^◌, ltb, ◌≡◌, ◌==◌, if◌then◌else◌, refl, true, false, arith,
}
use jonix.Paging.{
  PageStack, Paging, present, fill_stack, ppalloc, ppfree, pmap, addr_v2p, ms_ppalloc, with_table,
  pmap_entry,
}
use jonix.Paging.Stack.{ppalloc-ppfree}
use jonix.Paging.Boot.{mem_init_paging, mem_init_ms2, move_stack}
use jonix.Paging.Boot.Translate.{translate, entry_of}
use jonix.Paging.Boot.Init.{
  low_pages, mem_init_paging-translate, mem_init_paging-present, move_stack-translate,
}
use jonix.Paging.Map.{addr_v2p-pmap}

abbrev ms1_empty : PageStack
ms1_empty = record { base = 0x200000; ptr = 0x200000; slot = λ a. 0 }

-- One page is left on the second stack.
abbrev ms2_one : PageStack
ms2_one = record { base = 0x300000; ptr = 0x2FFFFC; slot = λ a. 0x1400000 }

-- No page table is there.
abbrev empty_tables : Paging
empty_tables = record { ms1 = ms1_empty; ms2 = ms2_one; word = λ a. 0 }

-- The page table of the addresses from 0x400000 on is there, with its first page.
abbrev one_table : Paging
one_table = record {
  ms1 = ms1_empty;
  ms2 = ms2_one;
  word = λ a. if a == 0xFFFFF004 then 0x1400003 else if a == 0xFFC01000 then 0x5003 else 0;
}

ppalloc-ppfree_example :
    ((ppalloc (ppfree empty_tables 0x1500000)).0 ≡ 0x1500000)
    × ((ppalloc (ppfree empty_tables 0x1500000)).1.ms1.ptr ≡ 0x200000)
    × ((ppalloc (ppfree empty_tables 0x1500000)).1.ms2.ptr ≡ 0x2FFFFC)
ppalloc-ppfree_example =
    ppalloc-ppfree empty_tables 0x1500000 (λ e. omega (arith, e)) (omega arith) (omega arith)
      (omega arith) (omega arith) (λ lt. absurd (omega (arith, lt)))

addr_v2p-pmap_example : addr_v2p (pmap empty_tables 0x6000 0x400000 true false).0 0x400123 ≡ 0x6123
unfolding pmap with_table pmap_entry ppalloc ms_ppalloc
addr_v2p-pmap_example =
    addr_v2p-pmap empty_tables 0x6000 0x400000 0x123 true false refl (omega arith)

-- A kernel that ends at 1.5 MB, in a memory of 1 GB: a page of the kernel, and one of the second stack.
mem_init_paging-translate_example :
    translate
      (mem_init_paging 0x180000 0x100000 (λ q. 7)).word
      (mem_init_paging 0x180000 0x100000 (λ q. 7)).dir
      0x1A0123
    ≡ (if ltb 0x1A0123 (4096 * low_pages 0x180000)
        then 0x1A0123
        else 4096 * 4096 + (0x1A0123 - 4096 * low_pages 0x180000))
mem_init_paging-translate_example =
    mem_init_paging-translate 0x180000 0x100000 (λ q. 7) (omega arith) (omega arith) (omega arith)
      0x1A0123 (omega arith)

mem_init_paging-present_example :
    (present (
        (mem_init_paging 0x180000 0x100000 (λ q. 7)).word
          ((mem_init_paging 0x180000 0x100000 (λ q. 7)).dir + 4 * (0x100123 / 2 ^ 22)))
      ≡ true)
    × (present (
          entry_of
            (mem_init_paging 0x180000 0x100000 (λ q. 7)).word
            (mem_init_paging 0x180000 0x100000 (λ q. 7)).dir
            0x100123)
        ≡ true)
mem_init_paging-present_example =
    mem_init_paging-present 0x180000 0x100000 (λ q. 7) (omega arith) (omega arith) (omega arith)
      0x100123 (omega arith)

-- Of a memory of 16 MB and 32 kB, 7 pages are on the second stack.
on_stack : (mem_init_ms2 0x4020 (λ p. 0)).ptr + 4 * 2 < (mem_init_ms2 0x4020 (λ p. 0)).base
unfolding mem_init_ms2 fill_stack
on_stack = omega arith

-- The third page from the top.
move_stack-translate_example :
    translate
      (mem_init_paging 0x180000 0x4020 (λ q. 7)).word
      (mem_init_paging 0x180000 0x4020 (λ q. 7)).dir
      ((move_stack (4096 * low_pages 0x180000) (mem_init_ms2 0x4020 (λ p. 0))).ptr + 4 * 2)
    ≡ (mem_init_ms2 0x4020 (λ p. 0)).ptr + 4 * 2
move_stack-translate_example =
    move_stack-translate 0x180000 0x4020 (λ q. 7) (omega arith) (omega arith) (omega arith) (λ p. 0)
      2 on_stack
