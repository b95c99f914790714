-- ===== src/Ata/Prdt.antt =====
-- lib/devs/ata.c: the table of physical regions, which must not cross a page.
use jonix.Base.{
  ℕ, zero, suc, ◌+◌, ◌%◌, none, some, true, false, not, leb, ◌==◌, if◌then◌else◌, Ptr, null, Mem,
}
use jonix.CString.{memset}
use jonix.Heap.{Outcome, done, out_of_fuel}
use jonix.Util.LinkedList.{Nodes, ListHead, Allocator, list_new, list_add, list_free}

-- `sizeof(ata_prd_t)`.
abbrev pub sizeof_prd : ℕ
sizeof_prd = 8

abbrev pub prdt_bytes : ℕ
prdt_bytes = 27

abbrev pub prdt_tries : ℕ
prdt_tries = 50

module _ (A : Allocator) where
  -- The end of ata_prdt_new, with a table. The list has at most 50 nodes.
  unfoldable pub prdt_done :
      A.State → Nodes → Mem → ListHead → Ptr → Outcome (A.State × Nodes × Mem × Ptr)
  prdt_done heap nodes m tries prdt =
      elim (list_free A (suc prdt_tries) heap tries nodes true false null) [
        | none ↦ out_of_fuel
        | some heap' ↦ done (heap', nodes, memset prdt 0 sizeof_prd m, prdt)
      ]

  -- The loop, with `left` tries to go. kmalloc zeroes what it returns, also without memory.
  unfoldable pub prdt_loop :
      ℕ → A.State → Nodes → Mem → ListHead → Outcome (A.State × Nodes × Mem × Ptr)
  prdt_loop zero heap nodes m tries = done (heap, nodes, m, null)
  prdt_loop (suc left) heap nodes m tries =
      let (heap1, tmp) = A.kmalloc heap prdt_bytes in
      let m' = memset tmp 0 prdt_bytes m in
      let (heap2, tries', nodes', added) = list_add A heap1 tries nodes tmp in
      let prdt = tmp + tmp % 4 in
      let rest = prdt_loop left heap2 nodes' m' tries' in
      if tmp == null
      then done (heap1, nodes, m', null)
      else if leb (prdt % 4096) 4080
      then prdt_done heap1 nodes m' tries prdt
      else if not added
      then done (heap2, nodes', m', null)
      else rest

  unfoldable pub ata_prdt_new : A.State → Nodes → Mem → Outcome (A.State × Nodes × Mem × Ptr)
  ata_prdt_new heap nodes m = prdt_loop prdt_tries heap nodes m list_new
