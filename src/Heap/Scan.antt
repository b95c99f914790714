-- ===== src/Heap/Scan.antt =====
-- lib/heap.c: the search of heap_alloc without page alignment.
use mathlib.Core.Path.{subst}
use native.Mathlib.Decide.{ℕ_discrete}
use jonix.Base.{
  ℕ, zero, suc, ◌+◌, ◌-◌, ◌<◌, ◌≤◌, ◌≡◌, ◌⊎◌, inl, inr, refl, sym, false, some, none, leb, Mem,
  arith, Bool-cases, leb→le, leb→lt,
}
use jonix.Util.OArray.{oarray_get}
use jonix.Heap.{HeapT, done, give, scan, hdr_size, sizeof_ftr}
use jonix.Heap.Keeps.{without}

module _ (h : HeapT) (m : Mem) where
  -- The size of the hole at slot `k` of the index.
  abbrev pub size_at : ℕ → ℕ
  size_at k = hdr_size m (h.index.array k)

  -- Slot `k` is the first from `i` on whose hole has `hf` bytes.
  pub record First (i hf k : ℕ) : Type 0 where
    pub from : i ≤ k
    pub large : hf ≤ size_at k
    pub small : (j : ℕ) → i ≤ j → j < k → size_at j < hf

  -- The search without page alignment ends at the first slot whose hole is large enough, and gives
  -- that hole, or every hole is too small and it finds none.
  pub scan-First :
      (left i size hf : ℕ)
      → ((scan left i h m size hf false ≡ done none)
          × ((j : ℕ) → i ≤ j → j < i + left → size_at j < hf))
        ⊎ ((k : ℕ) × First i hf k
            × (k < i + left)
            × (let a = h.index.array k in
                scan left i h m size hf false
                ≡ done (some (give (without h k) m a (a + hdr_size m a - sizeof_ftr) size hf))))
  unfolding scan oarray_get
  scan-First zero i size hf = inl (refl, λ j lo hi. absurd (omega arith))
  scan-First (suc left) i size hf = elim (Bool-cases (leb hf (size_at i))) [
    | inl fits ↦ inr (
      i,
      record {
        from = omega arith;
        large = leb→le _ _ fits;
        small = λ j lo hi. absurd (omega arith);
      },
      omega arith,
      rw fits refl,
    )
    | inr less ↦
        let small : (j : ℕ) → j ≡ i → size_at j < hf =
          λ j e. subst (λ (x : ℕ). size_at x < hf) (sym e) (leb→lt _ _ less) in
        elim (scan-First left (i + 1) size hf) [
          | inl missing ↦ inl (
            rw less missing.0,
            λ j lo hi. elim (ℕ_discrete j i) [
              | yes e ↦ small j e
              | no ne ↦ missing.1 j (omega (arith, ne)) (omega arith)
            ],
          )
          | inr (k, first, lt, e) ↦ inr (
            k,
            record {
              from = omega (arith, first.from);
              large = first.large;
              small = λ j lo hi. elim (ℕ_discrete j i) [
                | yes e ↦ small j e
                | no ne ↦ first.small j (omega (arith, ne)) hi
              ];
            },
            omega arith,
            rw less e,
          )
        ]
  ]
