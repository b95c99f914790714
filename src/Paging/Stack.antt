-- ===== src/Paging/Stack.antt =====
-- lib/mem.c: a page that is freed is the next that is given.
use mathlib.Core.Path.{subst}
use jonix.Base.{
  ℕ, zero, suc, ◌+◌, ◌-◌, ◌*◌, ◌≡◌, ◌≢◌, inl, inr, ◌<◌, ◌≤◌, refl, ◌∙◌, Ptr, true, false, ltb, ◌==◌,
  arith, Bool-cases, eq→==, ne→==,
}
use jonix.Paging.{PageStack, Paging, ms_ppalloc, ms_push, ppalloc, ppfree, store_word, fill_stack}

-- The page on top of a stack, and the pointer, are those from before it was freed and given again.
ms_ppalloc-ms_push :
    (s : PageStack) (addr : ℕ)
    → 4 ≤ s.ptr
    → s.ptr ≤ s.base
    → ms_ppalloc (ms_push s addr) ≡ (addr, record s { slot = store_word s.slot (s.ptr - 4) addr })
unfolding ms_ppalloc ms_push
ms_ppalloc-ms_push s addr lo hi =
    let free : (s.ptr - 4 == s.base) ≡ false = ground arith in
    let back : s.ptr - 4 + 4 ≡ s.ptr = omega arith in
    let top : store_word s.slot (s.ptr - 4) addr (s.ptr - 4) ≡ addr = ground arith in
    rw (free, back, top) refl

-- ppalloc after ppfree gives the page that was freed, if it is a page of the second stack, or the
-- second stack is empty. The two stacks then point where they did.
pub ppalloc-ppfree :
    (p : Paging) (addr : ℕ)
    → addr ≢ 0
    → 4 ≤ p.ms1.ptr
    → p.ms1.ptr ≤ p.ms1.base
    → 4 ≤ p.ms2.ptr
    → p.ms2.ptr ≤ p.ms2.base
    → (addr < 0x1000000 → p.ms2.ptr ≡ p.ms2.base)
    → ((ppalloc (ppfree p addr)).0 ≡ addr)
      × ((ppalloc (ppfree p addr)).1.ms1.ptr ≡ p.ms1.ptr)
      × ((ppalloc (ppfree p addr)).1.ms2.ptr ≡ p.ms2.ptr)
unfolding ppalloc ppfree ms_ppalloc
ppalloc-ppfree p addr page lo1 hi1 lo2 hi2 empty = elim (Bool-cases (ltb addr 0x1000000)) [
  | inl low ↦
      let none_left : (p.ms2.ptr == p.ms2.base) ≡ true = eq→== _ _ (empty (ground arith)) in
      rw (low, ms_ppalloc-ms_push p.ms1 addr lo1 hi1, none_left, ne→== _ _ page) (refl, refl, refl)
  | inr high ↦ rw (high, ms_ppalloc-ms_push p.ms2 addr lo2 hi2, ne→== _ _ page) (refl, refl, refl)
]

-- `n` pages are on the stack, the one that was put there last on top.
pub record Filled (n : ℕ) (s : PageStack) : Type 0 where
  pub ptr : s.ptr + 4 * n ≡ s.base
  pub pages : (j : ℕ) → j < n → s.slot (s.base - 4 * (j + 1)) ≡ s.base + j * 4096

fill_stack-from :
    (left i : ℕ) (s : PageStack)
    → 4 * (i + left) ≤ s.base
    → Filled i s
    → Filled (i + left) (fill_stack left i s) × ((fill_stack left i s).base ≡ s.base)
unfolding fill_stack
fill_stack-from zero i s room f =
    (record { ptr = omega (arith, f.ptr); pages = λ j lt. f.pages j (omega arith) }, refl)
fill_stack-from (suc left) i s room f =
    let s' : PageStack = record s {
      ptr = s.ptr - 4;
      slot = store_word s.slot (s.ptr - 4) (s.base + i * 4096);
    } in
    let next : Filled (i + 1) s' = record {
      ptr = omega (arith, f.ptr);
      pages = λ j lt. ground (arith, f.ptr, f.pages j);
    } in
    let (filled, base) = fill_stack-from left (i + 1) s' (omega arith) next in
    (
      subst (λ (n : ℕ). Filled n (fill_stack left (i + 1) s')) {x = i + 1 + left} (omega arith)
          filled,
      base,
    )

-- The loops of mem_init put the `n` pages from the base of the stack on it, below that base.
pub fill_stack-Filled :
    (n base : ℕ) (slot : Ptr → ℕ)
    → 4 * n ≤ base
    → Filled n (fill_stack n 0 (record { base = base; ptr = base; slot = slot }))
fill_stack-Filled n base slot room =
    let s : PageStack = record { base = base; ptr = base; slot = slot } in
    let start : Filled 0 s = record { ptr = omega arith; pages = λ j lt. absurd (omega arith) } in
    let (filled, e) = fill_stack-from n 0 s (omega arith) start in
    subst (λ (k : ℕ). Filled k (fill_stack n 0 s)) {x = 0 + n} (omega arith) filled

pub fill_stack-base : (left i : ℕ) (s : PageStack) → (fill_stack left i s).base ≡ s.base
unfolding fill_stack
fill_stack-base zero i s = refl
fill_stack-base (suc left) i s = fill_stack-base left (i + 1) _

-- Words below the stack are left alone.
pub fill_stack-below :
    (left i : ℕ) (s : PageStack) (q : Ptr)
    → 4 * left ≤ s.ptr
    → q < s.ptr - 4 * left
    → (fill_stack left i s).slot q ≡ s.slot q
unfolding fill_stack
fill_stack-below zero i s q room below = refl
fill_stack-below (suc left) i s q room below =
    let other : q == s.ptr - 4 ≡ false = ground (arith, room, below) in
    fill_stack-below left (i + 1) _ q (omega (arith, room)) (omega (arith, room, below))
    ∙ rw other refl
