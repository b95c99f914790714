-- ===== src/Heap/Keeps.antt =====
-- lib/heap.c: the end of heap_alloc keeps the invariant of the heap.
use mathlib.Core.List.{Perm, perm_middle}
use mathlib.Core.List.Perm
use mathlib.Core.Path.{subst}
use jonix.Base.{
  ℕ, ◌+◌, ◌-◌, ◌<◌, ◌≤◌, ◌≡◌, ◌^◌, inl, inr, refl, sym, ap, ◌∙◌, true, List, [], ◌∷◌, ◌++◌, leb,
  if◌then◌else◌, Ptr, Mem, arith, Bool-cases,
}
use jonix.Util.OArray.{OArray, oarray_del}
use jonix.Util.OArray.View.{items, insert-perm}
use jonix.Util.OArray.Add.{oarray_add-insert}
use jonix.Util.OArray.Remove.{oarray_del-perm, mem-items}
use jonix.Heap.{HeapT, give, hdr_size, index_add, sizeof_ftr, cmp_size}
use jonix.Heap.Tags.{Block, Tiled, holes, Same, Outside, total, Tiled-Same}
use jonix.Heap.Alloc.{split, Given, give-Given}
use jonix.Heap.Inv.{HeapInv, At, mem-At, holes-append, Tiled-replace}

-- The index once the hole at slot `k` is out of it.
abbrev pub without : HeapT → ℕ → HeapT
without h k = record h { index = oarray_del h.index k }

-- What the invariant says once the hole is out of the index, before its tags change.
record Taken (h : HeapT) (k a : ℕ) (xs ys : List Ptr) : Type 0 where
  indexed : Perm (items (oarray_del h.index k)) (xs ++ ys)
  space : (oarray_del h.index k).size < (oarray_del h.index k).max_size
  small : (oarray_del h.index k).max_size < 2 ^ 32

taken :
    (h : HeapT) (m : Mem) (bs : List Block) (k : ℕ) (xs ys : List Ptr)
    → HeapInv h m bs
    → k < h.index.size
    → holes h.start bs ≡ xs ++ h.index.array k ∷ ys
    → Taken h k (h.index.array k) xs ys
taken h m bs k xs ys inv lt e =
    let (perm, size, max) = oarray_del-perm h.index k (omega (arith, inv.room, inv.small)) lt in
    record {
      indexed = Perm.cons_inv (
          Perm.trans (Perm.symm perm) (
            Perm.trans inv.indexed (
              subst (λ (l : List Ptr). Perm l (h.index.array k ∷ (xs ++ ys))) (sym e)
                (perm_middle xs ys))));
      space = omega (arith, inv.room, size, max);
      small = omega (arith, inv.small, max);
    }

pub Tiled-total :
    (m : Mem) (a : Ptr) (bs : List Block) (e : Ptr) → Tiled m a bs e → e ≡ a + total bs
Tiled-total m a [] e t = omega (arith, t)
Tiled-total m a (b ∷ bs) e t = omega (arith, Tiled-total m (a + b.size) bs e t.1)

-- A block of `n` bytes, tags included, is given away at address `p`: the hole that it is taken from
-- is split, and only bytes of that hole change.
pub record Allocation (h : HeapT) (m : Mem) (bs : List Block) (n : ℕ) (h' : HeapT) (m' : Mem)
    (p : Ptr) : Type 0 where
  pub before : List Block
  pub this : Block
  pub after : List Block
  pub whole : bs ≡ before ++ this ∷ after
  pub free : this.hole ≡ true
  pub large : n ≤ this.size
  pub payload : p ≡ h.start + total before + 12
  pub inv : HeapInv h' m' (before ++ (split this n ++ after))
  pub outside : Outside (h.start + total before) this.size m m'
  pub start : h'.start ≡ h.start
  pub end : h'.end ≡ h.end

-- The index after `give` holds what is left of the hole.
given-indexed :
    (h : HeapT) (m' : Mem) (k a n : ℕ) (b : Block) (xs ys : List Ptr)
    → Taken h k a xs ys
    → (o : OArray) × ((if leb b.size (n + 20)
          then without h k
          else (index_add m' (without h k) (a + n)).0)
        ≡ record h { index = o })
      × Perm (items o) (xs ++ (holes a (split b n) ++ ys))
      × (o.size ≤ o.max_size)
      × (o.max_size < 2 ^ 32)
given-indexed h m' k a n b xs ys t = elim (Bool-cases (leb b.size (n + 20))) [
  | inl whole ↦ rw whole (_, refl, t.indexed, omega (arith, t.space), t.small)
  | inr cut ↦
      let o = oarray_del h.index k in
      let (g, e, s, d) = oarray_add-insert (cmp_size m') o (a + n) t.space in
      rw (cut, e)
        (
          _,
          refl,
          subst (λ (l : List Ptr). Perm l (xs ++ (a + n) ∷ ys)) (sym s)
              (Perm.trans (insert-perm (cmp_size m') (a + n) (items o))
                (Perm.trans (Perm.cons (a + n) t.indexed) (Perm.symm (perm_middle xs ys)))),
          omega (arith, t.space),
          t.small,
        )
]

-- What the hole becomes is put in its place among the blocks.
Given-HeapInv :
    (h h' : HeapT) (m m' : Mem) (bs : List Block) (k n p : ℕ)
    → HeapInv h m bs
    → (at : At m h.start bs h.end (h.index.array k))
    → Taken h k
        (h.index.array k)
        (holes h.start at.before)
        (holes (h.index.array k + at.this.size) at.after)
    → Given (without h k) m (h.index.array k) at.this n h' m' p
    → HeapInv h' m' (at.before ++ (split at.this n ++ at.after))
      × (h'.start ≡ h.start)
      × (h'.end ≡ h.end)
Given-HeapInv h h' m m' bs k n p inv at t given =
    let a = h.index.array k in
    let b = at.this in
    let (o, e, indexed, room, small) = given-indexed h m' k a n b _ _ t in
    let same_l : Same m m' h.start a = λ q lo hi. given.outside q (inr (omega arith)) in
    let same_r : Same m m' (a + b.size) h.end = λ q lo hi. given.outside q (inl (omega arith)) in
    let left = Tiled-Same m m' h.start at.before a same_l at.left in
    subst
      (λ (x : HeapT).
        HeapInv x m' (at.before ++ (split b n ++ at.after)) × (x.start ≡ h.start) × (x.end ≡ h.end))
      (sym (given.index ∙ e))
      (
        record {
          low = inv.low;
          tiled =
              Tiled-replace m m' h.start a (a + b.size) h.end at.before (split b n) at.after at.left
                given.tiled at.right same_l same_r;
          indexed =
              subst (Perm (items o))
                (sym (
                  holes-append m' h.start at.before (split b n ++ at.after) a left
                  ∙ ap (λ (l : List Ptr). holes h.start at.before ++ l)
                      (holes-append m' a (split b n) at.after (a + b.size) given.tiled)))
                indexed;
          room = room;
          small = small;
        },
        refl,
        refl,
      )

-- The end of heap_alloc at slot `k` of the index, if that hole is large enough for the size and the
-- tags: it keeps the invariant of the heap, with that hole split.
pub give-HeapInv :
    (h : HeapT) (m : Mem) (bs : List Block) (k size : ℕ)
    → HeapInv h m bs
    → k < h.index.size
    → size + 20 ≤ hdr_size m (h.index.array k)
    → (h' : HeapT) × (m' : Mem) × (p : Ptr) × (let a = h.index.array k in
        give (without h k) m a (a + hdr_size m a - sizeof_ftr) size (size + 20) ≡ (h', m', p))
      × Allocation h m bs (size + 20) h' m' p
      × (p ≡ h.index.array k + 12)
give-HeapInv h m bs k size inv lt large =
    let a = h.index.array k in
    let at = mem-At a inv (mem-items h.index k lt) in
    let b = at.this in
    let n = size + 20 in
    let fits : n ≤ b.size = omega (arith, large, at.here.hdr.size) in
    let below = Tiled-total m h.start at.before a at.left in
    let (h', m', p, e, given) =
      give-Given (without h k) m a b size at.here (omega (arith, below, inv.low)) fits in
    let order : holes h.start bs ≡ holes h.start at.before ++ a ∷ holes (a + b.size) at.after =
      ap (holes h.start) at.whole
      ∙ holes-append m h.start at.before (b ∷ at.after) a at.left
      ∙ rw at.is_hole refl in
    let (inv', start, end) =
      Given-HeapInv h h' m m' bs k n p inv at (taken h m bs k _ _ inv lt order) given in
    (
      h',
      m',
      p,
      subst (λ (s : ℕ). give (without h k) m a (a + s - sizeof_ftr) size n ≡ (h', m', p))
          (sym at.here.hdr.size) e,
      record {
        before = at.before;
        this = b;
        after = at.after;
        whole = at.whole;
        free = at.is_hole;
        large = fits;
        payload = omega (arith, given.payload, below);
        inv = inv';
        outside = subst (λ (x : Ptr). Outside x b.size m m') below given.outside;
        start = start;
        end = end;
      },
      given.payload,
    )
