-- ===== src/Heap/Inv.antt =====
-- lib/heap.c: the invariant of a heap. The tags tile it, and the index holds its holes.
use mathlib.Core.List.{Perm, Mem}
use mathlib.Core.List.Perm
use mathlib.Core.Path.{subst}
use jonix.Base.{
  ◌+◌, ◌<◌, ◌≤◌, ◌≡◌, ◌^◌, inl, inr, refl, ap, true, List, [], ◌∷◌, ◌++◌, ◌==◌, Ptr, Mem as Memory,
  arith, Bool-cases,
}
use jonix.Util.OArray.View.{items, contains, contains-Mem}
use jonix.Heap.{HeapT}
use jonix.Heap.Tags.{Block, IsBlock, Tiled, holes, Same, Tiled-Same, Tiled-append}

pub record HeapInv (h : HeapT) (m : Memory) (bs : List Block) : Type 0 where
  pub low : 20 ≤ h.start
  pub tiled : Tiled m h.start bs h.end
  pub indexed : Perm (items h.index) (holes h.start bs)
  pub room : h.index.size ≤ h.index.max_size
  pub small : h.index.max_size < 2 ^ 32

-- The block at address `p`, with the blocks before and after it.
pub record At (m : Memory) (a : Ptr) (bs : List Block) (e p : Ptr) : Type 0 where
  pub before : List Block
  pub this : Block
  pub after : List Block
  pub whole : bs ≡ before ++ this ∷ after
  pub left : Tiled m a before p
  pub here : IsBlock m p this
  pub right : Tiled m (p + this.size) after e
  pub is_hole : this.hole ≡ true

At-cons :
    (m : Memory) (a : Ptr) (b : Block) (bs : List Block) (e p : Ptr)
    → IsBlock m a b
    → At m (a + b.size) bs e p
    → At m a (b ∷ bs) e p
At-cons m a b bs e p is at = record {
  before = b ∷ at.before;
  this = at.this;
  after = at.after;
  whole = ap (λ (l : List Block). b ∷ l) at.whole;
  left = (is, at.left);
  here = at.here;
  right = at.right;
  is_hole = at.is_hole;
}

-- Each address among the holes is that of a block.
holes-At :
    (m : Memory) (a : Ptr) (bs : List Block) (e p : Ptr)
    → Tiled m a bs e
    → contains p (holes a bs) ≡ true
    → At m a bs e p
holes-At m a [] e p t c = cc
holes-At m a (b ∷ bs) e p t c = elim (Bool-cases b.hole) [
  | inr used ↦ At-cons m a b bs e p t.0 (holes-At m (a + b.size) bs e p t.1 (ground (arith, used)))
  | inl free ↦ elim (Bool-cases (a == p)) [
    | inr other ↦
        At-cons m a b bs e p t.0 (holes-At m (a + b.size) bs e p t.1 (ground (arith, free, other)))
    | inl same ↦
        let q : a ≡ p = ground arith in
        subst (λ (x : Ptr). At m a (b ∷ bs) e x) q
          (record {
            before = [];
            this = b;
            after = bs;
            whole = refl;
            left = refl;
            here = t.0;
            right = t.1;
            is_hole = free;
          })
  ]
]

pub mem-At :
    {h : HeapT} {m : Memory} {bs : List Block} (p : Ptr)
    → HeapInv h m bs
    → Mem p (items h.index)
    → At m h.start bs h.end p
mem-At {h} {m} {bs} p inv mem =
    holes-At m h.start bs h.end p inv.tiled
      (contains-Mem p (holes h.start bs) ((Perm.mem_iff inv.indexed).0 mem))

pub holes-append :
    (m : Memory) (a : Ptr) (xs ys : List Block) (k : Ptr)
    → Tiled m a xs k
    → holes a (xs ++ ys) ≡ holes a xs ++ holes k ys
holes-append m a [] ys k t = ap (λ (x : Ptr). holes x ys) t
holes-append m a (x ∷ xs) ys k t = elim (Bool-cases x.hole) [
  | inl e ↦ rw (e, holes-append m (a + x.size) xs ys k t.1)
  | inr e ↦ rw (e, holes-append m (a + x.size) xs ys k t.1)
]

-- Blocks put in the place of others keep the heap tiled.
pub Tiled-replace :
    (m m' : Memory) (a p q e : Ptr) (xs mid ys : List Block)
    → Tiled m a xs p
    → Tiled m' p mid q
    → Tiled m q ys e
    → Same m m' a p
    → Same m m' q e
    → Tiled m' a (xs ++ (mid ++ ys)) e
Tiled-replace m m' a p q e xs mid ys l c r same_l same_r =
    Tiled-append m' a xs (mid ++ ys) p e (Tiled-Same m m' a xs p same_l l)
      (Tiled-append m' p mid ys q e c (Tiled-Same m m' q ys e same_r r))
