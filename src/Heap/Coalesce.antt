-- ===== src/Heap/Coalesce.antt =====
-- lib/heap.c: what the joins of heap_free make of the blocks.
use mathlib.Core.List.{Perm, perm_middle, append_assoc}
use mathlib.Core.List.Perm
use mathlib.Core.Path.{subst}
use jonix.Base.{
  ◌+◌, ◌<◌, ◌≤◌, ◌≡◌, ◌^◌, inl, inr, refl, sym, ap, ◌∙◌, true, false, List, [], ◌∷◌, ◌++◌, ltb,
  if◌then◌else◌, Ptr, Mem, arith, Bool-cases,
}
use jonix.Util.OArray.{oarray_del_value}
use jonix.Util.OArray.View.{items}
use jonix.Util.OArray.Remove.{oarray_del_value-perm}
use jonix.Heap.{HeapT, merge_prev, merge_next, passed}
use jonix.Heap.Tags.{Block, block, IsBlock, Tiled, Tiled-Same, holes, Tiled-le}
use jonix.Heap.Inv.{holes-append}
use jonix.Heap.Join.{joined, joined-IsBlock, joined-Outside, merge_prev-joined, merge_next-joined}

-- A block, then others: joined with the first of them if that is a hole.
unfoldable pub join_next : Block → List Block → List Block
join_next b [] = b ∷ []
join_next b (c ∷ cs) = if c.hole then block (b.size + c.size) b.hole ∷ cs else b ∷ c ∷ cs

-- The blocks once the block between `before` and `after` is freed: it is joined with a hole right
-- before it and with a hole right behind it.
unfoldable pub freed : List Block → Block → List Block → List Block
freed [] this after = join_next this after
freed (b ∷ []) this after =
    if b.hole then join_next (block (b.size + this.size) true) after else b ∷ join_next this after
freed (b ∷ c ∷ bs) this after = b ∷ freed (c ∷ bs) this after

-- In the middle of heap_free: the block at `a` is a hole that is not yet in the index.
pub record Freeing (h : HeapT) (m : Mem) (a : Ptr) (before : List Block) (this : Block)
    (after : List Block) : Type 0 where
  pub low : 20 ≤ h.start
  pub left : Tiled m h.start before a
  pub here : IsBlock m a this
  pub right : Tiled m (a + this.size) after h.end
  pub free : this.hole ≡ true
  pub indexed : Perm (items h.index) (holes h.start before ++ holes (a + this.size) after)
  pub room : h.index.size < h.index.max_size
  pub small : h.index.max_size < 2 ^ 32

-- One block less in the index.
module _ (h : HeapT) (p : Ptr) (xs : List Ptr) (perm : Perm (items h.index) (p ∷ xs))
    (room : h.index.size < h.index.max_size) (small : h.index.max_size < 2 ^ 32) where
  abbrev dropped : HeapT
  dropped = record h { index = (oarray_del_value h.index p).0 }

  dropped_lem :
      Perm (items dropped.index) xs
      × (dropped.index.size < dropped.index.max_size)
      × (dropped.index.max_size < 2 ^ 32)
  dropped_lem =
      let (perm', size, max) = oarray_del_value-perm h.index p xs (omega arith) perm in
      (perm', omega (arith, size, max), omega (arith, max))

-- Two blocks beside each other are joined, and the hole among them leaves the index.
joined-Freeing :
    (h : HeapT) (m : Mem) (a p : Ptr) (before : List Block) (b c : Block) (after : List Block)
    → 20 ≤ h.start
    → (is_b : IsBlock m a b) → (is_c : IsBlock m (a + b.size) c) → Tiled m h.start before a
    → Tiled m (a + b.size + c.size) after h.end
    → b.hole ≡ true
    → Perm (items h.index) (p ∷ (holes h.start before ++ holes (a + b.size + c.size) after))
    → (room : h.index.size < h.index.max_size) → (small : h.index.max_size < 2 ^ 32)
    → Freeing
        (record h { index = (oarray_del_value h.index p).0 })
        (joined m a b c is_b is_c)
        a
        before
        (block (b.size + c.size) b.hole)
        after
joined-Freeing h m a p before b c after low is_b is_c left right free perm room small =
    let e : a + b.size + c.size ≡ a + (b.size + c.size) = omega arith in
    let (indexed, room', small') = dropped_lem h p _ perm room small in
    let m' = joined m a b c is_b is_c in
    let out = joined-Outside m a b c is_b is_c in
    record {
      low = low;
      left = Tiled-Same m m' h.start before a (λ q lo hi. out q (inr (omega arith))) left;
      here = joined-IsBlock m a b c is_b is_c;
      right =
          subst (λ (x : Ptr). Tiled m' x after h.end) e
            (Tiled-Same m m' _ after h.end (λ q lo hi. out q (inl (omega arith))) right);
      free = free;
      indexed =
          subst
            (λ (x : Ptr).
              Perm (items (oarray_del_value h.index p).0) (holes h.start before ++ holes x after))
            e indexed;
      room = room';
      small = small';
    }

-- merge_next, with what it makes of the blocks behind.
pub merge_next-Freeing :
    (h : HeapT) (m : Mem) (a : Ptr) (before : List Block) (this : Block) (after : List Block)
    → Freeing h m a before this after
    → (h' : HeapT) × (m' : Mem) × (this' : Block) × (after' : List Block) × (merge_next h a m
        ≡ passed h' m' a)
      × (this' ∷ after' ≡ join_next this after)
      × (h'.start ≡ h.start)
      × (h'.end ≡ h.end)
      × Freeing h' m' a before this' after'
unfolding merge_next join_next
merge_next-Freeing h m a before this [] f =
    let last : ltb (a + this.size) h.end ≡ false = ground (arith, f.right) in
    (h, m, this, [], rw (f.here.hdr.size, last) refl, refl, refl, refl, f)
merge_next-Freeing h m a before b (c ∷ after) f =
    let run =
      merge_next-joined h m a b c f.here f.right.0
        (omega (arith, Tiled-le m (a + b.size + c.size) after h.end f.right.1, f.right.0.room)) in
    elim (Bool-cases c.hole) [
      | inr used ↦ (h, m, b, c ∷ after, run ∙ rw used refl, rw used refl, refl, refl, f)
      | inl free ↦ (
        _,
        joined m a b c f.here f.right.0,
        _,
        after,
        run ∙ rw free refl,
        rw free refl,
        refl,
        refl,
        joined-Freeing h m a (a + b.size) before b c after f.low f.here f.right.0 f.left f.right.1
            f.free (Perm.trans (rw free at f.indexed) (perm_middle _ _)) f.room f.small,
      )
    ]

-- The blocks before end in a last one, if there are any.
pub data Last : List Block → Type 0 where
  alone : Last []
  last : (init : List Block) (b : Block) → Last (init ++ b ∷ [])

pub to_last : (xs : List Block) → Last xs
to_last [] = alone
to_last (x ∷ xs) = more x xs (to_last xs)
  where
    more : (y : Block) (ys : List Block) → Last ys → Last (y ∷ ys)
    more y _ alone = last [] y
    more y _ (last init b) = last (y ∷ init) b

freed-last :
    (init : List Block) (b this : Block) (after : List Block)
    → freed (init ++ b ∷ []) this after ≡ init ++ freed (b ∷ []) this after
unfolding freed
freed-last [] b this after = refl
freed-last (x ∷ []) b this after = refl
freed-last (x ∷ y ∷ init) b this after =
    ap (λ (l : List Block). x ∷ l) (freed-last (y ∷ init) b this after)

Tiled-last :
    (m : Mem) (a : Ptr) (xs ys : List Block) (e : Ptr)
    → Tiled m a (xs ++ ys) e
    → (k : Ptr) × Tiled m a xs k × Tiled m k ys e
Tiled-last m a [] ys e t = (a, refl, t)
Tiled-last m a (x ∷ xs) ys e t =
    let (k, l, r) = Tiled-last m (a + x.size) xs ys e t.1 in (k, (t.0, l), r)

pub blocks-At :
    (m : Mem) (a : Ptr) (before : List Block) (this : Block) (after : List Block) (e : Ptr)
    → Tiled m a (before ++ this ∷ after) e
    → (p : Ptr) × Tiled m a before p × IsBlock m p this × Tiled m (p + this.size) after e
blocks-At m a before this after e t =
    let (p, left, here) = Tiled-last m a before (this ∷ after) e t in (p, left, here.0, here.1)

-- merge_prev, with what it makes of the blocks before.
pub record Merged (h : HeapT) (m : Mem) (a : Ptr) (before : List Block) (this : Block)
    (after : List Block) : Type 0 where
  pub heap : HeapT
  pub mem : Mem
  pub place : Ptr
  pub before' : List Block
  pub this' : Block
  pub run : merge_prev h a m ≡ passed heap mem place
  pub spec : before' ++ join_next this' after ≡ freed before this after
  pub start : heap.start ≡ h.start
  pub end : heap.end ≡ h.end
  pub next : Freeing heap mem place before' this' after

merge_prev-last :
    (h : HeapT) (m : Mem) (p : Ptr) (init : List Block) (b this : Block) (after : List Block)
    → Tiled m h.start init p
    → IsBlock m p b
    → Freeing h m (p + b.size) (init ++ b ∷ []) this after
    → Merged h m (p + b.size) (init ++ b ∷ []) this after
unfolding freed
merge_prev-last h m p init b this after left is f =
    let run = merge_prev-joined h m p b this is f.here (Tiled-le m h.start init p left) in
    let spec = freed-last init b this after in
    let rest = holes (p + b.size + this.size) after in
    let order = ap (λ (l : List Ptr). l ++ rest) (holes-append m h.start init (b ∷ []) p left) in
    elim (Bool-cases b.hole) [
      | inr used ↦ record {
        heap = h;
        mem = m;
        place = p + b.size;
        before' = init ++ b ∷ [];
        this' = this;
        run = run ∙ rw used refl;
        spec =
            append_assoc init (b ∷ []) (join_next this after)
            ∙ sym (spec ∙ ap (λ (l : List Block). init ++ l) (rw used refl));
        start = refl;
        end = refl;
        next = f;
      }
      | inl free ↦
          let order' : (holes h.start init ++ holes p (b ∷ [])) ++ rest
              ≡ holes h.start init ++ p ∷ rest =
            rw free (append_assoc (holes h.start init) (p ∷ []) rest) in
          let indexed =
            Perm.trans (subst (Perm (items h.index)) (order ∙ order') f.indexed)
              (perm_middle _ _) in
          record {
            heap = record h { index = (oarray_del_value h.index p).0 };
            mem = joined m p b this is f.here;
            place = p;
            before' = init;
            this' = block (b.size + this.size) b.hole;
            run = run ∙ rw free refl;
            spec = sym (spec ∙ ap (λ (l : List Block). init ++ l) (rw free refl));
            start = refl;
            end = refl;
            next =
                joined-Freeing h m p p init b this after f.low is f.here left f.right free indexed
                  f.room f.small;
          }
    ]

pub merge_prev-Freeing :
    (h : HeapT) (m : Mem) (a : Ptr) (before : List Block) (this : Block) (after : List Block)
    → Last before
    → Freeing h m a before this after
    → Merged h m a before this after
unfolding merge_prev freed
merge_prev-Freeing h m a _ this after alone f = record {
  heap = h;
  mem = m;
  place = a;
  before' = [];
  this' = this;
  run = ground (arith, f.left);
  spec = refl;
  start = refl;
  end = refl;
  next = f;
}
merge_prev-Freeing h m a _ this after (last init b) f =
    let (p, left, here) = Tiled-last m h.start init (b ∷ []) a f.left in
    subst
      (λ (x : Ptr).
        Freeing h m x (init ++ b ∷ []) this after → Merged h m x (init ++ b ∷ []) this after)
      here.1 (merge_prev-last h m p init b this after left here.0) f
