-- ===== src/Heap/Tags.antt =====
-- lib/heap.c: what the boundary tags say. A heap is tiled by blocks, each with a header and a
-- footer that agree.
use mathlib.Core.Path.{subst}
use jonix.Base.{
  ℕ, ◌+◌, ◌-◌, ◌%◌, ◌<◌, ◌≤◌, ◌≡◌, inl, inr, sym, ◌∙◌, Bool, true, false, List, [], ◌∷◌, ◌++◌,
  if◌then◌else◌, Ptr, Mem, load32, u32_mod, arith, store8, store32, store8_self, store32_ne,
  store8_ne, Apart, load32-store32_self, load32-store32-Apart, load32-store8-Apart,
}
use jonix.Heap.{
  hdr_magic, ftr_magic, sizeof_hdr, sizeof_ftr, hdr_hole, hdr_size, hdr_magic_of, ftr_hdr,
  ftr_magic_of, write_hdr, write_ftr, set_hole, set_size,
}

pub record Block : Type 0 where
  pub size : ℕ
  pub hole : Bool

abbrev pub block : ℕ → Bool → Block
block n h = record { size = n; hole = h }

abbrev pub flag : Bool → ℕ
flag true = 1
flag false = 0

-- A header at `a`.
pub record IsHdr (m : Mem) (a : Ptr) (b : Block) : Type 0 where
  pub hole : hdr_hole m a ≡ flag b.hole
  pub size : hdr_size m a ≡ b.size
  pub magic : hdr_magic_of m a ≡ hdr_magic

-- A footer at `q` that leads back to `a`.
pub record IsFtr (m : Mem) (q a : Ptr) : Type 0 where
  pub back : ftr_hdr m q ≡ a
  pub magic : ftr_magic_of m q ≡ ftr_magic

-- The header and the footer of block `b` at address `a`.
pub record IsBlock (m : Mem) (a : Ptr) (b : Block) : Type 0 where
  pub room : sizeof_hdr + sizeof_ftr ≤ b.size
  pub fits : a + b.size < u32_mod
  pub hdr : IsHdr m a b
  pub ftr : IsFtr m (a + b.size - sizeof_ftr) a

-- The blocks fill the memory from `a` up to `e`.
abbrev pub Tiled : Mem → Ptr → List Block → Ptr → Type 0
Tiled m a [] e = a ≡ e
Tiled m a (b ∷ bs) e = IsBlock m a b × Tiled m (a + b.size) bs e

abbrev pub total : List Block → ℕ
total [] = 0
total (b ∷ bs) = b.size + total bs

-- The addresses of the holes, from `a` on.
abbrev pub holes : Ptr → List Block → List Ptr
holes a [] = []
holes a (b ∷ bs) = if b.hole then a ∷ holes (a + b.size) bs else holes (a + b.size) bs

-- The two memories agree from `a` up to `e`.
abbrev pub Same : Mem → Mem → Ptr → Ptr → Type 0
Same m m' a e = (p : Ptr) → a ≤ p → p < e → m' p ≡ m p

-- The two memories differ at most in the `n` bytes from `p`.
abbrev pub Outside : Ptr → ℕ → Mem → Mem → Type 0
Outside p n m m' = (q : Ptr) → Apart p n q 1 → m' q ≡ m q

module _ (m m' : Mem) where
  pub load32-Same : (a e p : Ptr) → Same m m' a e → a ≤ p → p + 4 ≤ e → load32 m' p ≡ load32 m p
  unfolding load32
  load32-Same a e p same lo hi = ground (arith, same p, same (p + 1), same (p + 2), same (p + 3))

  pub IsHdr-Same : (a : Ptr) (b : Block) → Same m m' a (a + 12) → IsHdr m a b → IsHdr m' a b
  IsHdr-Same a b same is = record {
    hole = same a (omega arith) (omega arith) ∙ is.hole;
    size = load32-Same a (a + 12) (a + 4) same (omega arith) (omega arith) ∙ is.size;
    magic = load32-Same a (a + 12) (a + 8) same (omega arith) (omega arith) ∙ is.magic;
  }

  pub IsFtr-Same : (q a : Ptr) → Same m m' q (q + 8) → IsFtr m q a → IsFtr m' q a
  IsFtr-Same q a same is = record {
    back = load32-Same q (q + 8) q same (omega arith) (omega arith) ∙ is.back;
    magic = load32-Same q (q + 8) (q + 4) same (omega arith) (omega arith) ∙ is.magic;
  }

  pub IsBlock-Same :
      (a : Ptr) (b : Block) → Same m m' a (a + b.size) → IsBlock m a b → IsBlock m' a b
  IsBlock-Same a b same is = record {
    room = is.room;
    fits = is.fits;
    hdr = IsHdr-Same a b (λ p lo hi. same p lo (omega (arith, is.room))) is.hdr;
    ftr =
        IsFtr-Same (a + b.size - 8) a
          (λ p lo hi. same p (omega (arith, is.room)) (omega (arith, is.room))) is.ftr;
  }

pub Tiled-le : (m : Mem) (a : Ptr) (bs : List Block) (e : Ptr) → Tiled m a bs e → a ≤ e
Tiled-le m a [] e t = omega arith
Tiled-le m a (b ∷ bs) e t = omega (arith, Tiled-le m (a + b.size) bs e t.1)

-- Tags outlive any change outside the blocks.
pub Tiled-Same :
    (m m' : Mem) (a : Ptr) (bs : List Block) (e : Ptr)
    → Same m m' a e
    → Tiled m a bs e
    → Tiled m' a bs e
Tiled-Same m m' a [] e same t = t
Tiled-Same m m' a (b ∷ bs) e same t =
    let le = Tiled-le m (a + b.size) bs e t.1 in
    (
      IsBlock-Same m m' a b (λ p lo hi. same p lo (omega arith)) t.0,
      Tiled-Same m m' (a + b.size) bs e (λ p lo hi. same p (omega arith) hi) t.1,
    )

pub Tiled-append :
    (m : Mem) (a : Ptr) (xs ys : List Block) (k e : Ptr)
    → Tiled m a xs k
    → Tiled m k ys e
    → Tiled m a (xs ++ ys) e
Tiled-append m a [] ys k e t u = subst (λ (x : Ptr). Tiled m x ys e) (sym t) u
Tiled-append m a (x ∷ xs) ys k e t u = (t.0, Tiled-append m (a + x.size) xs ys k e t.1 u)

-- Writing tags.
module _ (m : Mem) (p : Ptr) where
  pub write_hdr-IsHdr :
      (b : Block) (size : ℕ)
      → size % u32_mod ≡ b.size
      → IsHdr (write_hdr p (flag b.hole) size m) p b
  unfolding write_hdr
  write_hdr-IsHdr b size e =
      let m1 = store8 m p (flag b.hole) in
      let m2 = store32 m1 (p + 4) (size % u32_mod) in
      record {
        hole =
            store32_ne m2 (p + 8) hdr_magic p (inr (omega arith))
            ∙ store32_ne m1 (p + 4) (size % u32_mod) p (inr (omega arith))
            ∙ store8_self m p (flag b.hole);
        size =
            load32-store32-Apart m2 (p + 8) hdr_magic (p + 4) (inr (omega arith))
            ∙ load32-store32_self m1 (p + 4) (size % u32_mod) (omega arith)
            ∙ e;
        magic = load32-store32_self m2 (p + 8) hdr_magic (omega arith);
      }

  pub write_hdr-Outside : (hole size : ℕ) → Outside p 12 m (write_hdr p hole size m)
  unfolding write_hdr
  write_hdr-Outside hole size q apart =
      let m1 = store8 m p hole in
      let m2 = store32 m1 (p + 4) (size % u32_mod) in
      store32_ne m2 (p + 8) hdr_magic q (omega arith)
      ∙ store32_ne m1 (p + 4) (size % u32_mod) q (omega arith)
      ∙ store8_ne m p hole q (omega arith)

  pub write_ftr-IsFtr : (a : Ptr) → a < u32_mod → IsFtr (write_ftr p a m) p a
  unfolding write_ftr
  write_ftr-IsFtr a small = record {
    back =
        load32-store32-Apart (store32 m p a) (p + 4) ftr_magic p (inr (omega arith))
        ∙ load32-store32_self m p a small;
    magic = load32-store32_self (store32 m p a) (p + 4) ftr_magic (omega arith);
  }

  pub write_ftr-Outside : (a : Ptr) → Outside p 8 m (write_ftr p a m)
  unfolding write_ftr
  write_ftr-Outside a q apart =
      store32_ne (store32 m p a) (p + 4) ftr_magic q (omega arith)
      ∙ store32_ne m p a q (omega arith)

  -- Only the pointer of a footer is written.
  pub retarget-IsFtr : (a old : Ptr) → a < u32_mod → IsFtr m p old → IsFtr (store32 m p a) p a
  retarget-IsFtr a old small is = record {
    back = load32-store32_self m p a small;
    magic = load32-store32-Apart m p a (p + 4) (inl (omega arith)) ∙ is.magic;
  }

  pub retarget-Outside : (a : Ptr) → Outside p 8 m (store32 m p a)
  retarget-Outside a q apart = store32_ne m p a q (omega arith)

  -- Only the flag of a header is written.
  pub set_hole-IsHdr :
      (b : Block) (h : Bool) → IsHdr m p b → IsHdr (set_hole p (flag h) m) p (block b.size h)
  set_hole-IsHdr b h is = record {
    hole = store8_self m p (flag h);
    size = load32-store8-Apart m p (flag h) (p + 4) (inl (omega arith)) ∙ is.size;
    magic = load32-store8-Apart m p (flag h) (p + 8) (inl (omega arith)) ∙ is.magic;
  }

  pub set_hole-Outside : (h : ℕ) → Outside p 12 m (set_hole p h m)
  set_hole-Outside h q apart = store8_ne m p h q (omega arith)

  -- Only the size of a header is written.
  pub set_size-IsHdr :
      (b : Block) (n : ℕ) → n < u32_mod → IsHdr m p b → IsHdr (set_size p n m) p (block n b.hole)
  set_size-IsHdr b n small is =
      let e : n % u32_mod ≡ n = omega arith in
      record {
        hole = store32_ne m (p + 4) (n % u32_mod) p (inr (omega arith)) ∙ is.hole;
        size = load32-store32_self m (p + 4) (n % u32_mod) (omega arith) ∙ e;
        magic = load32-store32-Apart m (p + 4) (n % u32_mod) (p + 8) (inl (omega arith)) ∙ is.magic;
      }

  pub set_size-Outside : (n : ℕ) → Outside p 12 m (set_size p n m)
  set_size-Outside n q apart = store32_ne m (p + 4) (n % u32_mod) q (omega arith)
