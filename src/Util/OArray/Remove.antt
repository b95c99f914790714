-- ===== src/Util/OArray/Remove.antt =====
-- lib/util/oarray.c: oarray_del at an index, as a permutation.
use mathlib.Core.List.{Perm, Mem, mem-cons_self, mem-cons_of_mem}
use mathlib.Core.List.Perm
use mathlib.Core.Path.{subst}
use jonix.Base.{ℕ, zero, suc, ◌+◌, ◌-◌, ◌^◌, ◌<◌, ◌≤◌, ◌≡◌, sym, ap, List, ◌∷◌, arith}
use jonix.Util.Sort.{Item}
use jonix.Util.OArray.{OArray, oarray_del, oarray_del_value}
use jonix.Util.OArray.View.{slots, items, contains-Mem, erase-perm}
use jonix.Util.OArray.Del.{Closed, first_Closed, oarray_del-Closed, oarray_del_value-erase}

mem-slots : (f : ℕ → Item) (i n k : ℕ) → k < n → Mem (f (i + k)) (slots f i n)
mem-slots f i zero k lt = absurd (omega arith)
mem-slots f i (suc n) zero lt =
    subst (λ (a : ℕ). Mem (f a) (slots f i (suc n))) {x = i} (omega arith) mem-cons_self
mem-slots f i (suc n) (suc k) lt =
    subst (λ (a : ℕ). Mem (f a) (slots f i (suc n))) {x = i + 1 + k} (omega arith)
      (mem-cons_of_mem (f i) (mem-slots f (i + 1) n k (omega arith)))

pub mem-items : (o : OArray) (k : ℕ) → k < o.size → Mem (o.array k) (items o)
mem-items o k lt =
    subst (λ (a : ℕ). Mem (o.array a) (items o)) {x = 0 + k} (omega arith)
      (mem-slots o.array 0 o.size k lt)

slots-perm :
    (f g : ℕ → Item) (m k i : ℕ)
    → k ≤ m
    → Closed f g (i + k) (i + m)
    → Perm (slots f i (suc m)) (f (i + k) ∷ slots g i m)
slots-perm f g m zero i le c =
    let e = first_Closed f g i m (λ a. ground (arith, c a)) in
    let here : f (i + 0) ≡ f i = ap f (omega arith) in rw (e, here) (Perm.refl _)
slots-perm f g zero (suc k) i le c = absurd (omega arith)
slots-perm f g (suc m) (suc k) i le c =
    let first : g i ≡ f i = ground (arith, c i) in
    let next : f (i + suc k) ≡ f (i + 1 + k) = ap f (omega arith) in
    let ih = slots-perm f g m k (i + 1) (omega arith) (λ a. ground (arith, c a)) in
    rw (next, first) (Perm.trans (Perm.cons (f i) ih) (Perm.swap (f (i + 1 + k)) (f i) _))

-- oarray_del at an index in range takes that item out and keeps the others.
pub oarray_del-perm :
    (o : OArray) (k : ℕ)
    → o.size < 2 ^ 32
    → k < o.size
    → Perm (items o) (o.array k ∷ items (oarray_del o k))
      × ((oarray_del o k).size + 1 ≡ o.size)
      × ((oarray_del o k).max_size ≡ o.max_size)
oarray_del-perm o k small lt =
    let m = o.size - 1 in
    let e : o.size ≡ suc m = omega arith in
    let (g, del, closed) = oarray_del-Closed o k m small e (omega arith) in
    (
      rw del (
          subst (λ (n : ℕ). Perm (slots o.array 0 n) (o.array k ∷ slots g 0 m)) (sym e)
            (subst (λ (j : ℕ). Perm (slots o.array 0 (suc m)) (o.array j ∷ slots g 0 m)) {x = 0 + k}
              (omega arith)
              (slots-perm o.array g m k 0 (omega arith) (λ a. ground (arith, closed a))))),
      rw del (omega arith),
      rw del,
    )

-- oarray_del_value at an item that is in the array takes it out and keeps the others.
pub oarray_del_value-perm :
    (o : OArray) (val : Item) (xs : List Item)
    → o.size < 2 ^ 32
    → Perm (items o) (val ∷ xs)
    → Perm (items (oarray_del_value o val).0) xs
      × ((oarray_del_value o val).0.size + 1 ≡ o.size)
      × ((oarray_del_value o val).0.max_size ≡ o.max_size)
oarray_del_value-perm o val xs small perm =
    let there = contains-Mem val (items o) ((Perm.mem_iff perm).1 mem-cons_self) in
    let (found, erased, size, max) = oarray_del_value-erase o val small there in
    (
      subst (λ (l : List Item). Perm l xs) (sym erased)
          (Perm.cons_inv (Perm.trans (Perm.symm (erase-perm val (items o) there)) perm)),
      size,
      max,
    )
