-- ===== src/Util/LinkedList/Live.antt =====
-- lib/util/list.c: the memory that the nodes of a list come from.
use jonix.Base.{ℕ, ◌≢◌, List, [], ◌∷◌, ◌++◌, Ptr, null}
use jonix.Util.LinkedList.{Allocator}
use jonix.Util.LinkedList.Chain.{Absent}

-- What the lists rely on in kmalloc and kfree: new memory is not in use.
pub record IsAllocator (A : Allocator) : Type 1 where
  pub Live : A.State → Ptr → Type 0
  pub fresh :
      (s : A.State) (n : ℕ) (q : Ptr) → (A.kmalloc s n).1 ≢ null → Live s q → (A.kmalloc s n).1 ≢ q
  pub live :
      (s : A.State) (n : ℕ) → (A.kmalloc s n).1 ≢ null → Live (A.kmalloc s n).0 (A.kmalloc s n).1
  pub kept : (s : A.State) (n : ℕ) (q : Ptr) → Live s q → Live (A.kmalloc s n).0 q
  pub freed : (s : A.State) (p q : Ptr) → p ≢ q → Live s p → Live s q → Live (A.kfree s p) q

abbrev pub All : (Ptr → Type 0) → List Ptr → Type 0
All P [] = Unit {0}
All P (p ∷ ps) = P p × All P ps

pub All-map : (P Q : Ptr → Type 0) (ps : List Ptr) → ((p : Ptr) → P p → Q p) → All P ps → All Q ps
All-map P Q [] f a = tt
All-map P Q (p ∷ ps) f a = (f p a.0, All-map P Q ps f a.1)

pub All-append : (P : Ptr → Type 0) (xs ys : List Ptr) → All P xs → All P ys → All P (xs ++ ys)
All-append P [] ys a b = b
All-append P (x ∷ xs) ys a b = (a.0, All-append P xs ys a.1 b)

pub All-split : (P : Ptr → Type 0) (xs ys : List Ptr) → All P (xs ++ ys) → All P xs × All P ys
All-split P [] ys a = (tt, a)
All-split P (x ∷ xs) ys a = let (l, r) = All-split P xs ys a.1 in ((a.0, l), r)

pub All-Absent : (p : Ptr) (ps : List Ptr) → All (λ q. p ≢ q) ps → Absent p ps
All-Absent p [] a = tt
All-Absent p (q ∷ qs) a = (a.0, All-Absent p qs a.1)
