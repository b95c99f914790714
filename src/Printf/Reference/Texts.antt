-- ===== src/Printf/Reference/Texts.antt =====
-- lib/c/printf.c: the blocks of long2str_10h write the parts of a size, and the switch over a
-- conversion its text.
use mathlib.Core.List.{append-nil, append_assoc}
use jonix.Base.{
  ℕ, zero, suc, ◌+◌, ◌-◌, ◌/◌, ◌%◌, ◌^◌, ◌<◌, ◌≤◌, ◌≡◌, refl, sym, ap, ◌∙◌, Bool, true, false, leb,
  ◌==◌, if◌then◌else◌, Option, some, none, ◌>>=◌, List, [], ◌∷◌, ◌++◌, arith, Bool-cases, inl, inr,
}
use jonix.Printf.{
  Arg, int, str, int2str_10l, int2str_16l, int2str_16u, Sizes, plus, size_block, size_rest,
  long2str_10h, int_text, size_text, next_str, conversion,
}
use jonix.Printf.Reference.{signed, decimal, part, size, with_int, with_str, shown}
use jonix.Printf.Reference.Numbers.{int2str_10l-decimal, int2str_16l-signed, int2str_16u-signed}

bind_assoc :
    {A B C : Type 0} (x : Option A) (f : A → Option B) (g : B → Option C)
    → (x >>= f >>= g) ≡ (x >>= λ a. f a >>= g)
bind_assoc none f g = refl
bind_assoc (some a) f g = refl

part-some :
    (letter q : ℕ) → 0 < q → part letter q ≡ (decimal q >>= λ t. some (t ++ letter ∷ 43 ∷ []))
unfolding part
part-some letter zero lt = absurd (omega (arith, lt))
part-some letter (suc q) lt = refl

-- The state behind a block that writes the text `t`.
abbrev behind : ℕ → ℕ → Bool → Sizes → List ℕ → Sizes
behind unit letter nul s t = record {
  num = s.num % unit;
  precision = s.precision - 1;
  need_plus = true;
  text = plus s ++ t ++ letter ∷ [];
  terminated = nul;
}

plus-behind :
    (before t : List ℕ) (letter : ℕ)
    → before ++ t ++ letter ∷ [] ++ 43 ∷ [] ≡ before ++ (t ++ letter ∷ 43 ∷ [])
plus-behind before t letter =
    append_assoc (before ++ t) (letter ∷ []) (43 ∷ []) ∙ append_assoc before t (letter ∷ 43 ∷ [])

-- What follows a block, `K`, finds in its text and with a plus what follows a part, `J`, finds.
module _ (unit letter : ℕ) (nul : Bool) (s : Sizes) (K : Sizes → Option (List ℕ))
    (J : List ℕ → Option (List ℕ)) (left : 0 < s.precision)
    (next : (s' : Sizes)
      → s'.num ≡ s.num % unit
      → s.precision ≤ s'.precision + 1
      → K s' ≡ J (plus s')) where
  behind-part :
      (x : Option (List ℕ))
      → ((x >>= λ t. some (behind unit letter nul s t)) >>= K)
        ≡ ((x >>= λ t. some (t ++ letter ∷ 43 ∷ [])) >>= λ t. J (plus s ++ t))
  behind-part none = refl
  behind-part (some t) =
      next (behind unit letter nul s t) refl (omega (arith, left))
      ∙ ap J (plus-behind (plus s) t letter)

  size_block-part :
      ((n : ℕ) → n < unit → (n / unit ≡ 0) × (n % unit ≡ n))
      → ((n : ℕ) → unit ≤ n → 0 < n / unit)
      → (size_block unit letter nul s >>= K) ≡ (part letter (s.num / unit) >>= λ t. J (plus s ++ t))
  unfolding size_block part
  size_block-part low high =
      let writes : (s.precision == 0) ≡ false = ground (arith, left) in
      elim (Bool-cases (leb unit s.num)) [
        | inl e ↦
            rw
              (
                writes,
                e,
                int2str_10l-decimal (s.num / unit),
                part-some letter (s.num / unit) (high s.num (ground (arith, e))),
              )
              (behind-part (decimal (s.num / unit)))
        | inr e ↦
            let (q, m) = low s.num (ground (arith, e)) in
            rw (writes, e, q, append-nil (plus s)) (next s (sym m) (omega arith))
      ]

-- What size_text does behind the three blocks.
abbrev close : Sizes → Option (List ℕ × Bool)
close s = some (if s.need_plus then (s.text, s.terminated) else (s.text ++ 48 ∷ [], true))

abbrev ended : List ℕ × Bool → Option (List ℕ)
ended (t, terminated) = if terminated then some t else none

abbrev finish : Sizes → Option (List ℕ)
finish s = size_rest s >>= λ s'. close s' >>= ended

rest-finish :
    (s : Sizes) (x : Option (List ℕ))
    → ((x >>= λ t. some (record s { need_plus = true; text = plus s ++ t; terminated = true }))
        >>= λ s'. close s' >>= ended)
      ≡ (x >>= λ t. some (plus s ++ t))
rest-finish s none = refl
rest-finish s (some t) = refl

finish-decimal :
    (s : Sizes) → 0 < s.precision → finish s ≡ (decimal s.num >>= λ t. some (plus s ++ t))
unfolding size_rest
finish-decimal s left =
    let writes : (s.precision == 0) ≡ false = ground (arith, left) in
    rw (writes, int2str_10l-decimal s.num) (rest-finish s (decimal s.num))

abbrev thousands : ℕ → List ℕ → Option (List ℕ)
thousands n before =
    part 107 (n % 2 ^ 20 / 2 ^ 10) >>= λ k. decimal (n % 2 ^ 10) >>= λ t. some (before ++ k ++ t)

abbrev millions : ℕ → List ℕ → Option (List ℕ)
millions n before = part 77 (n % 2 ^ 30 / 2 ^ 20) >>= λ m. thousands n (before ++ m)

thousands-block :
    (n : ℕ) (s : Sizes)
    → s.num ≡ n % 2 ^ 20
    → 1 < s.precision
    → (size_block 1024 107 true s >>= finish) ≡ thousands n (plus s)
thousands-block n s e left =
    size_block-part 1024 107 true s finish (λ b. decimal (n % 2 ^ 10) >>= λ t. some (b ++ t))
      (omega (arith, left))
      (λ s' num less.
        finish-decimal s' (omega (arith, left, less))
        ∙ ap (λ r. decimal r >>= λ t. some (plus s' ++ t)) (omega (arith, e, num)))
      (λ k lt. (omega (arith, lt), omega (arith, lt))) (λ k le. omega (arith, le))
    ∙ ap (λ r. part 107 (r / 2 ^ 10) >>= λ k. decimal (n % 2 ^ 10) >>= λ t. some (plus s ++ k ++ t))
        e

millions-block :
    (n : ℕ) (s : Sizes)
    → s.num ≡ n % 2 ^ 30
    → 2 < s.precision
    → (size_block 1048576 77 false s >>= λ s'. size_block 1024 107 true s' >>= finish)
      ≡ millions n (plus s)
millions-block n s e left =
    size_block-part 1048576 77 false s (λ s'. size_block 1024 107 true s' >>= finish) (thousands n)
      (omega (arith, left))
      (λ s' num less. thousands-block n s' (omega (arith, e, num)) (omega (arith, left, less)))
      (λ k lt. (omega (arith, lt), omega (arith, lt))) (λ k le. omega (arith, le))
    ∙ ap (λ r. part 77 (r / 2 ^ 20) >>= λ m. thousands n (plus s ++ m)) e

size_text-size : (n : ℕ) → size_text n ≡ size n
unfolding long2str_10h size
size_text-size n =
    let s : Sizes = record {
      num = n;
      precision = 10;
      need_plus = false;
      text = [];
      terminated = false;
    } in
    let block1 = size_block 1073741824 71 false s in
    let block2 = λ (s1 : Sizes). size_block 1048576 77 false s1 in
    let block3 = λ (s2 : Sizes). size_block 1024 107 true s2 in
    bind_assoc (block1 >>= block2 >>= block3 >>= size_rest) close ended
    ∙ bind_assoc (block1 >>= block2 >>= block3) size_rest (λ s'. close s' >>= ended)
    ∙ bind_assoc (block1 >>= block2) block3 finish
    ∙ bind_assoc block1 block2 (λ s2. block3 s2 >>= finish)
    ∙ size_block-part 1073741824 71 false s
        (λ s1. size_block 1048576 77 false s1 >>= λ s2. size_block 1024 107 true s2 >>= finish)
        (millions n) (omega arith) (λ s' num less. millions-block n s' num (omega (arith, less)))
        (λ k lt. (omega (arith, lt), omega (arith, lt))) (λ k le. omega (arith, le))

int_text-with_int :
    (f g : ℕ → Option (List ℕ)) (args : List Arg)
    → ((n : ℕ) → f n ≡ g n)
    → int_text f args ≡ with_int g args
unfolding with_int
int_text-with_int f g [] same = refl
int_text-with_int f g (int n ∷ args) same = rw (same n) refl
int_text-with_int f g (str s ∷ args) same = refl

next_str-with_str : (args : List Arg) → next_str args ≡ with_str args
unfolding with_str
next_str-with_str [] = refl
next_str-with_str (int n ∷ args) = refl
next_str-with_str (str s ∷ args) = refl

-- The switch gives every conversion its text.
pub conversion-shown : (c : ℕ) (args : List Arg) → conversion c args ≡ shown c args
unfolding conversion shown
conversion-shown c args =
    rw
      (
        int_text-with_int int2str_10l decimal args int2str_10l-decimal,
        int_text-with_int int2str_16l (signed 97 16 8) args int2str_16l-signed,
        int_text-with_int int2str_16u (signed 65 16 8) args int2str_16u-signed,
        int_text-with_int size_text size args size_text-size,
        next_str-with_str args,
      )
      refl
