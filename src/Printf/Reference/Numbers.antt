-- ===== src/Printf/Reference/Numbers.antt =====
-- lib/c/printf.c: the texts of numbers are their numerals.
use jonix.Base.{
  ℕ, zero, suc, ◌-◌, ◌*◌, ◌/◌, ◌%◌, ◌^◌, ◌<◌, ◌≤◌, ◌≡◌, refl, ap, Bool, true, false, not, ◌||◌, ltb,
  ◌==◌, if◌then◌else◌, List, [], ◌∷◌, ◌++◌, arith, Bool-cases, inl, inr,
}
use jonix.Printf.{
  digit_str_l, digit_str_u, digits, print_digits, num2str, int2str, int2str_10l, int2str_16l,
  int2str_16u,
}
use jonix.Printf.Digits.{pow}
use jonix.Printf.Reference.{digit_from, numeral, signed, decimal}

-- What the lemmas need of a base, or of a unit.
record IsRadix (base : ℕ) : Type 0 where
  low : (n : ℕ) → n < base → (n / base ≡ 0) × (n % base ≡ n)
  high : (n : ℕ) → base ≤ n → 0 < n / base
  fits : (n p : ℕ) → n < base * p → n / base < p

ten-IsRadix : IsRadix 10
ten-IsRadix = record {
  low = λ n lt. (omega (arith, lt), omega (arith, lt));
  high = λ n le. omega (arith, le);
  fits = λ n p lt. omega (arith, lt);
}

sixteen-IsRadix : IsRadix 16
sixteen-IsRadix = record {
  low = λ n lt. (omega (arith, lt), omega (arith, lt));
  high = λ n le. omega (arith, le);
  fits = λ n p lt. omega (arith, lt);
}

-- A character behind a text whose first character may be left out.
later_digit :
    (first last : Bool) (x y : ℕ) (t : List ℕ)
    → (if first then x ∷ (if last then t ++ y ∷ [] else t) else if last then t ++ y ∷ [] else t)
      ≡ (if last then (if first then x ∷ t else t) ++ y ∷ [] else if first then x ∷ t else t)
later_digit true true x y t = refl
later_digit true false x y t = refl
later_digit false true x y t = refl
later_digit false false x y t = refl

print_digits-append :
    (f : ℕ → ℕ) (flag : Bool) (xs : List ℕ) (d : ℕ)
    → print_digits f flag (xs ++ d ∷ []) ≡ (
        (let (t, shows) = print_digits f flag xs in
          (if shows || not (d == 0) then t ++ f d ∷ [] else t, shows || not (d == 0))))
unfolding print_digits
print_digits-append f true [] d = refl
print_digits-append f false [] d = refl
print_digits-append f flag (x ∷ xs) d =
    let shows = flag || not (x == 0) in
    let (t, last) = print_digits f shows xs in
    let now = last || not (d == 0) in
    rw (print_digits-append f shows xs d)
      (ap (λ (u : List ℕ). (u, now)) (later_digit shows now (f x) (f d) t))

module _ (f : ℕ → ℕ) (a : ℕ) (same : (d : ℕ) → f d ≡ digit_from a d) where
  module _ (base : ℕ) (r : IsRadix base) (more : 0 < base) where
    digits_zero : (k : ℕ) → print_digits f false (digits base k 0) ≡ ([], false)
    unfolding digits print_digits
    digits_zero zero = refl
    digits_zero (suc k) =
        let (q, m) = r.low 0 more in
        rw (print_digits-append f false (digits base k (0 / base)) (0 % base), q, m, digits_zero k)
          refl

    digits-numeral :
        (k n : ℕ)
        → 0 < n
        → n < pow base k
        → print_digits f false (digits base k n) ≡ (numeral a base k n, true)
    unfolding digits numeral
    digits-numeral zero n some_left lt = absurd (omega (arith, some_left, lt))
    digits-numeral (suc k) n some_left lt = elim (Bool-cases (ltb n base)) [
      | inl e ↦
          let (q, m) = r.low n (ground (arith, e)) in
          let shows : (n == 0) ≡ false = ground (arith, some_left) in
          rw
            (
              print_digits-append f false (digits base k (n / base)) (n % base),
              e,
              q,
              m,
              digits_zero k,
              shows,
              same n,
            )
            refl
      | inr e ↦
          let later =
            digits-numeral k (n / base) (r.high n (ground (arith, e))) (r.fits n (pow base k) lt) in
          rw
            (
              print_digits-append f false (digits base k (n / base)) (n % base),
              e,
              later,
              same (n % base),
            )
            refl
    ]

    num2str-numeral :
        (k n : ℕ) → n < pow base (suc k) → num2str f base (suc k) n ≡ numeral a base (suc k) n
    unfolding num2str numeral
    num2str-numeral k zero lt =
        let none_shown : ltb 0 base ≡ true = ground (arith, more) in
        rw (digits_zero (suc k), none_shown) refl
    num2str-numeral k (suc n) lt = rw (digits-numeral (suc k) (suc n) (omega arith) lt) refl

    int2str-signed :
        (k : ℕ)
        → 2 ^ 31 < pow base (suc k)
        → (n : ℕ) → int2str f base (suc k) n ≡ signed a base (suc k) n
    unfolding int2str signed
    int2str-signed k room n = elim (Bool-cases (ltb n (2 ^ 31))) [
      | inl e ↦ rw (e, num2str-numeral k n (ground (arith, e, room))) refl
      | inr e ↦ rw (e, num2str-numeral k (2 ^ 32 - n) (ground (arith, e, room))) refl
    ]

digit_str_l-digit_from : (d : ℕ) → digit_str_l d ≡ digit_from 97 d
digit_str_l-digit_from d = ground arith

digit_str_u-digit_from : (d : ℕ) → digit_str_u d ≡ digit_from 65 d
digit_str_u-digit_from d = ground arith

pub int2str_10l-decimal : (n : ℕ) → int2str_10l n ≡ decimal n
int2str_10l-decimal =
    int2str-signed digit_str_l 97 digit_str_l-digit_from 10 ten-IsRadix (omega arith) 11
      (omega arith)

pub int2str_16l-signed : (n : ℕ) → int2str_16l n ≡ signed 97 16 8 n
int2str_16l-signed =
    int2str-signed digit_str_l 97 digit_str_l-digit_from 16 sixteen-IsRadix (omega arith) 7
      (omega arith)

pub int2str_16u-signed : (n : ℕ) → int2str_16u n ≡ signed 65 16 8 n
int2str_16u-signed =
    int2str-signed digit_str_u 65 digit_str_u-digit_from 16 sixteen-IsRadix (omega arith) 7
      (omega arith)
