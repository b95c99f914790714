-- ===== src/Printf/Digits.antt =====
-- lib/c/printf.c: what the text of a number says.
use jonix.Base.{
  ℕ, zero, suc, ◌+◌, ◌-◌, ◌*◌, ◌/◌, ◌%◌, ◌^◌, ◌<◌, ◌≤◌, ◌≡◌, ◌≢◌, refl, sym, ap, ◌∙◌, Bool, true,
  false, not, ◌||◌, ◌>>=◌, leb, some, ltb, ◌==◌, if◌then◌else◌, List, [], ◌∷◌, ◌++◌, arith,
  Bool-cases, inl, inr, ne→==,
}
use jonix.Base.Int.{ℤ, pos, sub_ℕ}
use jonix.Printf.{digit_str_l, digit_str_u, digits, print_digits, num2str, int2str}

-- The number that digits stand for, the highest first, behind `acc`.
abbrev value : ℕ → ℕ → List ℕ → ℕ
value base acc [] = acc
value base acc (d ∷ ds) = value base (acc * base + d) ds

-- The digit that a character stands for.
abbrev pub digit_of : ℕ → ℕ
digit_of c = if ltb c 58 then c - 48 else if ltb c 97 then c - 55 else c - 87

abbrev pub number : ℕ → ℕ → List ℕ → ℕ
number base acc [] = acc
number base acc (c ∷ cs) = number base (acc * base + digit_of c) cs

-- A number with a sign.
abbrev pub read_int : ℕ → List ℕ → ℤ
read_int base [] = pos 0
read_int base (c ∷ cs) =
    if c == 45 then sub_ℕ 0 (number base 0 cs) else pos (number base 0 (c ∷ cs))

-- No character is below 0.
abbrev Above : List ℕ → Type 0
Above [] = Unit {0}
Above (c ∷ cs) = (48 ≤ c) × Above cs

zero_step : (base : ℕ) → 0 * base + 0 ≡ 0
zero_step base = omega arith

abbrev Small : List ℕ → Type 0
Small [] = Unit {0}
Small (d ∷ ds) = (d < 16) × Small ds

Small-append : (xs : List ℕ) (d : ℕ) → Small xs → d < 16 → Small (xs ++ d ∷ [])
Small-append [] d s lt = (lt, tt)
Small-append (x ∷ xs) d s lt = (s.0, Small-append xs d s.1 lt)

value-append :
    (base acc : ℕ) (xs : List ℕ) (d : ℕ)
    → value base acc (xs ++ d ∷ []) ≡ value base acc xs * base + d
value-append base acc [] d = refl
value-append base acc (x ∷ xs) d = value-append base (acc * base + x) xs d

-- The characters of a digit string stand for their digits, and none is a minus sign.
pub record IsDigits (digit_str : ℕ → ℕ) : Type 0 where
  pub digit : (d : ℕ) → d < 16 → digit_of (digit_str d) ≡ d
  pub above : (d : ℕ) → 48 ≤ digit_str d

pub digit_str_l-IsDigits : IsDigits digit_str_l
digit_str_l-IsDigits = record { digit = λ d lt. ground (arith, lt); above = λ d. ground arith }

pub digit_str_u-IsDigits : IsDigits digit_str_u
digit_str_u-IsDigits = record { digit = λ d lt. ground (arith, lt); above = λ d. ground arith }

-- What the lemmas need of a base.
pub record IsBase (base : ℕ) : Type 0 where
  pub small : (n : ℕ) → n % base < 16
  pub whole : (n : ℕ) → n / base * base + n % base ≡ n
  pub fits : (n p : ℕ) → n < base * p → n / base < p

pub IsBase-10 : IsBase 10
IsBase-10 = record {
  small = λ n. omega arith;
  whole = λ n. omega arith;
  fits = λ n p lt. omega (arith, lt);
}

pub IsBase-16 : IsBase 16
IsBase-16 = record {
  small = λ n. omega arith;
  whole = λ n. omega arith;
  fits = λ n p lt. omega (arith, lt);
}

abbrev pub pow : ℕ → ℕ → ℕ
pow base zero = 1
pow base (suc k) = base * pow base k

module _ (base : ℕ) (b : IsBase base) where
  digits-Small : (k n : ℕ) → Small (digits base k n)
  unfolding digits
  digits-Small zero n = tt
  digits-Small (suc k) n =
      Small-append (digits base k (n / base)) (n % base) (digits-Small k (n / base)) (b.small n)

  value-digits : (k n : ℕ) → n < pow base k → value base 0 (digits base k n) ≡ n
  unfolding digits
  value-digits zero n lt = omega (arith, lt)
  value-digits (suc k) n lt =
      value-append base 0 (digits base k (n / base)) (n % base)
      ∙ ap (λ v. v * base + n % base) (value-digits k (n / base) (b.fits n (pow base k) lt))
      ∙ b.whole n

module _ (digit_str : ℕ → ℕ) (i : IsDigits digit_str) (base : ℕ) where
  -- Behind the first digit that is not 0, all are written.
  shown-number :
      (acc : ℕ) (ds : List ℕ)
      → Small ds
      → number base acc (print_digits digit_str true ds).0 ≡ value base acc ds
  unfolding print_digits
  shown-number acc [] s = refl
  shown-number acc (d ∷ ds) s = rw (i.digit d s.0) (shown-number (acc * base + d) ds s.1)

  -- The zeros before it say nothing.
  hidden-number :
      (ds : List ℕ) → Small ds → number base 0 (print_digits digit_str false ds).0 ≡ value base 0 ds
  unfolding print_digits
  hidden-number [] s = refl
  hidden-number (zero ∷ ds) s = rw (zero_step base) (hidden-number ds s.1)
  hidden-number (suc d ∷ ds) s =
      let shows : (suc d == 0) ≡ false = ground arith in
      rw (shows, i.digit (suc d) s.0) (shown-number (0 * base + suc d) ds s.1)

  shown-flag : (ds : List ℕ) → (print_digits digit_str true ds).1 ≡ true
  unfolding print_digits
  shown-flag [] = refl
  shown-flag (d ∷ ds) = shown-flag ds

  hidden-none : (ds : List ℕ) → (print_digits digit_str false ds).1 ≡ false → value base 0 ds ≡ 0
  unfolding print_digits
  hidden-none [] e = refl
  hidden-none (zero ∷ ds) e = rw (zero_step base) (hidden-none ds e)
  hidden-none (suc d ∷ ds) e =
      let shows : (suc d == 0) ≡ false = ground arith in
      ground (arith, shown-flag ds, rw shows at e)

  print_digits-Above : (flag : Bool) (ds : List ℕ) → Above (print_digits digit_str flag ds).0
  unfolding print_digits
  print_digits-Above flag [] = tt
  print_digits-Above flag (d ∷ ds) = elim (Bool-cases (flag || not (d == 0))) [
    | inl e ↦ rw e (i.above d, print_digits-Above true ds)
    | inr e ↦ rw e (print_digits-Above false ds)
  ]

  module _ (b : IsBase base) where
    num2str-number :
        (places n : ℕ) → n < pow base places → number base 0 (num2str digit_str base places n) ≡ n
    unfolding num2str
    num2str-number places n lt =
        let ds = digits base places n in
        let same = value-digits base b places n lt in
        elim (Bool-cases (print_digits digit_str false ds).1) [
          | inl e ↦ rw e (hidden-number ds (digits-Small base b places n) ∙ same)
          | inr e ↦ rw (e, zero_step base) (sym (hidden-none ds e) ∙ same)
        ]

    num2str-Above : (places n : ℕ) → Above (num2str digit_str base places n)
    unfolding num2str
    num2str-Above places n =
        elim (Bool-cases (print_digits digit_str false (digits base places n)).1) [
          | inl e ↦ rw e (print_digits-Above false (digits base places n))
          | inr e ↦ rw e (omega arith, tt)
        ]

    read_positive :
        (cs : List ℕ) (n : ℕ) → Above cs → number base 0 cs ≡ n → read_int base cs ≡ pos n
    read_positive [] n a e = rw e refl
    read_positive (c ∷ cs) n a e =
        let digit : (c == 45) ≡ false = ground (arith, a.0) in rw (digit, e) refl

    -- The text of an int, in base 10 or 16 with enough places, is read back as that int; the least
    -- int is excepted.
    pub int2str-read_int :
        (places n : ℕ)
        → 2 ^ 31 < pow base places
        → n < 2 ^ 32
        → n ≢ 2 ^ 31
        → (int2str digit_str base places n >>= λ t. some (read_int base t))
          ≡ some (if ltb n (2 ^ 31) then pos n else sub_ℕ n (2 ^ 32))
    unfolding int2str
    int2str-read_int places n room word other = elim (Bool-cases (ltb n (2 ^ 31))) [
      | inl e ↦
          let t = num2str digit_str base places n in
          rw
            (
              e,
              read_positive t n (num2str-Above places n)
                  (num2str-number places n (ground (arith, e, room))),
            )
            refl
      | inr e ↦
          let above : leb (2 ^ 32) n ≡ false = ground (arith, word) in
          let same = num2str-number places (2 ^ 32 - n) (ground (arith, e, room, other)) in
          let some_left : leb (2 ^ 32 - n) 0 ≡ false = ground (arith, word) in
          let all_left : 2 ^ 32 - n - 0 ≡ 2 ^ 32 - n = omega arith in
          rw (e, ne→== n (2 ^ 31) other, above, same, some_left, all_left) refl
    ]
