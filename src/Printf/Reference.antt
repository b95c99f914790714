-- ===== src/Printf/Reference.antt =====
-- lib/c/printf.c: the texts of numbers, sizes and conversions, described without the arrays of digits
-- and the blocks of the code.
pub mod Numbers
pub mod Texts
use jonix.Base.{
  ℕ, zero, suc, ◌+◌, ◌-◌, ◌/◌, ◌%◌, ◌^◌, ◌||◌, ltb, ◌==◌, if◌then◌else◌, Option, some, none, ◌>>=◌,
  List, [], ◌∷◌, ◌++◌,
}
use jonix.Printf.{Arg, int, str}

-- The digits 0 to 9 and then letters from `a` on.
abbrev pub digit_from : ℕ → ℕ → ℕ
digit_from a d = if ltb d 10 then 48 + d else a + (d - 10)

-- The numeral of a number: that of its quotient, and the last digit. The depth bounds its length.
unfoldable pub numeral : ℕ → ℕ → ℕ → ℕ → List ℕ
numeral a base zero n = digit_from a n ∷ []
numeral a base (suc depth) n =
    let rest = numeral a base depth (n / base) in
    if ltb n base then digit_from a n ∷ [] else rest ++ digit_from a (n % base) ∷ []

-- The numeral of the int that a word holds. The least int has none.
unfoldable pub signed : ℕ → ℕ → ℕ → ℕ → Option (List ℕ)
signed a base depth n =
    if ltb n (2 ^ 31)
    then some (numeral a base depth n)
    else if n == 2 ^ 31
    then none
    else some (45 ∷ numeral a base depth (2 ^ 32 - n))

abbrev pub decimal : ℕ → Option (List ℕ)
decimal n = signed 97 10 12 n

-- So many units, with a plus behind their letter, if there are some.
unfoldable pub part : ℕ → ℕ → Option (List ℕ)
part letter zero = some []
part letter (suc q) = decimal (suc q) >>= λ t. some (t ++ letter ∷ 43 ∷ [])

-- A size: its G, M and k, and what is left.
unfoldable pub size : ℕ → Option (List ℕ)
size n = part 71 (n / 2 ^ 30) >>= λ g. part 77 (n % 2 ^ 30 / 2 ^ 20) >>= λ m.
    part 107 (n % 2 ^ 20 / 2 ^ 10) >>= λ k. decimal (n % 2 ^ 10) >>= λ t. some (g ++ m ++ k ++ t)

unfoldable pub with_int : (ℕ → Option (List ℕ)) → List Arg → Option (List ℕ × List Arg)
with_int f [] = none
with_int f (int n ∷ args) = f n >>= λ t. some (t, args)
with_int f (str s ∷ args) = none

unfoldable pub with_str : List Arg → Option (List ℕ × List Arg)
with_str [] = none
with_str (int n ∷ args) = none
with_str (str s ∷ args) = some (s, args)

-- The text of a conversion, and the arguments behind it: d and i are decimal, x and X hexadecimal in
-- small and capital letters, H is a size and s a string. Other letters have no text.
unfoldable pub shown : ℕ → List Arg → Option (List ℕ × List Arg)
shown c args =
    if (c == 105) || (c == 100)
    then with_int decimal args
    else if c == 120
    then with_int (signed 97 16 8) args
    else if c == 88
    then with_int (signed 65 16 8) args
    else if c == 72
    then with_int size args
    else if c == 115
    then with_str args
    else some ([], args)
