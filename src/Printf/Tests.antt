-- ===== src/Printf/Tests.antt =====
-- lib/c/printf.c at concrete formats.
use jonix.Base.{◌^◌, ◌-◌, true, false, ◌≡◌, ◌>>=◌, refl, none, some, List, [], ◌∷◌, arith}
use jonix.Base.Int.{negsuc}
use jonix.Printf.{
  int, printf, snprintf, int2str, int2str_16l, digit_str_l, digits, print_digits, num2str, sprint_c,
  sprint_s, conversion, printf_loop, printf_helper, long2str_10h, size_block, size_rest,
}
use jonix.Printf.Digits.{digit_str_l-IsDigits, IsBase-10, int2str-read_int, read_int}
use jonix.Printf.Reference.{shown, with_int, signed, numeral}
use jonix.Printf.Output.{
  Piece, text, convert, IsPlain, rendered, printf-rendered, snprintf-rendered,
}

-- "n=%d", printed with the argument 42.
abbrev pieces : List Piece
pieces = text 110 ∷ text 61 ∷ convert 100 ∷ []

pieces-IsPlain : IsPlain pieces
pieces-IsPlain = (λ e. omega (arith, e), (λ e. omega (arith, e), (λ e. omega (arith, e), tt)))

pieces-rendered : rendered pieces (int 42 ∷ []) ≡ some (110 ∷ 61 ∷ 52 ∷ 50 ∷ [])
unfolding rendered shown with_int signed numeral
pieces-rendered = refl

int2str-read_int_example :
    (int2str digit_str_l 10 12 (2 ^ 32 - 17) >>= λ t. some (read_int 10 t)) ≡ some (negsuc 16)
int2str-read_int_example =
    int2str-read_int digit_str_l digit_str_l-IsDigits 10 IsBase-10 12 (2 ^ 32 - 17) (omega arith)
      (omega arith) (λ e. omega (arith, e))

printf-rendered_example :
    printf (110 ∷ 61 ∷ 37 ∷ 100 ∷ []) (int 42 ∷ [])
    ≡ some (record { written = 110 ∷ 61 ∷ 52 ∷ 50 ∷ []; retval = 4 })
printf-rendered_example =
    printf-rendered pieces (int 42 ∷ []) (110 ∷ 61 ∷ 52 ∷ 50 ∷ []) pieces-IsPlain pieces-rendered
      (omega arith)

snprintf-rendered_example :
    snprintf 3 (110 ∷ 61 ∷ 37 ∷ 100 ∷ []) (int 42 ∷ [])
    ≡ some (record { written = 110 ∷ 61 ∷ 52 ∷ []; retval = 4 })
snprintf-rendered_example =
    snprintf-rendered 3 pieces (int 42 ∷ []) (110 ∷ 61 ∷ 52 ∷ 50 ∷ []) pieces-IsPlain
      pieces-rendered (omega arith)

-- "%%d" prints a % and then the argument.
doubled_percent :
    printf (37 ∷ 37 ∷ 100 ∷ []) (int 7 ∷ []) ≡ some (record { written = 37 ∷ 55 ∷ []; retval = 2 })
unfolding printf_helper printf_loop sprint_c sprint_s conversion int2str num2str print_digits digits
doubled_percent = refl

-- "%%" reads behind the end of the format.
last_percent : printf (37 ∷ 37 ∷ []) [] ≡ none
unfolding printf_helper printf_loop
last_percent = refl

-- The word of -1 in base 16.
minus_one : int2str_16l (2 ^ 32 - 1) ≡ some (45 ∷ 49 ∷ [])
unfolding int2str num2str print_digits digits
minus_one = refl

-- 1073741824 with precision 1 has no NUL behind its G, and 5122 is 5k+2.
one_unit : long2str_10h 1073741824 1 ≡ some (49 ∷ 71 ∷ [], false)
unfolding long2str_10h size_block size_rest int2str num2str print_digits digits
one_unit = refl

two_units : long2str_10h 5122 10 ≡ some (53 ∷ 107 ∷ 43 ∷ 50 ∷ [], true)
unfolding long2str_10h size_block size_rest int2str num2str print_digits digits
two_units = refl
