-- ===== src/Printf.antt =====
-- lib/c/printf.c: numbers as text, and formats. A text is the list of its characters before the NUL.
-- `none` stands for a read outside of a table, of the format or of the arguments.
pub mod Digits
pub mod Reference
pub mod Output
mod Tests
use jonix.Base.{
  ℕ, zero, suc, ◌+◌, ◌-◌, ◌/◌, ◌%◌, ◌^◌, Bool, true, false, not, ◌&&◌, ◌||◌, Option, none, some,
  ltb, leb, ◌==◌, if◌then◌else◌, List, [], ◌∷◌, ◌++◌, ◌>>=◌,
}

-- The characters of digit_str_l and digit_str_u, for a digit below 16.
abbrev pub digit_str_l : ℕ → ℕ
digit_str_l d = if ltb d 10 then 48 + d else 87 + d

abbrev pub digit_str_u : ℕ → ℕ
digit_str_u d = if ltb d 10 then 48 + d else 55 + d

-- The array `digits`, from its last element to its first.
unfoldable pub digits : ℕ → ℕ → ℕ → List ℕ
digits base zero num = []
digits base (suc left) num = digits base left (num / base) ++ num % base ∷ []

-- The second loop: the characters that it writes, and print_flag at its end.
unfoldable pub print_digits : (ℕ → ℕ) → Bool → List ℕ → List ℕ × Bool
print_digits digit_str print_flag [] = ([], print_flag)
print_digits digit_str print_flag (d ∷ ds) =
    let flag = print_flag || not (d == 0) in
    let (rest, last_flag) = print_digits digit_str flag ds in
    (if flag then digit_str d ∷ rest else rest, last_flag)

-- The macro DEFINE_NUM2STR after the sign; `places` is the length of the array.
unfoldable pub num2str : (ℕ → ℕ) → ℕ → ℕ → ℕ → List ℕ
num2str digit_str base places num =
    let (text, print_flag) = print_digits digit_str false (digits base places num) in
    if print_flag then text else 48 ∷ []

-- The macro for an int, as its word: the least int stays negative, and so do its digits.
unfoldable pub int2str : (ℕ → ℕ) → ℕ → ℕ → ℕ → Option (List ℕ)
int2str digit_str base places num =
    if ltb num (2 ^ 31)
    then some (num2str digit_str base places num)
    else if num == 2 ^ 31
    then none
    else some (45 ∷ num2str digit_str base places (2 ^ 32 - num))

abbrev pub int2str_10l : ℕ → Option (List ℕ)
int2str_10l num = int2str digit_str_l 10 12 num

abbrev pub int2str_16l : ℕ → Option (List ℕ)
int2str_16l num = int2str digit_str_l 16 8 num

abbrev pub int2str_16u : ℕ → Option (List ℕ)
int2str_16u num = int2str digit_str_u 16 8 num

-- A step of long2str_10h: what is left of `num` and `precision`, whether a plus is needed, and the
-- text so far.
pub record Sizes : Type 0 where
  pub num : ℕ
  pub precision : ℕ
  pub need_plus : Bool
  pub text : List ℕ
  pub terminated : Bool

abbrev pub plus : Sizes → List ℕ
plus s = if s.need_plus then s.text ++ 43 ∷ [] else s.text

-- One of the first three blocks, for a unit and its letter. Only that for `k` writes a NUL behind the
-- letter.
unfoldable pub size_block : ℕ → ℕ → Bool → Sizes → Option Sizes
size_block unit letter nul s =
    if not (s.precision == 0) && leb unit s.num
    then (int2str_10l (s.num / unit) >>= λ t. some (record {
      num = s.num % unit;
      precision = s.precision - 1;
      need_plus = true;
      text = plus s ++ t ++ letter ∷ [];
      terminated = nul;
    }))
    else some s

unfoldable pub size_rest : Sizes → Option Sizes
size_rest s =
    if not (s.precision == 0)
    then (int2str_10l s.num >>= λ t.
        some (record s { need_plus = true; text = plus s ++ t; terminated = true }))
    else some s

-- The text, and whether a NUL stands behind it. `num` and `precision` are unsigned.
pub long2str_10h : ℕ → ℕ → Option (List ℕ × Bool)
unfolding size_block size_rest
long2str_10h num precision =
    size_block 1073741824 71 false (record {
      num = num;
      precision = precision;
      need_plus = false;
      text = [];
      terminated = false;
    })
    >>= (λ s1. size_block 1048576 77 false s1)
    >>= (λ s2. size_block 1024 107 true s2)
    >>= (λ s3. size_rest s3)
    >>= (λ s. some (if s.need_plus then (s.text, s.terminated) else (s.text ++ 48 ∷ [], true)))

-- A variable argument: an int, or the text at a char pointer.
pub data Arg : Type 0 where
  int : ℕ → Arg
  str : List ℕ → Arg

-- The screen, if `buffer` is NULL, or a buffer of this size.
pub data Target : Type 0 where
  screen : Target
  buffer : ℕ → Target

-- What has been written, and the value to return.
pub record Out : Type 0 where
  pub written : List ℕ
  pub retval : ℕ

-- SPRINT_C and SPRINT_S.
unfoldable pub sprint_c : Target → Out → ℕ → Out
sprint_c screen o c = record { written = o.written ++ c ∷ []; retval = (o.retval + 1) % 2 ^ 32 }
sprint_c (buffer size) o c = record {
  written = if ltb o.retval size then o.written ++ c ∷ [] else o.written;
  retval = (o.retval + 1) % 2 ^ 32;
}

unfoldable pub sprint_s : Target → Out → List ℕ → Out
sprint_s t o [] = o
sprint_s t o (c ∷ cs) = sprint_s t (sprint_c t o c) cs

-- An argument through va_arg.
abbrev pub next_int : List Arg → Option (ℕ × List Arg)
next_int (int n ∷ args) = some (n, args)
next_int args = none

abbrev pub next_str : List Arg → Option (List ℕ × List Arg)
next_str (str s ∷ args) = some (s, args)
next_str args = none

-- The text of an int argument.
abbrev pub int_text : (ℕ → Option (List ℕ)) → List Arg → Option (List ℕ × List Arg)
int_text f args = next_int args >>= λ (n, rest). f n >>= λ t. some (t, rest)

abbrev pub size_text : ℕ → Option (List ℕ)
size_text n = long2str_10h n 10 >>= λ (t, terminated). if terminated then some t else none

-- The switch over the letter of a conversion: the text, and the arguments that are left. An unknown
-- letter writes nothing.
unfoldable pub conversion : ℕ → List Arg → Option (List ℕ × List Arg)
conversion c args =
    if (c == 105) || (c == 100)
    then int_text int2str_10l args
    else if c == 120
    then int_text int2str_16l args
    else if c == 88
    then int_text int2str_16u args
    else if c == 72
    then int_text size_text args
    else if c == 115
    then next_str args
    else some ([], args)

-- The loop of _printf_helper. Behind a % that is doubled, the format goes on at the second one. A %
-- at the end makes the code read behind the NUL of the format.
unfoldable pub printf_loop : Target → Out → List ℕ → List Arg → Option Out
printf_loop t o [] args = some o
printf_loop t o (c ∷ []) args = if c == 37 then none else some (sprint_c t o c)
printf_loop t o (c ∷ d ∷ format) args =
    let plain = printf_loop t (sprint_c t o c) (d ∷ format) args in
    if not (c == 37)
    then plain
    else if d == 37
    then plain
    else conversion d args >>= λ (text, rest). printf_loop t (sprint_s t o text) format rest

unfoldable pub printf_helper : Target → List ℕ → List Arg → Option Out
printf_helper t format args = printf_loop t (record { written = []; retval = 0 }) format args

-- The buffer of vsnprintf and snprintf is not NULL; with a NULL one they panic.
abbrev pub snprintf : ℕ → List ℕ → List Arg → Option Out
snprintf size format args = printf_helper (buffer size) format args

abbrev pub printf : List ℕ → List Arg → Option Out
printf format args = printf_helper screen format args
