-- ===== src/Printf/Output.antt =====
-- lib/c/printf.c: what a format prints, on the screen and into a buffer.
use mathlib.Core.List.{append-nil, append_assoc}
use jonix.Base.{
  ℕ, zero, suc, ◌+◌, ◌-◌, ◌%◌, ◌^◌, ◌<◌, ◌≡◌, ◌≢◌, refl, ap, ◌∙◌, Option, some, none, ltb, List, [],
  ◌∷◌, ◌++◌, length, arith, Bool-cases, inl, inr, ne→==, min, ◌>>=◌,
}
use jonix.Printf.{
  Arg, Target, screen, buffer, Out, sprint_c, sprint_s, conversion, printf_loop, printf_helper,
  snprintf, printf,
}
use jonix.Printf.Reference.{shown}
use jonix.Printf.Reference.Texts.{conversion-shown}

-- The first characters of a text.
abbrev pub take : ℕ → List ℕ → List ℕ
take zero cs = []
take (suc n) [] = []
take (suc n) (c ∷ cs) = c ∷ take n cs

-- A format as the text between its conversions. A piece of text has no %.
pub data Piece : Type 0 where
  text : ℕ → Piece
  convert : ℕ → Piece

abbrev pub format_of : List Piece → List ℕ
format_of [] = []
format_of (text c ∷ ps) = c ∷ format_of ps
format_of (convert c ∷ ps) = 37 ∷ c ∷ format_of ps

abbrev pub IsPlain : List Piece → Type 0
IsPlain [] = Unit {0}
IsPlain (text c ∷ ps) = (c ≢ 37) × IsPlain ps
IsPlain (convert c ∷ ps) = (c ≢ 37) × IsPlain ps

-- What the pieces stand for, each conversion with the next argument.
unfoldable pub rendered : List Piece → List Arg → Option (List ℕ)
rendered [] args = some []
rendered (text c ∷ ps) args = rendered ps args >>= λ t. some (c ∷ t)
rendered (convert c ∷ ps) args =
    shown c args >>= λ (t, rest). rendered ps rest >>= λ t'. some (t ++ t')

sprint_s-append :
    (t : Target) (o : Out) (xs ys : List ℕ)
    → sprint_s t (sprint_s t o xs) ys ≡ sprint_s t o (xs ++ ys)
unfolding sprint_s
sprint_s-append t o [] ys = refl
sprint_s-append t o (x ∷ xs) ys = sprint_s-append t (sprint_c t o x) xs ys

-- A step over one character that is not a %.
plain_step :
    (t : Target) (o : Out) (c : ℕ) (format : List ℕ) (args : List Arg)
    → c ≢ 37
    → printf_loop t o (c ∷ format) args ≡ printf_loop t (sprint_c t o c) format args
unfolding printf_loop
plain_step t o c [] args ne = rw (ne→== c 37 ne) refl
plain_step t o c (d ∷ format) args ne = rw (ne→== c 37 ne) refl

conversion_step :
    (t : Target) (o : Out) (c : ℕ) (format : List ℕ) (args : List Arg)
    → c ≢ 37
    → printf_loop t o (37 ∷ c ∷ format) args
      ≡ (conversion c args >>= λ (s, rest). printf_loop t (sprint_s t o s) format rest)
unfolding printf_loop
conversion_step t o c format args ne = rw (ne→== c 37 ne) refl

text_rendered :
    (t : Target) (o : Out) (c : ℕ) (r : Option (List ℕ))
    → (r >>= λ out. some (sprint_s t (sprint_c t o c) out))
      ≡ ((r >>= λ out. some (c ∷ out)) >>= λ out. some (sprint_s t o out))
unfolding sprint_s
text_rendered t o c none = refl
text_rendered t o c (some out) = refl

conversion_rendered :
    (t : Target) (o : Out) (s : List ℕ) (r : Option (List ℕ))
    → (r >>= λ out. some (sprint_s t (sprint_s t o s) out))
      ≡ ((r >>= λ out. some (s ++ out)) >>= λ out. some (sprint_s t o out))
conversion_rendered t o s none = refl
conversion_rendered t o s (some out) = ap some (sprint_s-append t o s out)

later_rendered :
    (t : Target) (o : Out) (ps : List Piece)
    → ((o' : Out) (rest : List Arg)
        → printf_loop t o' (format_of ps) rest
          ≡ (rendered ps rest >>= λ out. some (sprint_s t o' out)))
    → (r : Option (List ℕ × List Arg))
    → (r >>= λ (s, rest). printf_loop t (sprint_s t o s) (format_of ps) rest) ≡ (
        (r >>= λ (s, rest). rendered ps rest >>= λ s'. some (s ++ s')) >>= λ out.
        some (sprint_s t o out))
later_rendered t o ps later none = refl
later_rendered t o ps later (some (s, rest)) =
    later (sprint_s t o s) rest ∙ conversion_rendered t o s (rendered ps rest)

-- Every format of such pieces writes what they stand for.
printf_loop-rendered :
    (t : Target) (o : Out) (ps : List Piece) (args : List Arg)
    → IsPlain ps
    → printf_loop t o (format_of ps) args ≡ (rendered ps args >>= λ out. some (sprint_s t o out))
unfolding rendered printf_loop sprint_s
printf_loop-rendered t o [] args plain = refl
printf_loop-rendered t o (text c ∷ ps) args plain =
    plain_step t o c (format_of ps) args plain.0
    ∙ printf_loop-rendered t (sprint_c t o c) ps args plain.1
    ∙ text_rendered t o c (rendered ps args)
printf_loop-rendered t o (convert c ∷ ps) args plain =
    conversion_step t o c (format_of ps) args plain.0
    ∙ ap (λ r. r >>= λ (s, rest). printf_loop t (sprint_s t o s) (format_of ps) rest)
        (conversion-shown c args)
    ∙ later_rendered t o ps (λ o' rest. printf_loop-rendered t o' ps rest plain.1) (shown c args)

abbrev out_of : List ℕ → ℕ → Out
out_of cs n = record { written = cs; retval = n }

-- The screen gets the whole text.
sprint_s-screen :
    (o : Out) (cs : List ℕ)
    → o.retval + length cs < 2 ^ 32
    → sprint_s screen o cs ≡ record { written = o.written ++ cs; retval = o.retval + length cs }
unfolding sprint_s sprint_c
sprint_s-screen o [] few =
    let same : o.retval + 0 ≡ o.retval = omega arith in rw (append-nil o.written, same) refl
sprint_s-screen o (c ∷ cs) few =
    let next : Out = record { written = o.written ++ c ∷ []; retval = (o.retval + 1) % 2 ^ 32 } in
    let count : (o.retval + 1) % 2 ^ 32 + length cs ≡ o.retval + suc (length cs) =
      omega (arith, few) in
    sprint_s-screen next cs (omega (arith, few))
    ∙ rw (append_assoc o.written (c ∷ []) cs, count) refl

take-nil : (n : ℕ) → take n [] ≡ []
take-nil zero = refl
take-nil (suc n) = refl

-- A buffer gets what fits into it.
sprint_s-buffer :
    (size : ℕ) (o : Out) (cs : List ℕ)
    → o.retval + length cs < 2 ^ 32
    → sprint_s (buffer size) o cs
      ≡ record { written = o.written ++ take (size - o.retval) cs; retval = o.retval + length cs }
unfolding sprint_s sprint_c
sprint_s-buffer size o [] few =
    let same : o.retval + 0 ≡ o.retval = omega arith in
    rw (take-nil (size - o.retval), append-nil o.written, same) refl
sprint_s-buffer size o (c ∷ cs) few =
    let later : ℕ = (o.retval + 1) % 2 ^ 32 in
    let count : later + length cs ≡ o.retval + suc (length cs) = omega (arith, few) in
    elim (Bool-cases (ltb o.retval size)) [
      | inl e ↦
          let left : size - o.retval ≡ suc (size - later) = ground (arith, e, few) in
          rw e (
            sprint_s-buffer size (record { written = o.written ++ c ∷ []; retval = later }) cs
              (omega (arith, few))
            ∙ rw (append_assoc o.written (c ∷ []) (take (size - later) cs), count, left) refl)
      | inr e ↦
          let left : size - o.retval ≡ 0 = ground (arith, e) in
          let none_left : size - later ≡ 0 = ground (arith, e, few) in
          rw e (
            sprint_s-buffer size (record { written = o.written; retval = later }) cs
              (omega (arith, few))
            ∙ rw (count, left, none_left) refl)
    ]

length-take : (n : ℕ) (cs : List ℕ) → length (take n cs) ≡ min n (length cs)
length-take zero cs = omega arith
length-take (suc n) [] = omega arith
length-take (suc n) (c ∷ cs) = omega (arith, length-take n cs)

-- printf of a format whose conversions all find their argument, which has no doubled percent sign
-- and whose text is shorter than 2^32 characters, writes the text with each conversion replaced by
-- that of its argument, a decimal or hexadecimal numeral, a size or a string, and returns its
-- length.
pub printf-rendered :
    (ps : List Piece) (args : List Arg) (out : List ℕ)
    → IsPlain ps
    → rendered ps args ≡ some out
    → length out < 2 ^ 32
    → printf (format_of ps) args ≡ some (record { written = out; retval = length out })
unfolding printf_helper
printf-rendered ps args out plain e few =
    let empty : Out = record { written = []; retval = 0 } in
    let zero_left : 0 + length out ≡ length out = omega arith in
    let all : sprint_s screen empty out ≡ record { written = out; retval = length out } =
      sprint_s-screen empty out (omega (arith, few)) ∙ ap (out_of out) zero_left in
    printf_loop-rendered screen empty ps args plain ∙ rw (e, all) refl

-- snprintf, for such a format, writes the first characters of that text, as many as the size allows
-- and without a NUL, and returns the length of the whole.
pub snprintf-rendered :
    (size : ℕ) (ps : List Piece) (args : List Arg) (out : List ℕ)
    → IsPlain ps
    → rendered ps args ≡ some out
    → length out < 2 ^ 32
    → snprintf size (format_of ps) args
      ≡ some (record { written = take size out; retval = length out })
unfolding printf_helper
snprintf-rendered size ps args out plain e few =
    let empty : Out = record { written = []; retval = 0 } in
    let zero_left : 0 + length out ≡ length out = omega arith in
    let all_left : size - 0 ≡ size = omega arith in
    let all : sprint_s (buffer size) empty out
        ≡ record { written = take size out; retval = length out } =
      sprint_s-buffer size empty out (omega (arith, few))
      ∙ ap (λ n. out_of (take n out) (0 + length out)) all_left
      ∙ ap (out_of (take size out)) zero_left in
    printf_loop-rendered (buffer size) empty ps args plain ∙ rw (e, all) refl
