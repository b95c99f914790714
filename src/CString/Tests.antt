-- ===== src/CString/Tests.antt =====
-- lib/c/string.c at concrete memories.
use jonix.Base.{
  ℕ, zero, suc, ◌+◌, ◌<◌, ◌≡◌, ◌≢◌, refl, inr, none, some, [], ◌∷◌, get_or, Mem, arith,
}
use jonix.Base.Int.{negsuc}
use jonix.CString.{memmove, strlen, strcpy_n, strcat, strcmp}
use jonix.CString.Copy.{Copied, memmove-none}
use jonix.CString.Text.{IsText, Cut, strlen_lem, strcat_lem, strcpy_n_lem}

-- "hi" at 1 and "ho" at 4.
abbrev mem : Mem
mem a = get_or (0 ∷ b'h' ∷ b'i' ∷ 0 ∷ b'h' ∷ b'o' ∷ 0 ∷ []) a 0

hi_inside : (i : ℕ) → i < 2 → mem (1 + i) ≢ 0
hi_inside zero h = omega arith
hi_inside (suc zero) h = omega arith
hi_inside (suc (suc i)) h = absurd (omega arith)

ho_inside : (i : ℕ) → i < 2 → mem (4 + i) ≢ 0
ho_inside zero h = omega arith
ho_inside (suc zero) h = omega arith
ho_inside (suc (suc i)) h = absurd (omega arith)

abbrev hi : IsText mem 1 2
hi = record { inside = hi_inside; end = refl }

abbrev ho : IsText mem 4 2
ho = record { inside = ho_inside; end = refl }

memmove-none_example : memmove 1000 2 1 3 mem ≡ none
memmove-none_example = memmove-none 1000 mem 2 1 3 (omega arith)

strlen_lem_example : strlen 3 1 mem ≡ some 2
strlen_lem_example = strlen_lem 3 mem 1 2 hi (omega arith) (omega arith)

strcat_lem_example : (m' : Mem) × (strcat 3 4 1 mem ≡ some m') × Copied mem m' 6 1 3 × IsText m' 4 4
strcat_lem_example =
    strcat_lem 3 mem 4 1 2 2 ho hi (inr (omega arith)) (omega arith) (omega arith) (omega arith)

strcpy_n_lem_example : (m' : Mem) × (strcpy_n 3 10 1 2 mem ≡ some m') × Cut mem m' 10 1 1
strcpy_n_lem_example =
    strcpy_n_lem 3 mem 10 1 2 2 hi (inr (omega arith)) (omega arith) (omega arith) (omega arith)

strcmp_runs : strcmp 3 1 4 mem ≡ some (negsuc 5)
unfolding strcmp
strcmp_runs = refl
