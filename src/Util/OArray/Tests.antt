-- ===== src/Util/OArray/Tests.antt =====
-- lib/util/oarray.c at a concrete array.
use mathlib.Core.List.{Perm}
use jonix.Base.{◌+◌, ◌≡◌, refl, true, [], ◌∷◌, get_or, arith}
use jonix.Base.Int.{pos}
use jonix.Util.Sort.{Cmp, cmp_member, cmp_member_up}
use jonix.Util.OArray.{OArray, find_place, shift_up, oarray_add, oarray_del_value}
use jonix.Util.OArray.View.{items, erase, IsSorted}
use jonix.Util.OArray.Add.{oarray_add-IsSorted}
use jonix.Util.OArray.Del.{oarray_del_value-erase}

-- Items are compared by their own number.
abbrev by_number : Cmp
by_number = cmp_member (pos 1) (λ a. a)

abbrev three : OArray
three = record { array = λ i. get_or (2 ∷ 5 ∷ 9 ∷ []) i 0; max_size = 5; size = 3 }

three-IsSorted : IsSorted by_number (items three)
unfolding cmp_member
three-IsSorted = ((refl, (refl, tt)), ((refl, tt), (tt, tt)))

oarray_add-IsSorted_example :
    IsSorted by_number (items (oarray_add by_number three 7).0)
    × Perm (items (oarray_add by_number three 7).0) (7 ∷ items three)
oarray_add-IsSorted_example =
    oarray_add-IsSorted by_number three 7 (cmp_member_up (λ a. a)) (omega arith) three-IsSorted

oarray_del_value-erase_example :
    ((oarray_del_value three 5).1 ≡ true)
    × (items (oarray_del_value three 5).0 ≡ erase 5 (items three))
    × ((oarray_del_value three 5).0.size + 1 ≡ 3)
    × ((oarray_del_value three 5).0.max_size ≡ 5)
oarray_del_value-erase_example = oarray_del_value-erase three 5 (omega arith) refl

add_runs : items (oarray_add by_number three 7).0 ≡ 2 ∷ 5 ∷ 7 ∷ 9 ∷ []
unfolding oarray_add find_place shift_up cmp_member
add_runs = refl
