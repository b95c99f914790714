-- ===== src/Util/Sort.antt =====
-- lib/util/sort.h: the items of the containers and the comparison functions that order them.
use jonix.Base.{◌+◌, ◌-◌, ℕ, ◌≡◌, Bool, true, false, ltb, leb, ◌==◌, if◌then◌else◌, Ptr, arith}
use jonix.Base.Int.{ℤ, pos, negsuc}

-- `list_item_t` is `void *`.
abbrev pub Item : Type 0
Item = Ptr

abbrev pub Cmp : Type 0
Cmp = Item → Item → ℤ

abbrev pub neg : ℤ → ℤ
neg (pos n) = if n == 0 then pos 0 else negsuc (n - 1)
neg (negsuc n) = pos (n + 1)

-- The macro DEFINE_CMP_MEMBER: `member` reads the member of the struct that an item points at.
unfoldable pub cmp_member : ℤ → (Item → ℕ) → Cmp
cmp_member direction member a b =
    if member a == member b
    then pos 0
    else if ltb (member b) (member a)
    then direction
    else neg direction

-- The test `cmp(a, b) <= 0`.
abbrev pub le_zero : ℤ → Bool
le_zero (pos n) = leb n 0
le_zero (negsuc n) = true

-- What the containers rely on: `cmp(a, b) <= 0` is a total preorder.
pub record IsOrder (cmp : Cmp) : Type 0 where
  pub trans :
      (a b c : Item)
      → le_zero (cmp a b) ≡ true
      → le_zero (cmp b c) ≡ true
      → le_zero (cmp a c) ≡ true
  pub total : (a b : Item) → le_zero (cmp a b) ≡ false → le_zero (cmp b a) ≡ true

-- A comparison by a member is such an order, upwards and downwards.
pub cmp_member_up : (member : Item → ℕ) → IsOrder (cmp_member (pos 1) member)
unfolding cmp_member
cmp_member_up member = record { trans = λ a b c p q. ground arith; total = λ a b p. ground arith }

pub cmp_member_down : (member : Item → ℕ) → IsOrder (cmp_member (negsuc 0) member)
unfolding cmp_member
cmp_member_down member = record { trans = λ a b c p q. ground arith; total = λ a b p. ground arith }

-- The upward comparison holds exactly if the members are in order.
pub cmp_member_le :
    (member : Item → ℕ) (a b : Item)
    → (le_zero (cmp_member (pos 1) member a b) ≡ leb (member a) (member b))
unfolding cmp_member
cmp_member_le member a b = ground arith
