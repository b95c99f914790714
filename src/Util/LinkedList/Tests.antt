-- ===== src/Util/LinkedList/Tests.antt =====
-- lib/util/list.c at a list of three nodes.
use jonix.Base.{◌==◌, if◌then◌else◌, refl, [], ◌∷◌, arith}
use jonix.Util.LinkedList.{Nodes, ListHead}
use jonix.Util.LinkedList.Get.{Chain}

abbrev three : ListHead
three = record { first = 100; last = 300; size = 3 }

abbrev three_nodes : Nodes
three_nodes p =
    if p == 100
    then record { value = 7; next = 200; prev = 0 }
    else if p == 200
    then record { value = 8; next = 300; prev = 100 }
    else record { value = 9; next = 0; prev = 200 }

three-Chain : Chain three_nodes 0 100 (7 ∷ 8 ∷ 9 ∷ [])
three-Chain = (
  λ e. omega (arith, e),
  refl,
  refl,
  (λ e. omega (arith, e), refl, refl, (λ e. omega (arith, e), refl, refl, refl)),
)
