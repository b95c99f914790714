-- ===== src/Util/OArray.antt =====
-- lib/util/oarray.c: an array of items kept in the order of a comparison function.
-- The slots are those of the memory that the caller gives, so they are a function of the index and
-- a write beyond `max_size` would be a write beyond that memory. The field `cmp` is a pointer to a
-- function that reads memory, so each operation that calls it takes the function as an argument.
pub mod View
pub mod Add
pub mod Del
pub mod Remove
mod Tests
use jonix.Base.{
  ℕ, zero, suc, ◌+◌, ◌-◌, ◌%◌, ◌^◌, Bool, true, false, Option, none, some, ltb, leb, ◌==◌,
  if◌then◌else◌,
}
use jonix.Base.Int.{ℤ, pos, negsuc}
use jonix.Util.Sort.{Item, Cmp, le_zero}

pub record OArray : Type 0 where
  pub array : ℕ → Item
  pub max_size : ℕ
  pub size : ℕ

abbrev pub put : (ℕ → Item) → ℕ → Item → ℕ → Item
put f i x a = if a == i then x else f a

-- `size - 1` over `uint32_t`.
abbrev pub pred32 : ℕ → ℕ
pred32 n = (n + 2 ^ 32 - 1) % 2 ^ 32

unfoldable pub oarray_place : (ℕ → Item) → ℕ → OArray
oarray_place array max_size = record { array = array; max_size = max_size; size = 0 }

-- `while(i < size && cmp(array[i], item) <= 0) i++` with `left` slots to go.
pub find_place : Cmp → (ℕ → Item) → Item → ℕ → ℕ → ℕ
find_place cmp f item zero i = i
find_place cmp f item (suc left) i =
    let rest = find_place cmp f item left (i + 1) in if le_zero (cmp (f i) item) then rest else i

-- `for(j = size++; j > i; j--) array[j] = array[j-1]` with `left` rounds to go.
pub shift_up : ℕ → ℕ → (ℕ → Item) → ℕ → Item
shift_up zero j f = f
shift_up (suc left) j f = shift_up left (j - 1) (put f j (f (j - 1)))

pub oarray_add : Cmp → OArray → Item → OArray × Bool
oarray_add cmp o item =
    if leb o.max_size o.size
    then (o, false)
    else let i = find_place cmp o.array item o.size 0 in
      if i == o.size
      then (record o { array = put o.array o.size item; size = o.size + 1 }, true)
      else (
        record o { array = put (shift_up (o.size - i) o.size o.array) i item; size = o.size + 1 },
        true,
      )

unfoldable pub oarray_get : OArray → ℕ → Item
oarray_get o index = o.array index

pub find_value_loop : (ℕ → Item) → Item → ℕ → ℕ → ℤ
find_value_loop f val zero i = negsuc 0
find_value_loop f val (suc left) i =
    let rest = find_value_loop f val left (i + 1) in if f i == val then pos i else rest

pub oarray_find_value : OArray → Item → ℤ
oarray_find_value o val = find_value_loop o.array val o.size 0

-- `for(j = index; j < size - 1; j++) array[j] = array[j+1]` with `left` rounds to go.
pub shift_down : ℕ → ℕ → (ℕ → Item) → ℕ → Item
shift_down zero j f = f
shift_down (suc left) j f = shift_down left (j + 1) (put f j (f (j + 1)))

pub oarray_del : OArray → ℕ → OArray
oarray_del o index =
    if index == pred32 o.size
    then record o { size = pred32 o.size }
    else record o { array = shift_down (pred32 o.size - index) index o.array; size = pred32 o.size }

pub oarray_del_value : OArray → Item → OArray × Bool
oarray_del_value o val = elim (oarray_find_value o val) [
  | pos index ↦ (oarray_del o index, true)
  | negsuc n ↦ (o, false)
]
