-- ===== src/Util/LinkedList.antt =====
-- lib/util/list.c: doubly linked lists, plain and ordered. The nodes are a function of the address.
-- Address 0 is memory like any other, as the kernel maps it, so a node at NULL can be read and
-- written. `kmalloc` and `kfree` of lib/mem.c are an interface.
pub mod Chain
pub mod Rep
pub mod Splice
pub mod Live
pub mod Insert
pub mod Remove
pub mod Pair
pub mod Get
mod Tests
use jonix.Base.{
  ℕ, zero, suc, ◌+◌, ◌-◌, ◌/◌, ◌%◌, ◌^◌, Bool, true, false, not, Option, none, some, ltb, leb, ◌==◌,
  if◌then◌else◌, Ptr, null,
}
use jonix.Util.Sort.{Item, Cmp, le_zero}
use jonix.Util.OArray.{pred32}

pub record Node : Type 0 where
  pub value : Item
  pub next : Ptr
  pub prev : Ptr

abbrev pub Nodes : Type 0
Nodes = Ptr → Node

pub record ListHead : Type 0 where
  pub first : Ptr
  pub last : Ptr
  pub size : ℕ

pub record Allocator : Type 1 where
  pub State : Type 0
  pub kmalloc : State → ℕ → State × Ptr
  pub kfree : State → Ptr → State

abbrev pub sizeof_node : ℕ
sizeof_node = 12

abbrev pub store_node : Ptr → Node → Nodes → Nodes
store_node p n nodes q = if q == p then n else nodes q

abbrev pub set_next : Ptr → Ptr → Nodes → Nodes
set_next p v nodes = store_node p (record (nodes p) { next = v }) nodes

abbrev pub set_prev : Ptr → Ptr → Nodes → Nodes
set_prev p v nodes = store_node p (record (nodes p) { prev = v }) nodes

pub list_new : ListHead
list_new = record { first = null; last = null; size = 0 }

pub list_add :
    (A : Allocator) → A.State → ListHead → Nodes → Item → A.State × ListHead × Nodes × Bool
list_add A s h nodes item =
    let (s', node) = A.kmalloc s sizeof_node in
    if node == null
    then (s', h, nodes, false)
    else if h.size == 0
    then (
      s',
      record { first = node; last = node; size = 1 },
      store_node node (record { value = item; next = null; prev = null }) nodes,
      true,
    )
    else (
      s',
      record h { last = node; size = (h.size + 1) % 2 ^ 32 },
      store_node node (record { value = item; next = null; prev = h.last })
          (set_next h.last node nodes),
      true,
    )

-- The loops that follow `next` and `prev`, with the rounds that are left.
pub walk_next : ℕ → Nodes → Ptr → Ptr
walk_next zero nodes node = node
walk_next (suc left) nodes node = walk_next left nodes (nodes node).next

pub walk_prev : ℕ → Nodes → Ptr → Ptr
walk_prev zero nodes node = node
walk_prev (suc left) nodes node = walk_prev left nodes (nodes node).prev

pub list_set : ListHead → Nodes → ℕ → Item → Nodes × Bool
unfolding walk_next
list_set h nodes index value =
    let node = walk_next index nodes h.first in
    if leb h.size index
    then (nodes, false)
    else (store_node node (record (nodes node) { value = value }) nodes, true)

-- The first node is taken off without a change of `last`, and any other node too.
pub list_del : (A : Allocator) → A.State → ListHead → Nodes → ℕ → A.State × ListHead × Nodes × Item
unfolding walk_next
list_del A s h nodes index =
    let new_first = (nodes h.first).next in
    let node = walk_next index nodes h.first in
    let prev = (nodes node).prev in
    let next = (nodes node).next in
    let unlinked = set_next prev next nodes in
    if leb h.size index
    then (s, h, nodes, 0)
    else if index == 0
    then (
      A.kfree s h.first,
      record h { first = new_first; size = pred32 h.size },
      set_prev new_first null nodes,
      (nodes h.first).value,
    )
    else (
      A.kfree s node,
      record h { size = pred32 h.size },
      if next == null then unlinked else set_prev next prev unlinked,
      (nodes node).value,
    )

-- The index is unsigned, so it is never negative, and the test for it has no effect.
pub list_get : ListHead → Nodes → ℕ → Item
unfolding walk_next walk_prev
list_get h nodes index =
    if ltb h.size ((index + 1) % 2 ^ 32)
    then 0
    else if leb index (pred32 h.size / 2)
    then (nodes (walk_next index nodes h.first)).value
    else (nodes (walk_prev (pred32 h.size - index) nodes h.last)).value

-- The loops of list_free.
pub free_nodes : (A : Allocator) → ℕ → A.State → Nodes → Bool → Ptr → Option A.State
free_nodes A zero s nodes free_values node = none
free_nodes A (suc fuel) s nodes free_values node =
    let s1 = if free_values then A.kfree s (nodes node).value else s in
    let rest = free_nodes A fuel (A.kfree s1 node) nodes free_values (nodes node).next in
    if node == null then some s else rest

pub list_free :
    (A : Allocator) → ℕ → A.State → ListHead → Nodes → Bool → Bool → Ptr → Option A.State
unfolding free_nodes
list_free A fuel s h nodes free_values free_head list =
    elim (free_nodes A fuel s nodes free_values h.first) [
      | none ↦ none
      | some s' ↦ some (if free_head then A.kfree s' list else s')
    ]

-- The loop of olist_add: the first node whose value compares greater than the item, or NULL.
pub olist_place : ℕ → Cmp → Nodes → Item → Ptr → Option Ptr
olist_place zero cmp nodes item node = none
olist_place (suc fuel) cmp nodes item node =
    let rest = olist_place fuel cmp nodes item (nodes node).next in
    if node == null
    then some null
    else if le_zero (cmp (nodes node).value item)
    then rest
    else some node

-- The end of olist_add: the new node goes before `node`, or behind the last if that is NULL.
pub olist_link : ListHead → Nodes → Item → Ptr → Ptr → ListHead × Nodes
olist_link h nodes item new_node node =
    let prev = (nodes node).prev in
    let size = (h.size + 1) % 2 ^ 32 in
    let new_last : Node = record { value = item; next = null; prev = h.last } in
    let inner : Node = record { value = item; next = node; prev = prev } in
    if node == null
    then (
      record h { last = new_node; size = size },
      set_next h.last new_node (store_node new_node new_last nodes),
    )
    else if prev == null
    then (
      record h { first = new_node; size = size },
      set_prev node new_node (store_node new_node inner nodes),
    )
    else (
      record h { size = size },
      set_prev node new_node (set_next prev new_node (store_node new_node inner nodes)),
    )

pub olist_add :
    (A : Allocator)
    → ℕ
    → Cmp
    → A.State
    → ListHead
    → Nodes
    → Item
    → Option (A.State × ListHead × Nodes × Bool)
unfolding olist_place olist_link
olist_add A fuel cmp s h nodes item =
    let (s', new_node) = A.kmalloc s sizeof_node in
    if new_node == null
    then some (s', h, nodes, false)
    else if h.size == 0
    then some (
      s',
      record { first = new_node; last = new_node; size = 1 },
      store_node new_node (record { value = item; next = null; prev = null }) nodes,
      true,
    )
    else elim (olist_place fuel cmp nodes item h.first) [
      | none ↦ none
      | some node ↦
          (let (h', nodes') = olist_link h nodes item new_node node in some (s', h', nodes', true))
    ]

-- The other functions of ordered lists are those of plain ones; `cmp` is an argument of olist_add.
pub olist_new : ListHead
olist_new = record { first = null; last = null; size = 0 }

pub olist_del : (A : Allocator) → A.State → ListHead → Nodes → ℕ → A.State × ListHead × Nodes × Item
unfolding list_del
olist_del A s h nodes index = list_del A s h nodes index

pub olist_get : ListHead → Nodes → ℕ → Item
unfolding list_get
olist_get h nodes index = list_get h nodes index

pub olist_free :
    (A : Allocator) → ℕ → A.State → ListHead → Nodes → Bool → Bool → Ptr → Option A.State
unfolding list_free
olist_free A fuel s h nodes free_values free_head list =
    list_free A fuel s h nodes free_values free_head list
