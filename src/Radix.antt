-- ===== src/Radix.antt =====
-- The radix tree of kernel/lib/radix.c: the pages of a memory object by their index.
pub mod Keys
pub mod Add
pub mod Tests
use chcore.Common.{
  Bool, List, Option, Run, bug, enomem, false, granted, if◌then◌else◌, is_some, later_grants, neg,
  none, ok, pos, some, suc, true, update, zero, ℕ, ℤ, ◌%◌, ◌&&◌, ◌/◌, ◌>>=◌, ◌^◌,
}

abbrev pub radix_node_bits : ℕ
radix_node_bits = 4

abbrev pub radix_levels : ℕ
radix_levels = 16

-- `key & RADIX_NODE_MASK` after `level` shifts by RADIX_NODE_BITS.
abbrev pub index : ℕ → ℕ → ℕ
index level key = key / 16 ^ level % 16

-- A node above so many levels: the values at the leaf level, the children above it.
abbrev pub Node : ℕ → Type 0
Node zero = ℕ → Option ℕ
Node (suc level) = ℕ → Option (Node level)

-- `kzalloc` of a node.
abbrev pub empty_node : (level : ℕ) → Node level
empty_node zero = λ k. none
empty_node (suc level) = λ k. none

-- `root` is none before the first use; `grants` says which of the coming calls of the heap succeed.
pub record Radix : Type 0 where
  pub root : Option (Node 15)
  pub grants : List Bool

-- A write of a value other than NULL over such a value stops the kernel.
abbrev pub clashes : Option ℕ → Option ℕ → Bool
clashes old new = is_some old && is_some new

-- The loop of `radix_add` from a node on: the result, the node, and the grants left. Nodes made
-- before the heap ran out stay.
unfoldable pub add_below :
    (level : ℕ) → ℕ → Option ℕ → Node level → List Bool → Run (ℤ × Node level × List Bool)
add_below zero key value node grants =
    if clashes (node (index 0 key)) value
    then bug
    else ok (pos 0, update node (index 0 key) value, grants)
add_below (suc level) key value node grants = elim (node (index (suc level) key)) [
  | some child ↦ do
    (r, child', rest) ← add_below level key value child grants
    ok (r, update node (index (suc level) key) (some child'), rest)
  | none ↦ elim (granted grants) [
    | false ↦ ok (neg enomem, node, later_grants grants)
    | true ↦ do
      (r, child', rest) ← add_below level key value (empty_node level) (later_grants grants)
      ok (r, update node (index (suc level) key) (some child'), rest)
  ]
]

unfoldable pub radix_add : ℕ → Option ℕ → Radix → Run (ℤ × Radix)
unfolding add_below
radix_add key value radix = elim radix.root [
  | some root ↦ do
    (r, root', rest) ← add_below 15 key value root radix.grants
    ok (r, record { root = some root'; grants = rest })
  | none ↦ elim (granted radix.grants) [
    | false ↦ ok (neg enomem, record radix { grants = later_grants radix.grants })
    | true ↦ do
      (r, root', rest) ← add_below 15 key value (empty_node 15) (later_grants radix.grants)
      ok (r, record { root = some root'; grants = rest })
  ]
]

unfoldable pub get_below : (level : ℕ) → ℕ → Node level → Option ℕ
get_below zero key node = node (index 0 key)
get_below (suc level) key node = elim (node (index (suc level) key)) [
  | none ↦ none
  | some child ↦ get_below level key child
]

unfoldable pub radix_get : ℕ → Radix → Option ℕ
unfolding get_below
radix_get key radix = elim radix.root [ none ↦ none | some root ↦ get_below 15 key root ]

pub radix_del : ℕ → Radix → Run (ℤ × Radix)
unfolding radix_add
radix_del key radix = radix_add key none radix
