-- ===== src/Caps.antt =====
-- Capabilities: kernel/object/capability.c, and the slot table of kernel/object/cap_group.c and
-- kernel/include/object/cap_group.h. Capability groups and objects are named by numbers, a slot by
-- its group and its place in the table. A bitmap is the function from a bit's number to the bit.
pub mod Capability
pub mod Bits
pub mod Search
pub mod Alloc
pub mod Free
pub mod FreeAll
pub mod Create
pub mod Copy
pub mod Move
pub mod Syscalls
pub mod Tests
use chcore.Common.{
  Bool, List, Option, Run, bug, enomem, false, granted, if◌then◌else◌, is_neg, later_grants, leb,
  ltb, neg, negsuc, none, not, ok, pos, some, suc, true, update, zero, ℕ, ℤ, ◌%◌, ◌&&◌, ◌*◌, ◌+◌,
  ◌-◌, ◌/◌, ◌==◌, ◌^◌,
}

-- `rights` is none where the code never writes it.
pub record ObjectSlot : Type 0 where
  pub isvalid : Bool
  pub rights : Option ℕ
  pub object : ℕ

pub record SlotTable : Type 0 where
  pub slots_size : ℕ
  pub slots : ℕ → Option ObjectSlot
  pub slots_bmp : ℕ → Bool
  pub full_slots_bmp : ℕ → Bool

-- `copies` holds the group and the number of each slot that points to the object.
pub record Object : Type 0 where
  pub type : ℕ
  pub refcount : ℕ
  pub copies : List (ℕ × ℕ)

-- An object that is freed is none. `grants` says which of the coming calls of the heap succeed.
-- `deinits` lists the objects whose type's function for their end was called, the last one first.
pub record Caps : Type 0 where
  pub table : ℕ → SlotTable
  pub object : ℕ → Option Object
  pub grants : List Bool
  pub deinits : List ℕ

abbrev pub bits_per_long : ℕ
bits_per_long = 64

abbrev pub bits_to_longs : ℕ → ℕ
bits_to_longs n = (n + (bits_per_long - 1)) / bits_per_long

-- The first zero among the bits from `p` on, or the bit behind them.
pub find_zero : ℕ → (ℕ → Bool) → ℕ → ℕ
find_zero zero f p = p
find_zero (suc n) f p = let rest = find_zero n f (p + 1) in if f p then rest else p

pub find_next_zero_bit : (ℕ → Bool) → ℕ → ℕ → ℕ
find_next_zero_bit f size from = if leb size from then size else find_zero (size - from) f from

-- Whether the `n` bits from `p` on are all set.
pub all_set : ℕ → (ℕ → Bool) → ℕ → Bool
all_set zero f p = true
all_set (suc n) f p = f p && all_set n f (p + 1)

pub is_valid_slot_id : SlotTable → ℤ → Run Bool
is_valid_slot_id t (negsuc n) = ok false
is_valid_slot_id t (pos i) =
    if leb t.slots_size i
    then ok false
    else if not (t.slots_bmp i)
    then ok false
    else elim (t.slots i) [ none ↦ bug | some s ↦ ok true ]

-- The three calls of `kzalloc`; an earlier one is undone when a later one fails.
pub slot_table_init : ℕ → List Bool → Option SlotTable × List Bool
slot_table_init size grants =
    let rounded : ℕ = bits_to_longs size * bits_per_long in
    let g1 : List Bool = later_grants grants in
    let g2 : List Bool = later_grants g1 in
    if not (granted grants)
    then (none, g1)
    else if not (granted g1)
    then (none, g2)
    else if not (granted g2)
    then (none, later_grants g2)
    else (
      some (record {
        slots_size = rounded % 2 ^ 32;
        slots = λ i. none;
        slots_bmp = λ i. false;
        full_slots_bmp = λ w. false;
      }),
      later_grants g2,
    )

-- The `memcpy` calls into the new table.
abbrev pub copy_table : SlotTable → SlotTable → ℕ → SlotTable
copy_table old new new_size = record {
  slots_size = new_size;
  slots = λ i. if ltb i old.slots_size then old.slots i else new.slots i;
  slots_bmp = λ i.
      if ltb i (bits_to_longs old.slots_size * bits_per_long)
      then old.slots_bmp i
      else new.slots_bmp i;
  full_slots_bmp = λ w.
      if ltb w (bits_to_longs (bits_to_longs old.slots_size) * bits_per_long)
      then old.full_slots_bmp w
      else new.full_slots_bmp w;
}

pub expand_slot_table : SlotTable → List Bool → ℤ × SlotTable × List Bool
unfolding slot_table_init
expand_slot_table t grants =
    let new_size : ℕ = (t.slots_size + bits_per_long) % 2 ^ 32 in
    let (made, rest) = slot_table_init new_size grants in
    elim made [ none ↦ (neg enomem, t, rest) | some new ↦ (pos 0, copy_table t new new_size, rest) ]

-- The two searches of `alloc_slot_id`.
pub empty_idx : SlotTable → Option ℕ
unfolding find_next_zero_bit
empty_idx t =
    let words : ℕ = bits_to_longs t.slots_size in
    let w : ℕ = find_next_zero_bit t.full_slots_bmp words 0 in
    let i : ℕ = find_next_zero_bit t.slots_bmp t.slots_size (w * bits_per_long) in
    if leb words w then none else if leb t.slots_size i then none else some i

-- `set_bit`, and that of the word in `full_slots_bmp`.
pub set_slot : ℕ → SlotTable → SlotTable
set_slot i t =
    let bmp : ℕ → Bool = update t.slots_bmp i true in
    let w : ℕ = i / bits_per_long in
    record t {
      slots_bmp = bmp;
      full_slots_bmp =
          if all_set bits_per_long bmp (w * bits_per_long)
          then update t.full_slots_bmp w true
          else t.full_slots_bmp;
    }

-- The `while` of `alloc_slot_id`. On a table of size 0 the search for a zero bit leaves the bitmap.
pub alloc_loop : ℕ → SlotTable → List Bool → Run (ℤ × SlotTable × List Bool)
alloc_loop zero t grants = bug
alloc_loop (suc f) t grants = elim (t.slots_size == 0) [
  | true ↦ bug
  | false ↦ elim (empty_idx t) [
    | some i ↦ ok (pos i, set_slot i t, grants)
    | none ↦
        let (r, t', rest) = expand_slot_table t grants in
        elim (is_neg r) [ true ↦ ok (r, t', rest) | false ↦ alloc_loop f t' rest ]
  ]
]

-- The table is expanded once at most.
pub alloc_slot_id : SlotTable → List Bool → Run (ℤ × SlotTable × List Bool)
unfolding alloc_loop
alloc_slot_id t grants = alloc_loop 2 t grants

pub free_slot_id : ℕ → SlotTable → SlotTable
free_slot_id i t = record t {
  slots_bmp = update t.slots_bmp i false;
  full_slots_bmp = update t.full_slots_bmp (i / bits_per_long) false;
  slots = update t.slots i none;
}

pub get_slot : SlotTable → ℤ → Option ObjectSlot
get_slot t (negsuc n) = none
get_slot t (pos i) = if leb t.slots_size i then none else t.slots i

-- `BUG_ON` on a clear bit, then the write.
pub install_slot : ℕ → ObjectSlot → SlotTable → Run SlotTable
install_slot i s t =
    if t.slots_bmp i then ok (record t { slots = update t.slots i (some s) }) else bug
