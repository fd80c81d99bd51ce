-- ===== src/Caps/Tests.antt =====
-- Tests of kernel/object/capability.c: group 0 holds object 7 in slot 0, the other groups are empty.
use chcore.Common.{
  Bool, List, [], arith, false, if◌then◌else◌, ltb, none, ok, pos, refl, some, sym, true, ℕ,
  ℕ_discrete, ◌*◌, ◌+◌, ◌==◌, ◌∷◌, ◌≡◌, ◌≢◌, ◌⊎◌,
}
use chcore.Caps.{Caps, Object, ObjectSlot, SlotTable, all_set, alloc_slot_id}
use chcore.Caps.Capability.{cap_copy, cap_free_all, cap_move, obj_alloc, obj_free}
use chcore.Caps.Bits.{all_set_of, not_all_set}
use chcore.Caps.Search.{IsFirst, TableValid}
use chcore.Caps.Alloc.{Allocated, alloc_slot_id-Allocated}
use chcore.Caps.FreeAll.{HasCap, IsHeld, cap_free_all-remaining, remaining}
use chcore.Caps.Copy.{cap_copy-IsHeld, copied}
use chcore.Caps.Move.{cap_move-IsHeld, without}

abbrev pub empty_table : SlotTable
empty_table = record {
  slots_size = 64;
  slots = λ i. none;
  slots_bmp = λ i. false;
  full_slots_bmp = λ w. false;
}

abbrev pub slot_7 : ObjectSlot
slot_7 = record { isvalid = true; rights = some 0; object = 7 }

abbrev pub table_7 : SlotTable
table_7 = record {
  slots_size = 64;
  slots = λ i. if i == 0 then some slot_7 else none;
  slots_bmp = λ i. i == 0;
  full_slots_bmp = λ w. false;
}

abbrev pub full_table : SlotTable
full_table = record {
  slots_size = 64;
  slots = λ i. if ltb i 64 then some slot_7 else none;
  slots_bmp = λ i. ltb i 64;
  full_slots_bmp = λ w. w == 0;
}

abbrev pub object_7 : Object
object_7 = record { type = 5; refcount = 1; copies = (0, 0) ∷ [] }

abbrev pub new_object : Object
new_object = record { type = 5; refcount = 0; copies = [] }

-- Object 8 is new, and group 2 is full.
abbrev pub kernel_caps : List Bool → Caps
kernel_caps grants = record {
  table = λ g. if g == 0 then table_7 else if g == 2 then full_table else empty_table;
  object = λ k. if k == 7 then some object_7 else if k == 8 then some new_object else none;
  grants = grants;
  deinits = [];
}

abbrev pub plenty : List Bool
plenty = true ∷ true ∷ true ∷ true ∷ []

pub empty_table-TableValid : TableValid empty_table
unfolding all_set
empty_table-TableValid = record {
  bits = record {
    words = 1;
    whole = refl;
    some_word = omega arith;
    full = λ w. refl;
    beyond = λ i le. refl;
  };
  used = λ i. refl;
}

full_table-TableValid : TableValid full_table
full_table-TableValid = record {
  bits = record {
    words = 1;
    whole = refl;
    some_word = omega arith;
    full = λ w. elim (ℕ_discrete w 0) [
      | yes e ↦ rw e (sym (all_set_of 64 full_table.slots_bmp 0 (λ q lo hi. ground arith)))
      | no ne ↦ ground (
        arith,
        not_all_set 64 full_table.slots_bmp (w * 64) (w * 64) (omega arith) (omega arith)
            (ground arith),
      )
    ];
    beyond = λ i le. ground arith;
  };
  used = λ i. ground arith;
}

table_7-TableValid : TableValid table_7
table_7-TableValid = record {
  bits = record {
    words = 1;
    whole = refl;
    some_word = omega arith;
    full = λ w. sym (
        not_all_set 64 table_7.slots_bmp (w * 64) (w * 64 + 1) (omega arith) (omega arith)
          (ground arith));
    beyond = λ i le. ground arith;
  };
  used = λ i. ground arith;
}

slot-HasCap : HasCap (kernel_caps plenty) 7 0 0
slot-HasCap = (slot_7, refl, refl, refl, omega arith)

object_7-IsHeld : IsHeld 7 object_7 (kernel_caps plenty)
object_7-IsHeld = record {
  here = refl;
  linked = (slot-HasCap, tt);
  distinct = (refl, tt);
  counted = refl;
  small = omega arith;
}

alloc_slot_id-Allocated_example :
    (i : ℕ) × (t' : SlotTable) × (rest : List Bool) × (alloc_slot_id table_7
        (true ∷ true ∷ true ∷ [])
      ≡ ok (pos i, t', rest))
    × Allocated table_7 i t'
    × ((rest ≡ true ∷ true ∷ true ∷ []) ⊎ (rest ≡ []))
alloc_slot_id-Allocated_example =
    alloc_slot_id-Allocated table_7 [] table_7-TableValid (omega arith)

cap_copy-IsHeld_example :
    (d : ℕ) × (c' : Caps) × (cap_copy 0 1 (pos 0) (kernel_caps plenty) ≡ ok (pos d, c'))
    × IsFirst empty_table d
    × TableValid (c'.table 1)
    × HasCap c' 7 1 d
    × HasCap c' 7 0 0
    × IsHeld 7 (record object_7 { refcount = 2; copies = (0, 0) ∷ (1, d) ∷ [] }) c'
    × ((j : ℕ) → j ≢ 7 → c'.object j ≡ (kernel_caps plenty).object j)
cap_copy-IsHeld_example =
    cap_copy-IsHeld 0 1 0 7 object_7 (kernel_caps plenty) [] empty_table-TableValid (omega arith)
      object_7-IsHeld slot-HasCap refl (omega arith) refl

cap_free_all-remaining_example :
    (c' : Caps) × (cap_free_all 0 (pos 0) (kernel_caps plenty) ≡ ok (pos 0, c'))
    × (c'.object 7 ≡ none)
    × ((j : ℕ) → j ≢ 7 → c'.object j ≡ (kernel_caps plenty).object j)
    × ((h j : ℕ) → (c'.table h).slots j ≡ remaining ((0, 0) ∷ []) (kernel_caps plenty) h j)
cap_free_all-remaining_example =
    cap_free_all-remaining 7 0 0 object_7 (kernel_caps plenty) object_7-IsHeld slot-HasCap refl refl

-- Groups 0 and 1 share object 7.
abbrev shared_object : Object
shared_object = record object_7 { refcount = 2; copies = (0, 0) ∷ (1, 0) ∷ [] }

abbrev shared : Caps
shared = record {
  table = λ g. if g == 2 then empty_table else table_7;
  object = λ k. if k == 7 then some shared_object else none;
  grants = [];
  deinits = [];
}

shared-HasCap : HasCap shared 7 0 0
shared-HasCap = (slot_7, refl, refl, refl, omega arith)

shared-IsHeld : IsHeld 7 shared_object shared
shared-IsHeld = record {
  here = refl;
  linked = (shared-HasCap, ((slot_7, refl, refl, refl, omega arith), tt));
  distinct = (refl, (refl, tt));
  counted = refl;
  small = omega arith;
}

cap_move-IsHeld_example :
    (d : ℕ) × (c' : Caps) × (cap_move 0 1 (pos 0) (kernel_caps plenty) ≡ ok (pos 0, c'))
    × IsFirst empty_table d
    × HasCap c' 7 1 d
    × ((c'.table 0).slots 0 ≡ none)
    × IsHeld 7 (without (0, 0) 1 (copied (0, 0) (1, d) object_7)) c'
cap_move-IsHeld_example =
    cap_move-IsHeld 0 1 0 7 object_7 (kernel_caps plenty) [] empty_table-TableValid (omega arith)
      object_7-IsHeld slot-HasCap refl (omega arith) refl

-- An object that never got a capability can be freed.
obj_free_test : (obj_alloc 9 5 (kernel_caps (true ∷ []))).0 ≡ some 9
unfolding obj_alloc
obj_free_test = refl

obj_free_nothing_test : obj_free none (kernel_caps []) ≡ ok (kernel_caps [])
unfolding obj_free
obj_free_nothing_test = refl
