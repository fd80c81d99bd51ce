-- ===== src/Caps/Syscalls/Tests.antt =====
-- Tests of the system calls of kernel/object/capability.c: group 0 has object 7 and group 1.
use chcore.Common.{
  List, Option, Run, [], arith, bug, ecapbility, false, if◌then◌else◌, ltb, neg, negsuc, none, ok,
  pos, refl, some, true, ℕ, ℤ, ◌==◌, ◌∷◌, ◌≡◌,
}
use chcore.Caps.{
  Caps, Object, ObjectSlot, all_set, alloc_loop, alloc_slot_id, empty_idx, find_next_zero_bit,
  find_zero, get_slot, install_slot, is_valid_slot_id, set_slot,
}
use chcore.Caps.Search.{IsFirst}
use chcore.Caps.Capability.{cap_copy, copy_into, copy_slot, get_opaque, obj_get, obj_put}
use chcore.Caps.FreeAll.{HasCap, IsHeld}
use chcore.Caps.Syscalls.{
  copy_each, sys_cap_copy_from, sys_cap_copy_to, sys_cap_move, sys_transfer_caps,
}
use chcore.Caps.Syscalls.CopyTo.{sys_cap_copy_to-IsHeld}
use chcore.Caps.Tests.{empty_table, empty_table-TableValid, object_7, plenty, slot_7}

abbrev slot_1 : ObjectSlot
slot_1 = record { isvalid = true; rights = some 0; object = 1 }

abbrev group_1 : Object
group_1 = record { type = 0; refcount = 1; copies = (0, 1) ∷ [] }

abbrev with_group : Caps
with_group = record {
  table = λ g.
      if g == 0
      then record {
        slots_size = 64;
        slots = λ i. if i == 0 then some slot_7 else if i == 1 then some slot_1 else none;
        slots_bmp = λ i. ltb i 2;
        full_slots_bmp = λ w. false;
      }
      else empty_table;
  object = λ k. if k == 7 then some object_7 else if k == 1 then some group_1 else none;
  grants = plenty;
  deinits = [];
}

object_7-HasCap : HasCap with_group 7 0 0
object_7-HasCap = (slot_7, refl, refl, refl, omega arith)

with_group-IsHeld : IsHeld 7 object_7 with_group
with_group-IsHeld = record {
  here = refl;
  linked = (object_7-HasCap, tt);
  distinct = (refl, tt);
  counted = refl;
  small = omega arith;
}

sys_cap_copy_to-IsHeld_example :
    (d : ℕ) × (c' : Caps) × (sys_cap_copy_to 0 (pos 1) (pos 0) with_group ≡ ok (pos d, c'))
    × IsFirst empty_table d
    × HasCap c' 7 1 d
    × IsHeld 7 (record object_7 { refcount = 2; copies = (0, 0) ∷ (1, d) ∷ [] }) c'
    × (c'.object 1 ≡ some group_1)
sys_cap_copy_to-IsHeld_example =
    sys_cap_copy_to-IsHeld 0 1 1 0 7 group_1 object_7 with_group []
      (slot_1, refl, refl, refl, omega arith) refl refl refl (omega arith) (omega arith)
      (omega arith) empty_table-TableValid (omega arith) with_group-IsHeld object_7-HasCap refl
      (omega arith) refl

-- Object 7 is no capability group.
sys_cap_move_test : sys_cap_move 0 (pos 0) (pos 1) with_group ≡ ok (neg ecapbility, with_group)
unfolding sys_cap_move obj_get get_opaque is_valid_slot_id get_slot
sys_cap_move_test = refl

sys_cap_copy_from_test :
    sys_cap_copy_from 0 (negsuc 0) (pos 1) with_group ≡ ok (neg ecapbility, with_group)
unfolding sys_cap_copy_from obj_get get_opaque is_valid_slot_id
sys_cap_copy_from_test = refl

result_of : Run (ℤ × List ℤ × Caps) → Option (ℤ × List ℤ)
result_of bug = none
result_of (ok (r, rs, c)) = some (r, rs)

-- The heap serves the two buffers and the new slot; the second number is no capability.
sys_transfer_caps_test :
    result_of
      (sys_transfer_caps 0 (pos 1) (pos 0 ∷ pos 5 ∷ []) (record with_group { grants = plenty }))
    ≡ some (pos 0, pos 0 ∷ neg ecapbility ∷ [])
unfolding result_of sys_transfer_caps copy_each obj_get get_opaque is_valid_slot_id get_slot obj_put
    cap_copy copy_into copy_slot install_slot alloc_slot_id alloc_loop empty_idx set_slot all_set
    find_next_zero_bit find_zero
sys_transfer_caps_test = refl
