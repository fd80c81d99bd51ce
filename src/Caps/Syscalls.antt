-- ===== src/Caps/Syscalls.antt =====
-- The system calls of kernel/object/capability.c that hand capabilities to another group. A
-- capability group has the number of its object; `cur` is the current one.
pub mod CopyTo
pub mod Tests
use chcore.Common.{
  Bool, List, Run, [], bug, ecapbility, granted, if◌then◌else◌, later_grants, neg, none, ok, pos,
  some, ℕ, ℤ, ◌&&◌, ◌>>=◌, ◌∷◌,
}
use chcore.Caps.{Caps}
use chcore.Caps.Capability.{cap_copy, cap_move, obj_get, obj_put}

-- TYPE_CAP_GROUP
abbrev pub type_cap_group : ℕ
type_cap_group = 0

-- `obj_put` of the group, and the result.
pub put_group : ℕ → ℤ × Caps → Run (ℤ × Caps)
unfolding obj_put
put_group group (r, c) = do c' ← obj_put group c; ok (r, c')

pub sys_cap_copy_to : ℕ → ℤ → ℤ → Caps → Run (ℤ × Caps)
unfolding obj_get cap_copy put_group
sys_cap_copy_to cur dest_cap src_slot_id c = do
  (found, c1) ← obj_get cur dest_cap type_cap_group c
  elim found [
    | none ↦ ok (neg ecapbility, c1)
    | some dest ↦ do res ← cap_copy cur dest src_slot_id c1; put_group dest res
  ]

pub sys_cap_copy_from : ℕ → ℤ → ℤ → Caps → Run (ℤ × Caps)
unfolding obj_get cap_copy put_group
sys_cap_copy_from cur src_cap src_slot_id c = do
  (found, c1) ← obj_get cur src_cap type_cap_group c
  elim found [
    | none ↦ ok (neg ecapbility, c1)
    | some src ↦ do res ← cap_copy src cur src_slot_id c1; put_group src res
  ]

pub sys_cap_move : ℕ → ℤ → ℤ → Caps → Run (ℤ × Caps)
unfolding obj_get cap_move put_group
sys_cap_move cur dest_cap src_slot_id c = do
  (found, c1) ← obj_get cur dest_cap type_cap_group c
  elim found [
    | none ↦ ok (neg ecapbility, c1)
    | some dest ↦ do res ← cap_move cur dest src_slot_id c1; put_group dest res
  ]

-- The loop of `sys_transfer_caps`; an error of one copy is that copy's result.
pub copy_each : ℕ → ℕ → List ℤ → Caps → Run (List ℤ × Caps)
unfolding cap_copy
copy_each src dest [] c = ok ([], c)
copy_each src dest (id ∷ ids) c = do
  (r, c1) ← cap_copy src dest id c
  (rs, c2) ← copy_each src dest ids c1
  ok (r ∷ rs, c2)

-- The numbers come from the user's buffer and the results go to another one. The results of the two
-- calls of `kmalloc` are used unchecked.
pub sys_transfer_caps : ℕ → ℤ → List ℤ → Caps → Run (ℤ × List ℤ × Caps)
unfolding obj_get copy_each obj_put
sys_transfer_caps cur dest_cap src_caps c = do
  (found, c1) ← obj_get cur dest_cap type_cap_group c
  elim found [
    | none ↦ ok (neg ecapbility, [], c1)
    | some dest ↦
        let g : List Bool = later_grants c1.grants in
        if granted c1.grants && granted g
        then (do
          (dst_caps, c2) ← copy_each cur dest src_caps (record c1 { grants = later_grants g })
          c3 ← obj_put dest c2
          ok (pos 0, dst_caps, c3))
        else bug
  ]
