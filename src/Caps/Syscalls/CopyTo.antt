-- ===== src/Caps/Syscalls/CopyTo.antt =====
-- `sys_cap_copy_to` of kernel/object/capability.c: the destination group is held during the copy.
use chcore.Common.{
  Bool, List, Option, arith, length, ok, pos, some, sym, true, ℕ, ◌+◌, ◌<◌, ◌^◌, ◌∷◌, ◌≡◌, ◌≢◌,
}
use chcore.Caps.{Caps, Object, get_slot, is_valid_slot_id}
use chcore.Caps.Search.{IsFirst, TableValid}
use chcore.Caps.Capability.{get_opaque, obj_get, obj_put, set_object}
use chcore.Caps.FreeAll.{HasCap, IsHeld, Linked-object, has_slot}
use chcore.Caps.Copy.{cap_copy-IsHeld, copied}
use chcore.Caps.Syscalls.{put_group, sys_cap_copy_to}

-- Another object's count plays no part.
IsHeld-elsewhere :
    (k j : ℕ) (o : Object) (x : Option Object) (c : Caps)
    → k ≢ j
    → IsHeld k o c
    → IsHeld k o (set_object j x c)
IsHeld-elsewhere k j o x c ne h = record {
  here = ground (arith, h.here);
  linked = Linked-object k j x c o.copies h.linked;
  distinct = h.distinct;
  counted = h.counted;
  small = h.small;
}

module _ (cur id dest i k : ℕ) (group o : Object) (c : Caps) (grants : List Bool)
    (group_cap : HasCap c dest cur id) (bit : (c.table cur).slots_bmp id ≡ true)
    (eg : c.object dest ≡ some group) (is_group : group.type ≡ 0) (live : 0 < group.refcount)
    (few : group.refcount + 1 < 2 ^ 64) (ne : k ≢ dest) where
  -- The state while the system call holds the destination group.
  entered : Caps
  entered = set_object dest (some (record group { refcount = group.refcount + 1 })) c

  get_group : obj_get cur (pos id) 0 c ≡ ok (some dest, entered)
  unfolding obj_get get_opaque is_valid_slot_id get_slot entered
  get_group =
      let (s, es, valid, ek, lt) = group_cap in ground (arith, es, valid, ek, lt, bit, eg, is_group)

  -- Under the conditions of cap_copy, a thread with a capability of a live group, which is another
  -- object, gives that group the first free number for its object: the object is held by one
  -- capability more, and the group's own reference count is as before.
  pub sys_cap_copy_to-IsHeld :
      TableValid (c.table dest)
      → (c.table dest).slots_size + 64 < 2 ^ 31
      → IsHeld k o c
      → HasCap c k cur i
      → has_slot (cur, i) o.copies ≡ true
      → length o.copies + 2 < 2 ^ 64
      → c.grants ≡ true ∷ true ∷ true ∷ true ∷ grants
      → (d : ℕ) × (c' : Caps) × (sys_cap_copy_to cur (pos id) (pos i) c ≡ ok (pos d, c'))
        × IsFirst (c.table dest) d
        × HasCap c' k dest d
        × IsHeld k (copied (cur, i) (dest, d) o) c'
        × (c'.object dest ≡ some group)
  unfolding sys_cap_copy_to put_group obj_put entered
  sys_cap_copy_to-IsHeld v fits held from listed room enough =
      let held1 : IsHeld k o entered = IsHeld-elsewhere k dest o _ c ne held in
      let (d, c2, run, first, v2, new, from2, held2, others) =
        cap_copy-IsHeld cur dest i k o entered grants v fits held1 from listed room enough in
      let same = others dest (λ e. ne (sym e)) in
      (
        d,
        set_object dest (some group) c2,
        ground (arith, get_group, run, same, few),
        first,
        new,
        IsHeld-elsewhere k dest _ (some group) c2 ne held2,
        ground arith,
      )
