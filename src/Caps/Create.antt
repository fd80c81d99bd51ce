-- ===== src/Caps/Create.antt =====
-- `cap_alloc`, `obj_get` and `obj_put`: from a new object to its capability and back to the object.
use chcore.Common.{
  Bool, List, [], arith, later_grants, ok, pos, refl, some, sym, true, update, update_self, ℕ, ◌+◌,
  ◌<◌, ◌^◌, ◌∷◌, ◌≡◌,
}
use chcore.Caps.{Caps, Object, ObjectSlot, SlotTable, get_slot, install_slot, is_valid_slot_id}
use chcore.Caps.Search.{IsFirst, TableValid}
use chcore.Caps.Alloc.{Allocated-TableValid, alloc_slot_id-Allocated}
use chcore.Caps.Capability.{
  cap_alloc, fill_slot, free_object, get_opaque, new_slot, obj_get, obj_put, set_object, set_table,
}
use chcore.Caps.FreeAll.{HasCap, IsHeld}
use mathlib.Core.Path.{subst}

-- For a new object, a valid table that may still grow and a heap that serves the next four
-- requests, cap_alloc returns the first free number of the group: its slot points to the object,
-- which is held by this capability alone, and the table stays valid.
pub cap_alloc-IsHeld :
    (g k rights : ℕ) (o : Object) (c : Caps) (grants : List Bool)
    → TableValid (c.table g)
    → (c.table g).slots_size + 64 < 2 ^ 31
    → c.object k ≡ some o
    → o.refcount ≡ 0
    → o.copies ≡ []
    → c.grants ≡ true ∷ true ∷ true ∷ true ∷ grants
    → (i : ℕ) × (c' : Caps) × (cap_alloc g k rights c ≡ ok (pos i, c'))
      × IsFirst (c.table g) i
      × TableValid (c'.table g)
      × HasCap c' k g i
      × IsHeld k (record o { refcount = 1; copies = (g, i) ∷ [] }) c'
unfolding cap_alloc new_slot fill_slot install_slot
cap_alloc-IsHeld g k rights o c grants v fits eo er ec eg =
    let (i, t, rest, run, a, or) = alloc_slot_id-Allocated (c.table g) (true ∷ grants) v fits in
    let s : ObjectSlot = record { isvalid = true; rights = some rights; object = k } in
    let t' : SlotTable = record t { slots = update t.slots i (some s) } in
    let c' : Caps =
      set_object k (some (record o { refcount = 1; copies = (g, i) ∷ [] }))
        (set_table g t' (record c { grants = later_grants rest })) in
    let cap : HasCap c' k g i = (s, ground arith, refl, refl, ground (arith, a.inside)) in
    (
      i,
      c',
      ground (arith, run, a.marked i, eo, er, ec, eg, or),
      a.first,
      subst TableValid (sym (update_self c.table g t')) (Allocated-TableValid s v a),
      cap,
      record {
        here = ground arith;
        linked = (cap, tt);
        distinct = (refl, tt);
        counted = refl;
        small = omega arith;
      },
    )

-- Through a capability whose bit is set, of a live object whose count does not wrap, obj_get of the
-- right type returns the object with one reference more, and obj_put then leaves all tables and
-- objects as they were.
pub obj_put-obj_get :
    (g i k : ℕ) (o : Object) (c : Caps)
    → HasCap c k g i
    → (c.table g).slots_bmp i ≡ true
    → c.object k ≡ some o
    → 0 < o.refcount
    → o.refcount + 1 < 2 ^ 64
    → (c1 : Caps) × (c2 : Caps) × (obj_get g (pos i) o.type c ≡ ok (some k, c1))
      × (c1.object k ≡ some (record o { refcount = o.refcount + 1 }))
      × (obj_put k c1 ≡ ok c2)
      × (c2.table ≡ c.table)
      × ((j : ℕ) → c2.object j ≡ c.object j)
unfolding obj_get obj_put get_opaque is_valid_slot_id get_slot free_object
obj_put-obj_get g i k o c (s, es, valid, ek, lt) bit eo one small = (
  set_object k (some (record o { refcount = o.refcount + 1 })) c,
  set_object k (some o) (set_object k (some (record o { refcount = o.refcount + 1 })) c),
  ground (arith, es, valid, ek, lt, bit, eo),
  ground arith,
  ground (arith),
  refl,
  λ j. ground arith,
)
