-- ===== src/Caps/Capability.antt =====
-- The operations of kernel/object/capability.c, with `get_opaque`, `obj_get` and `obj_put` of
-- kernel/object/cap_group.c. The functions that end an object of a type are calls in a list.
use chcore.Common.{
  Bool, List, Option, Run, [], bug, bug_on, ecapbility, enomem, false, granted, if◌then◌else◌,
  is_neg, is_zero, later_grants, leb, neg, negsuc, none, not, ok, pos, some, true, update, ℕ, ℤ,
  ◌%◌, ◌&&◌, ◌+◌, ◌-◌, ◌==◌, ◌>>=◌, ◌^◌, ◌||◌, ◌∷◌,
}
use chcore.Caps.{
  Caps, Object, ObjectSlot, SlotTable, alloc_slot_id, free_slot_id, get_slot, install_slot,
  is_valid_slot_id,
}

abbrev pub set_table : ℕ → SlotTable → Caps → Caps
set_table g t c = record c { table = update c.table g t }

abbrev pub set_object : ℕ → Option Object → Caps → Caps
set_object k o c = record c { object = update c.object k o }

-- Whether the two are the same slot.
abbrev pub same_slot : ℕ × ℕ → ℕ × ℕ → Bool
same_slot (g, i) (h, j) = (g == h) && (i == j)

abbrev pub unlink : ℕ × ℕ → List (ℕ × ℕ) → List (ℕ × ℕ)
unlink a [] = []
unlink a (x ∷ xs) = if same_slot a x then xs else x ∷ unlink a xs

-- `list_add(new, a)`
abbrev pub link_after : ℕ × ℕ → ℕ × ℕ → List (ℕ × ℕ) → List (ℕ × ℕ)
link_after a new [] = []
link_after a new (x ∷ xs) = if same_slot a x then x ∷ new ∷ xs else x ∷ link_after a new xs

-- `obj_alloc` of an object that the heap places at the number given.
unfoldable pub obj_alloc : ℕ → ℕ → Caps → Option ℕ × Caps
obj_alloc k type c =
    let c' : Caps = record c { grants = later_grants c.grants } in
    if granted c.grants
    then (some k, set_object k (some (record { type = type; refcount = 0; copies = [] })) c')
    else (none, c')

unfoldable pub obj_free : Option ℕ → Caps → Run Caps
obj_free none c = ok c
obj_free (some k) c = elim (c.object k) [
  | none ↦ bug
  | some o ↦ if o.refcount == 0 then ok (set_object k none c) else bug
]

-- Whether `obj_deinit_tbl` has a function for the type: all but TYPE_SEMAPHORE have one.
abbrev pub has_deinit : ℕ → Bool
has_deinit type = leb type 4

-- `func(object->opaque)`; the function works on state that is not here, so its call is recorded.
abbrev pub deinit : ℕ → Object → Caps → Caps
deinit k o c = if has_deinit o.type then record c { deinits = k ∷ c.deinits } else c

-- `__free_object`
unfoldable pub free_object : ℕ → Caps → Run Caps
free_object k c = elim (c.object k) [
  | none ↦ bug
  | some o ↦ elim o.copies [ [] ↦ ok (set_object k none (deinit k o c)) | x ∷ xs ↦ bug ]
]

-- `cap_alloc` once its slot is allocated.
unfoldable pub fill_slot : ℕ → ℕ → ℕ → ℕ → Object → Caps → Run (ℤ × Caps)
unfolding install_slot
fill_slot g i k rights o c =
    if o.refcount == 0
    then (do
      t ← install_slot i (record { isvalid = true; rights = some rights; object = k }) (c.table g)
      ok (
        pos i,
        set_object k (some (record o { refcount = 1; copies = (g, i) ∷ o.copies }))
            (set_table g t c),
      ))
    else bug

-- The heap's answer for the slot, after a slot number is found.
unfoldable pub new_slot : ℕ → ℤ → SlotTable → List Bool → ℕ → ℕ → Caps → Run (ℤ × Caps)
unfolding fill_slot free_slot_id
new_slot g (negsuc r) t grants k rights c =
    ok (neg enomem, record (set_table g t c) { grants = grants })
new_slot g (pos i) t grants k rights c =
    let c' : Caps = record (set_table g t c) { grants = later_grants grants } in
    if granted grants
    then elim (c.object k) [ none ↦ bug | some o ↦ fill_slot g i k rights o c' ]
    else ok (neg enomem, set_table g (free_slot_id i t) c')

unfoldable pub cap_alloc : ℕ → ℕ → ℕ → Caps → Run (ℤ × Caps)
unfolding alloc_slot_id new_slot
cap_alloc g k rights c = do
  (r, t, grants) ← alloc_slot_id (c.table g) c.grants
  new_slot g r t grants k rights c

-- `__cap_free` once the slot is found: the reference count falls, and the last one frees.
unfoldable pub drop_slot : ℕ → ℕ → ObjectSlot → Caps → Run (ℤ × Caps)
unfolding free_slot_id free_object
drop_slot g i s c = elim (c.object s.object) [
  | none ↦ bug
  | some o ↦
      let o' : Object = record o {
        refcount = (o.refcount + 2 ^ 64 - 1) % 2 ^ 64;
        copies = unlink (g, i) o.copies;
      } in
      let c' : Caps = set_object s.object (some o') (set_table g (free_slot_id i (c.table g)) c) in
      if o.refcount == 1
      then (do c'' ← free_object s.object c'; ok (pos 0, c''))
      else ok (pos 0, c')
]

unfoldable pub cap_free : ℕ → ℤ → Caps → Run (ℤ × Caps)
unfolding get_slot drop_slot
cap_free g (negsuc n) c = ok (neg ecapbility, c)
cap_free g (pos i) c = elim (get_slot (c.table g) (pos i)) [
  | none ↦ ok (neg ecapbility, c)
  | some s ↦ if s.isvalid then drop_slot g i s c else ok (neg ecapbility, c)
]

-- The copy's `rights` are never written.
unfoldable pub copy_slot : ℕ × ℕ → ℕ → ℕ → ObjectSlot → Caps → Run (ℤ × Caps)
unfolding install_slot
copy_slot from g d s c = elim (c.object s.object) [
  | none ↦ bug
  | some o ↦ do
    t ← install_slot d (record { isvalid = true; rights = none; object = s.object }) (c.table g)
    ok (
      pos d,
      set_object s.object
          (some (record o {
            refcount = (o.refcount + 1) % 2 ^ 64;
            copies = link_after from (g, d) o.copies;
          }))
          (set_table g t c),
    )
]

-- The heap's answer for the copy. Of the errors of `alloc_slot_id` only -1 is met, and any other
-- becomes a place before the bitmap.
unfoldable pub copy_into :
    ℕ × ℕ → ℕ → ℤ → SlotTable → List Bool → ObjectSlot → Caps → Run (ℤ × Caps)
unfolding copy_slot free_slot_id
copy_into from g (negsuc r) t grants s c =
    if r == 0 then ok (neg enomem, record (set_table g t c) { grants = grants }) else bug
copy_into from g (pos d) t grants s c =
    let c' : Caps = record (set_table g t c) { grants = later_grants grants } in
    if granted grants
    then copy_slot from g d s c'
    else ok (neg enomem, set_table g (free_slot_id d t) c')

unfoldable pub cap_copy : ℕ → ℕ → ℤ → Caps → Run (ℤ × Caps)
unfolding get_slot alloc_slot_id copy_into
cap_copy src dest (negsuc n) c = ok (neg ecapbility, c)
cap_copy src dest (pos i) c = elim (get_slot (c.table src) (pos i)) [
  | none ↦ ok (neg ecapbility, c)
  | some s ↦
      if s.isvalid
      then (do
        (r, t, grants) ← alloc_slot_id (c.table dest) c.grants
        copy_into (src, i) dest r t grants s c)
      else ok (neg ecapbility, c)
]

-- The second half of `cap_move`.
unfoldable pub freed_after : ℕ → ℤ → Caps → Run (ℤ × Caps)
unfolding cap_free
freed_after src id c = do (r, c') ← cap_free src id c; if is_zero r then ok (r, c') else bug

unfoldable pub cap_move : ℕ → ℕ → ℤ → Caps → Run (ℤ × Caps)
unfolding cap_copy freed_after
cap_move src dest id c = do
  (r, c1) ← cap_copy src dest id c
  if is_neg r then ok (r, c1) else freed_after src id c1

unfoldable pub get_opaque : ℕ → ℤ → Bool → ℕ → Caps → Run (Option ℕ × Caps)
unfolding is_valid_slot_id get_slot
get_opaque g id type_valid type c = do
  valid ← is_valid_slot_id (c.table g) id
  elim valid [
    | false ↦ ok (none, c)
    | true ↦ elim (get_slot (c.table g) id) [
      | none ↦ bug
      | some s ↦ bug_on (not s.isvalid) (elim (c.object s.object) [
        | none ↦ bug
        | some o ↦
            if not type_valid || (o.type == type)
            then ok (
              some s.object,
              set_object s.object (some (record o { refcount = (o.refcount + 1) % 2 ^ 64 })) c,
            )
            else ok (none, c)
      ])
    ]
  ]

unfoldable pub obj_get : ℕ → ℤ → ℕ → Caps → Run (Option ℕ × Caps)
unfolding get_opaque
obj_get g id type c = get_opaque g id true type c

unfoldable pub obj_put : ℕ → Caps → Run Caps
unfolding free_object
obj_put k c = elim (c.object k) [
  | none ↦ bug
  | some o ↦
      let c' : Caps =
        set_object k (some (record o { refcount = (o.refcount + 2 ^ 64 - 1) % 2 ^ 64 })) c in
      if o.refcount == 1 then free_object k c' else ok c'
]

-- The loop of `cap_free_all`; the list is read ahead of the slot that is freed.
unfoldable pub free_copies : List (ℕ × ℕ) → Caps → Run Caps
unfolding cap_free
free_copies [] c = ok c
free_copies ((g, i) ∷ rest) c = do
  (r, c') ← cap_free g (pos i) c
  if is_zero r then free_copies rest c' else bug

-- The slots that point to the object.
abbrev pub copies_of : Option Object → List (ℕ × ℕ)
copies_of none = []
copies_of (some o) = o.copies

unfoldable pub cap_free_all : ℕ → ℤ → Caps → Run (ℤ × Caps)
unfolding get_opaque free_copies obj_put
cap_free_all g id c = do
  (found, c1) ← get_opaque g id false 0 c
  elim found [
    | none ↦ ok (neg ecapbility, c1)
    | some k ↦ do c2 ← free_copies (copies_of (c1.object k)) c1; c3 ← obj_put k c2; ok (pos 0, c3)
  ]
