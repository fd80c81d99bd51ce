-- ===== src/Caps/FreeAll.antt =====
-- `cap_free_all` of kernel/object/capability.c: no capability of the object is left.
use chcore.Common.{
  Bool, List, Option, [], ap, arith, false, if◌then◌else◌, length, none, ok, pos, refl, some, suc,
  true, ℕ, ◌+◌, ◌<◌, ◌^◌, ◌||◌, ◌∙◌, ◌∷◌, ◌≡◌, ◌≢◌,
}
use chcore.Caps.{Caps, Object, ObjectSlot, free_slot_id, get_slot, is_valid_slot_id}
use chcore.Caps.Capability.{
  cap_free, cap_free_all, drop_slot, free_copies, free_object, get_opaque, has_deinit, obj_put,
  same_slot, set_object, set_table,
}

-- Whether the slot is on the list.
abbrev pub has_slot : ℕ × ℕ → List (ℕ × ℕ) → Bool
has_slot a [] = false
has_slot a (x ∷ xs) = same_slot a x || has_slot a xs

abbrev pub DistinctSlots : List (ℕ × ℕ) → Type 0
DistinctSlots [] = Unit
DistinctSlots (x ∷ xs) = (has_slot x xs ≡ false) × DistinctSlots xs

-- The slot holds a capability of the object.
abbrev pub HasCap : Caps → ℕ → ℕ → ℕ → Type 0
HasCap c k g i =
    (s : ObjectSlot) × ((c.table g).slots i ≡ some s)
    × (s.isvalid ≡ true)
    × (s.object ≡ k)
    × (i < (c.table g).slots_size)

-- All of them do.
abbrev pub Linked : Caps → ℕ → List (ℕ × ℕ) → Type 0
Linked c k [] = Unit
Linked c k ((g, i) ∷ xs) = HasCap c k g i × Linked c k xs

-- The slot after those of the list were freed.
abbrev pub remaining : List (ℕ × ℕ) → Caps → ℕ → ℕ → Option ObjectSlot
remaining xs c h j = if has_slot (h, j) xs then none else (c.table h).slots j

-- The state after the capability in one slot of an object with other references is freed.
abbrev pub dropped : ℕ → ℕ → ℕ → ℕ → List (ℕ × ℕ) → Object → Caps → Caps
dropped k g i rc xs o c =
    set_object k (some (record o { refcount = rc; copies = xs }))
      (set_table g (free_slot_id i (c.table g)) c)

cap_free-dropped :
    (k g i rc : ℕ) (xs : List (ℕ × ℕ)) (o : Object) (c : Caps)
    → HasCap c k g i
    → c.object k ≡ some o
    → o.copies ≡ (g, i) ∷ xs
    → o.refcount ≡ suc rc
    → suc rc < 2 ^ 64
    → 0 < rc
    → cap_free g (pos i) c ≡ ok (pos 0, dropped k g i rc xs o c)
unfolding cap_free drop_slot get_slot
cap_free-dropped k g i rc xs o c (s, es, valid, ek, lt) eo ec er small more =
    ground (arith, es, valid, ek, lt, eo, ec, er)

-- The other capabilities stay.
pub Linked-dropped :
    (k g i rc : ℕ) (ys : List (ℕ × ℕ)) (o : Object) (c : Caps) (xs : List (ℕ × ℕ))
    → has_slot (g, i) xs ≡ false
    → Linked c k xs
    → Linked (dropped k g i rc ys o c) k xs
unfolding free_slot_id
Linked-dropped k g i rc ys o c [] h l = tt
Linked-dropped k g i rc ys o c ((h, j) ∷ xs) out ((s, es, valid, ek, lt), l) = (
  (s, ground (arith), valid, ek, ground (arith)),
  Linked-dropped k g i rc ys o c xs (ground arith) l,
)

remaining-dropped :
    (k g i rc : ℕ) (xs : List (ℕ × ℕ)) (o : Object) (c : Caps) (h j : ℕ)
    → remaining xs (dropped k g i rc xs o c) h j ≡ remaining ((g, i) ∷ xs) c h j
unfolding free_slot_id
remaining-dropped k g i rc xs o c h j = ground arith

-- The loop leaves the object with its extra reference only, and empties just the slots of the
-- list.
free_copies_lem :
    (k : ℕ) (xs : List (ℕ × ℕ)) (o : Object) (c : Caps)
    → Linked c k xs
    → DistinctSlots xs
    → c.object k ≡ some o
    → o.copies ≡ xs
    → o.refcount ≡ suc (length xs)
    → suc (length xs) < 2 ^ 64
    → (c' : Caps) × (free_copies xs c ≡ ok c')
      × (c'.object k ≡ some (record o { refcount = 1; copies = [] }))
      × ((j : ℕ) → j ≢ k → c'.object j ≡ c.object j)
      × ((h j : ℕ) → (c'.table h).slots j ≡ remaining xs c h j)
unfolding free_copies
free_copies_lem k [] o c l d eo ec er small =
    (c, refl, eo ∙ ap some (cc), λ j ne. refl, λ h j. refl)
free_copies_lem k ((g, i) ∷ xs) o c (cap, l) (out, d) eo ec er small =
    let c1 : Caps = dropped k g i (suc (length xs)) xs o c in
    let (c', run, eo', others, slots) =
      free_copies_lem k xs (record o { refcount = suc (length xs); copies = xs }) c1
        (Linked-dropped k g i (suc (length xs)) xs o c xs out l) d (ground arith) refl refl
        (omega arith) in
    (
      c',
      rw (cap_free-dropped k g i (suc (length xs)) xs o c cap eo ec er (omega arith) (omega arith))
          run,
      eo',
      λ j ne. others j ne ∙ ground arith,
      λ h j. slots h j ∙ remaining-dropped k g i (suc (length xs)) xs o c h j,
    )

-- The object's references are its capabilities, each in a slot of its own.
pub record IsHeld (k : ℕ) (o : Object) (c : Caps) : Type 0 where
  pub here : c.object k ≡ some o
  pub linked : Linked c k o.copies
  pub distinct : DistinctSlots o.copies
  pub counted : o.refcount ≡ length o.copies
  pub small : length o.copies + 1 < 2 ^ 64

get_opaque-held :
    (k g i : ℕ) (o : Object) (c : Caps)
    → IsHeld k o c
    → HasCap c k g i
    → (c.table g).slots_bmp i ≡ true
    → get_opaque g (pos i) false 0 c
      ≡ ok (some k, set_object k (some (record o { refcount = suc o.refcount })) c)
unfolding get_opaque is_valid_slot_id get_slot
get_opaque-held k g i o c held (s, es, valid, ek, lt) bit =
    ground (arith, es, valid, ek, lt, bit, held.here, held.counted, held.small)

-- Capabilities stand in the tables alone.
pub Linked-object :
    (k j : ℕ) (o : Option Object) (c : Caps) (xs : List (ℕ × ℕ))
    → Linked c k xs
    → Linked (set_object j o c) k xs
Linked-object k j o c [] l = tt
Linked-object k j o c ((g, i) ∷ xs) l = (l.0, Linked-object k j o c xs l.1)

-- Let the references of an object be its capabilities, each in a slot of its own, their number
-- below 2^64 - 1, and let its type have no function for its end. Revoking one of them returns 0 and
-- frees the object: exactly the slots on the object's list are emptied, in any group, and the other
-- objects stay as they are.
pub cap_free_all-remaining :
    (k g i : ℕ) (o : Object) (c : Caps)
    → IsHeld k o c
    → HasCap c k g i
    → (c.table g).slots_bmp i ≡ true
    → has_deinit o.type ≡ false
    → (c' : Caps) × (cap_free_all g (pos i) c ≡ ok (pos 0, c'))
      × (c'.object k ≡ none)
      × ((j : ℕ) → j ≢ k → c'.object j ≡ c.object j)
      × ((h j : ℕ) → (c'.table h).slots j ≡ remaining o.copies c h j)
unfolding cap_free_all obj_put free_object
cap_free_all-remaining k g i o c held cap bit plain =
    let o1 : Object = record o { refcount = suc o.refcount } in
    let c1 : Caps = set_object k (some o1) c in
    let (c2, run, eo, others, slots) =
      free_copies_lem k o.copies o1 c1 (Linked-object k k (some o1) c o.copies held.linked)
        held.distinct (ground arith) refl (omega (arith, held.counted))
        (omega (arith, held.small)) in
    let got = get_opaque-held k g i o c held cap bit in
    (
      set_object k none (set_object k (some (record o { refcount = 0; copies = [] })) c2),
      ground (arith, got, run, eo, plain),
      ground arith,
      λ j ne. ground (arith, others j ne),
      slots,
    )
