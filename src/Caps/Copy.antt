-- ===== src/Caps/Copy.antt =====
-- `cap_copy` of kernel/object/capability.c.
use chcore.Common.{
  Bool, Bool-cases, List, Option-cases, [], arith, bug, false, inl, inr, later_grants, length, none,
  ok, pos, refl, some, suc, sym, true, update, update_self, ℕ, ◌+◌, ◌<◌, ◌^◌, ◌∙◌, ◌∷◌, ◌≡◌, ◌≢◌,
  ◌≤◌,
}
use chcore.Caps.{Caps, Object, ObjectSlot, SlotTable, get_slot, install_slot}
use chcore.Caps.Search.{IsFirst, TableValid}
use chcore.Caps.Alloc.{Allocated-TableValid, alloc_slot_id-Allocated, alloc_slot_id-full}
use chcore.Caps.Capability.{
  cap_copy, copy_into, copy_slot, link_after, same_slot, set_object, set_table,
}
use chcore.Caps.FreeAll.{DistinctSlots, HasCap, IsHeld, Linked, has_slot}
use mathlib.Core.Path.{subst}

-- The list with a new slot behind an old one.
pub has_slot-link_after :
    (a new b : ℕ × ℕ) (xs : List (ℕ × ℕ))
    → same_slot b new ≡ false
    → has_slot b (link_after a new xs) ≡ has_slot b xs
has_slot-link_after a new b [] ne = refl
has_slot-link_after a new b (x ∷ xs) ne = ground (arith, has_slot-link_after a new b xs ne)

DistinctSlots-link_after :
    (a new : ℕ × ℕ) (xs : List (ℕ × ℕ))
    → DistinctSlots xs
    → has_slot new xs ≡ false
    → DistinctSlots (link_after a new xs)
DistinctSlots-link_after a new [] d h = tt
DistinctSlots-link_after (ga, ia) (gn, dn) ((gx, ix) ∷ xs) (out, d) h =
    elim (Bool-cases (same_slot (ga, ia) (gx, ix))) [
      | inl e ↦ rw e (ground arith)
      | inr e ↦ rw e (
        has_slot-link_after (ga, ia) (gn, dn) (gx, ix) xs (ground arith) ∙ out,
        DistinctSlots-link_after (ga, ia) (gn, dn) xs d (ground arith),
      )
    ]

pub length-link_after :
    (a new : ℕ × ℕ) (xs : List (ℕ × ℕ))
    → has_slot a xs ≡ true
    → length (link_after a new xs) ≡ suc (length xs)
length-link_after a new [] h = cc
length-link_after a new (x ∷ xs) h = ground (arith, length-link_after a new xs)

Linked-link_after :
    (a : ℕ × ℕ) (g d k : ℕ) (c : Caps) (xs : List (ℕ × ℕ))
    → Linked c k xs
    → HasCap c k g d
    → Linked c k (link_after a (g, d) xs)
Linked-link_after a g d k c [] l held = tt
Linked-link_after a g d k c ((h, j) ∷ xs) l held = elim (Bool-cases (same_slot a (h, j))) [
  | inl e ↦ rw e (l.0, (held, l.1))
  | inr e ↦ rw e (l.0, Linked-link_after a g d k c xs l.1 held)
]

-- A slot that is empty is no capability of an object.
pub empty-has_slot :
    (g d k : ℕ) (c : Caps) (xs : List (ℕ × ℕ))
    → Linked c k xs
    → (c.table g).slots d ≡ none
    → has_slot (g, d) xs ≡ false
empty-has_slot g d k c [] l e = refl
empty-has_slot g d k c ((h, j) ∷ xs) (held, l) e =
    ground (arith, held.1, empty-has_slot g d k c xs l e)

-- A place whose bit is clear is empty.
pub empty_of_clear :
    {t : SlotTable} → TableValid t → (d : ℕ) → t.slots_bmp d ≡ false → t.slots d ≡ none
empty_of_clear {t} v d e = elim (Option-cases (t.slots d)) [
  | inl n ↦ n
  | inr (s, n) ↦ absurd (ground (arith, v.used d))
]

-- Every capability of the first state is one of the second.
abbrev Keeps : Caps → Caps → Type 0
Keeps c c' =
    (h j : ℕ) (s : ObjectSlot)
    → (c.table h).slots j ≡ some s
    → ((c'.table h).slots j ≡ some s) × ((c.table h).slots_size ≤ (c'.table h).slots_size)

HasCap-Keeps : (k g i : ℕ) (c c' : Caps) → Keeps c c' → HasCap c k g i → HasCap c' k g i
HasCap-Keeps k g i c c' keep (s, es, valid, ek, lt) =
    let (es', le) = keep g i s es in (s, es', valid, ek, omega arith)

Linked-Keeps :
    (k : ℕ) (c c' : Caps) (xs : List (ℕ × ℕ)) → Keeps c c' → Linked c k xs → Linked c' k xs
Linked-Keeps k c c' [] keep l = tt
Linked-Keeps k c c' ((h, j) ∷ xs) keep l =
    (HasCap-Keeps k h j c c' keep l.0, Linked-Keeps k c c' xs keep l.1)

-- The object after the copy of a slot in another one.
abbrev pub copied : ℕ × ℕ → ℕ × ℕ → Object → Object
copied from new o = record o { refcount = o.refcount + 1; copies = link_after from new o.copies }

module _ (src dest i k : ℕ) (o : Object) (c : Caps) (grants : List Bool)
    (v : TableValid (c.table dest)) (fits : (c.table dest).slots_size + 64 < 2 ^ 31)
    (held : IsHeld k o c) (from : HasCap c k src i) (listed : has_slot (src, i) o.copies ≡ true)
    (room : length o.copies + 2 < 2 ^ 64) (eg : c.grants ≡ true ∷ true ∷ true ∷ true ∷ grants) where
  -- Let an object be held by its capabilities, one of them in the source slot, the destination
  -- table be valid and able to grow, and the heap serve the next four requests. cap_copy returns
  -- the first free number of the destination, whose new slot points to the object; the table stays
  -- valid, the source slot stays, the object is held by one capability more, and no other object
  -- changes.
  pub cap_copy-IsHeld :
      (d : ℕ) × (c' : Caps) × (cap_copy src dest (pos i) c ≡ ok (pos d, c'))
      × IsFirst (c.table dest) d
      × TableValid (c'.table dest)
      × HasCap c' k dest d
      × HasCap c' k src i
      × IsHeld k (copied (src, i) (dest, d) o) c'
      × ((j : ℕ) → j ≢ k → c'.object j ≡ c.object j)
  unfolding cap_copy copy_into copy_slot install_slot get_slot
  cap_copy-IsHeld =
      let (d, t, rest, run, a, or) =
        alloc_slot_id-Allocated (c.table dest) (true ∷ grants) v fits in
      let s : ObjectSlot = record { isvalid = true; rights = none; object = k } in
      let t' : SlotTable = record t { slots = update t.slots d (some s) } in
      let c' : Caps =
        set_object k (some (copied (src, i) (dest, d) o))
          (set_table dest t' (record c { grants = later_grants rest })) in
      let new : HasCap c' k dest d = (s, ground arith, refl, refl, ground (arith, a.inside)) in
      let free : (c.table dest).slots d ≡ none = empty_of_clear v d a.first.0 in
      let keep : Keeps c c' =
        λ h j x e. (ground (arith, a.same_slots j), ground (arith, a.grows)) in
      let linked = Linked-Keeps k c c' o.copies keep held.linked in
      (
        d,
        c',
        ground (
          arith,
          run,
          a.marked d,
          from.1,
          from.2,
          from.3,
          from.4,
          held.here,
          held.counted,
          eg,
          or,
        ),
        a.first,
        subst TableValid (sym (update_self c.table dest t')) (Allocated-TableValid s v a),
        new,
        HasCap-Keeps k src i c c' keep from,
        record {
          here = ground arith;
          linked = Linked-link_after (src, i) dest d k c' o.copies linked new;
          distinct =
              DistinctSlots-link_after (src, i) (dest, d) o.copies held.distinct
                (empty-has_slot dest d k c o.copies held.linked free);
          counted =
              omega (arith, held.counted, length-link_after (src, i) (dest, d) o.copies listed);
          small = omega (arith, length-link_after (src, i) (dest, d) o.copies listed);
        },
        λ j ne. ground arith,
      )

-- If the destination table is full and the heap serves nothing, cap_copy of a valid slot uses
-- -ENOMEM as a slot number, before the bitmap.
pub cap_copy-full :
    (src dest i : ℕ) (s : ObjectSlot) (c : Caps)
    → TableValid (c.table dest)
    → ((q : ℕ) → q < (c.table dest).slots_size → (c.table dest).slots_bmp q ≡ true)
    → (c.table src).slots i ≡ some s
    → s.isvalid ≡ true
    → i < (c.table src).slots_size
    → c.grants ≡ []
    → cap_copy src dest (pos i) c ≡ bug
unfolding cap_copy copy_into get_slot
cap_copy-full src dest i s c v all es valid lt eg =
    ground (arith, es, valid, lt, eg, alloc_slot_id-full (c.table dest) v all)
