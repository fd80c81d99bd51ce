-- ===== src/Caps/Move.antt =====
-- `cap_free` and `cap_move` of kernel/object/capability.c.
use chcore.Common.{
  Bool, Bool-cases, List, [], arith, false, inl, inr, length, none, ok, pos, refl, suc, true, ℕ,
  ◌+◌, ◌<◌, ◌^◌, ◌∷◌, ◌≡◌, ◌≢◌,
}
use chcore.Caps.{Caps, Object, free_slot_id, get_slot}
use chcore.Caps.Search.{IsFirst, TableValid}
use chcore.Caps.Capability.{
  cap_free, cap_move, drop_slot, freed_after, link_after, same_slot, unlink,
}
use chcore.Caps.FreeAll.{
  DistinctSlots, HasCap, IsHeld, Linked, Linked-dropped, dropped, has_slot, remaining,
}
use chcore.Caps.Copy.{cap_copy-IsHeld, copied, empty_of_clear}

has_slot-unlink :
    (a b : ℕ × ℕ) (xs : List (ℕ × ℕ))
    → same_slot b a ≡ false
    → has_slot b (unlink a xs) ≡ has_slot b xs
has_slot-unlink a b [] ne = refl
has_slot-unlink a b (x ∷ xs) ne = ground (arith, has_slot-unlink a b xs ne)

unlinked : (a : ℕ × ℕ) (xs : List (ℕ × ℕ)) → DistinctSlots xs → has_slot a (unlink a xs) ≡ false
unlinked a [] d = refl
unlinked a (x ∷ xs) d = ground (arith, unlinked a xs d.1)

DistinctSlots-unlink :
    (a : ℕ × ℕ) (xs : List (ℕ × ℕ)) → DistinctSlots xs → DistinctSlots (unlink a xs)
DistinctSlots-unlink a [] d = tt
DistinctSlots-unlink a (x ∷ xs) d = elim (Bool-cases (same_slot a x)) [
  | inl e ↦ rw e d.1
  | inr e ↦ rw e (ground (arith, has_slot-unlink a x xs, d.0), DistinctSlots-unlink a xs d.1)
]

length-unlink :
    (a : ℕ × ℕ) (xs : List (ℕ × ℕ)) → has_slot a xs ≡ true → suc (length (unlink a xs)) ≡ length xs
length-unlink a [] h = cc
length-unlink a (x ∷ xs) h = ground (arith, length-unlink a xs)

Linked-unlink :
    (a : ℕ × ℕ) (k : ℕ) (c : Caps) (xs : List (ℕ × ℕ)) → Linked c k xs → Linked c k (unlink a xs)
Linked-unlink a k c [] l = tt
Linked-unlink a k c ((h, j) ∷ xs) l = elim (Bool-cases (same_slot a (h, j))) [
  | inl e ↦ rw e l.1
  | inr e ↦ rw e (l.0, Linked-unlink a k c xs l.1)
]

-- The object without the capability in the slot.
abbrev pub without : ℕ × ℕ → ℕ → Object → Object
without a rc o = record o { refcount = rc; copies = unlink a o.copies }

module _ (k g i rc : ℕ) (o : Object) (c : Caps) (held : IsHeld k o c) (from : HasCap c k g i)
    (listed : has_slot (g, i) o.copies ≡ true) (er : o.refcount ≡ suc rc) (more : 0 < rc) where
  -- If an object is held by two capabilities or more, freeing one that is on its list returns 0:
  -- its slot is empty and the object is held by the others; no other slot and no other object
  -- changes.
  pub cap_free-IsHeld :
      (c' : Caps) × (cap_free g (pos i) c ≡ ok (pos 0, c'))
      × IsHeld k (without (g, i) rc o) c'
      × ((h j : ℕ) → (c'.table h).slots j ≡ remaining ((g, i) ∷ []) c h j)
      × ((h : ℕ) → (c'.table h).slots_size ≡ (c.table h).slots_size)
      × ((j : ℕ) → j ≢ k → c'.object j ≡ c.object j)
  unfolding cap_free drop_slot get_slot free_slot_id
  cap_free-IsHeld =
      let c' : Caps = dropped k g i rc (unlink (g, i) o.copies) o c in
      (
        c',
        ground (arith, from.1, from.2, from.3, from.4, held.here, held.counted, held.small, er),
        record {
          here = ground arith;
          linked =
              Linked-dropped k g i rc (unlink (g, i) o.copies) o c (unlink (g, i) o.copies)
                (unlinked (g, i) o.copies held.distinct)
                (Linked-unlink (g, i) k c o.copies held.linked);
          distinct = DistinctSlots-unlink (g, i) o.copies held.distinct;
          counted = omega (arith, held.counted, length-unlink (g, i) o.copies listed);
          small = omega (arith, held.small, length-unlink (g, i) o.copies listed);
        },
        λ h j. ground arith,
        λ h. ground arith,
        λ j ne. ground arith,
      )

listed-link_after :
    (a new b : ℕ × ℕ) (xs : List (ℕ × ℕ))
    → has_slot b xs ≡ true
    → has_slot b (link_after a new xs) ≡ true
listed-link_after a new b [] h = cc
listed-link_after a new b (x ∷ xs) h = ground (arith, listed-link_after a new b xs)

module _ (src dest i k : ℕ) (o : Object) (c : Caps) (grants : List Bool)
    (v : TableValid (c.table dest)) (fits : (c.table dest).slots_size + 64 < 2 ^ 31)
    (held : IsHeld k o c) (from : HasCap c k src i) (listed : has_slot (src, i) o.copies ≡ true)
    (room : length o.copies + 2 < 2 ^ 64) (eg : c.grants ≡ true ∷ true ∷ true ∷ true ∷ grants) where
  some_copies : 0 < o.refcount
  some_copies = omega (arith, held.counted, length-unlink (src, i) o.copies listed)

  -- The place that was free is not the source slot.
  elsewhere : (d : ℕ) → IsFirst (c.table dest) d → has_slot (dest, d) ((src, i) ∷ []) ≡ false
  elsewhere d f = ground (arith, from.1, empty_of_clear v d f.0)

  moved :
      (d : ℕ) (c1 c2 : Caps)
      → (c2.table dest).slots d ≡ remaining ((src, i) ∷ []) c1 dest d
      → (c2.table dest).slots_size ≡ (c1.table dest).slots_size
      → IsFirst (c.table dest) d
      → HasCap c1 k dest d
      → HasCap c2 k dest d
  moved d c1 c2 es size f (s, e, valid, ek, lt) =
      (s, ground (arith, es, elsewhere d f), valid, ek, omega arith)

  -- Under the conditions of cap_copy, cap_move returns 0: the first free number of the destination
  -- holds the object, the source slot is empty, and the object is held by the changed list of
  -- capabilities with as many references as before.
  pub cap_move-IsHeld :
      (d : ℕ) × (c' : Caps) × (cap_move src dest (pos i) c ≡ ok (pos 0, c'))
      × IsFirst (c.table dest) d
      × HasCap c' k dest d
      × ((c'.table src).slots i ≡ none)
      × IsHeld k (without (src, i) o.refcount (copied (src, i) (dest, d) o)) c'
  unfolding cap_move freed_after
  cap_move-IsHeld =
      let (d, c1, run, first, v1, new, from1, held1, others) =
        cap_copy-IsHeld src dest i k o c grants v fits held from listed room eg in
      let (c2, run2, held2, slots, sizes, objects) =
        cap_free-IsHeld k src i o.refcount _ c1 held1 from1
          (listed-link_after (src, i) (dest, d) (src, i) o.copies listed) (omega arith)
          some_copies in
      (
        d,
        c2,
        ground (arith, run, run2),
        first,
        moved d c1 c2 (slots dest d) (sizes dest) first new,
        ground (arith, slots src i),
        held2,
      )
