-- ===== src/Caps/Alloc.antt =====
-- `alloc_slot_id` of kernel/object/cap_group.c: the number that is handed out.
use chcore.Common.{
  Bool, List, Option-cases, [], ap, arith, enomem, false, if◌then◌else◌, inl, inr, ltb, neg, none,
  ok, pos, refl, some, sym, true, update, ℕ, ℕ_discrete, ◌*◌, ◌+◌, ◌/◌, ◌<◌, ◌==◌, ◌^◌, ◌∙◌, ◌∷◌,
  ◌≡◌, ◌≤◌, ◌⊎◌,
}
use chcore.Caps.{
  ObjectSlot, SlotTable, alloc_loop, alloc_slot_id, bits_to_longs, expand_slot_table, set_slot,
  slot_table_init,
}
use chcore.Caps.Bits.{all_set_same, not_all_set}
use chcore.Caps.Search.{BitsValid, IsFirst, TableValid, empty_idx_lem}

set_slot-BitsValid :
    {t : SlotTable} (i : ℕ)
    → BitsValid t
    → i < t.slots_size
    → t.slots_bmp i ≡ false
    → BitsValid (set_slot i t)
unfolding set_slot
set_slot-BitsValid {t} i b lt clear = record {
  words = b.words;
  whole = b.whole;
  some_word = b.some_word;
  full = λ w. elim (ℕ_discrete w (i / 64)) [
    | no ne ↦ ground (
      arith,
      b.full w,
      all_set_same 64 t.slots_bmp (update t.slots_bmp i true) (w * 64) (λ q lo hi. ground arith),
    )
    | yes e ↦ rw e (
        ground (
          arith,
          b.full (i / 64),
          not_all_set 64 t.slots_bmp (i / 64 * 64) i (omega arith) (omega arith) clear,
        ))
  ];
  beyond = λ q le. ground (arith, b.beyond q le);
}

-- What the expansion leaves: a word more of clear bits, and every slot where it was.
abbrev Expanded : SlotTable → SlotTable → Type 0
Expanded t t' = record {
  bits : BitsValid t';
  size : t'.slots_size ≡ t.slots_size + 64;
  same_bits : (q : ℕ) → t'.slots_bmp q ≡ t.slots_bmp q;
  same_slots : (q : ℕ) → t'.slots q ≡ t.slots q;
}

none_beyond : {t : SlotTable} → TableValid t → (q : ℕ) → t.slots_size ≤ q → t.slots q ≡ none
none_beyond {t} v q le = elim (Option-cases (t.slots q)) [
  | inl e ↦ e
  | inr (s, e) ↦ absurd (ground (arith, v.used q, v.bits.beyond q le))
]

abbrev Expands : SlotTable → List Bool → Type 0
Expands t grants =
    (t' : SlotTable) × (expand_slot_table t (true ∷ true ∷ true ∷ grants) ≡ (pos 0, t', grants))
    × Expanded t t'

expand_slot_table-Expanded :
    {t : SlotTable} (grants : List Bool)
    → TableValid t
    → t.slots_size + 64 < 2 ^ 31
    → Expands t grants
unfolding expand_slot_table slot_table_init
expand_slot_table-Expanded {t} grants v fits =
    let b = v.bits in
    let t' : SlotTable = record {
      slots_size = t.slots_size + 64;
      slots = λ i. if ltb i t.slots_size then t.slots i else none;
      slots_bmp = λ i. if ltb i (bits_to_longs t.slots_size * 64) then t.slots_bmp i else false;
      full_slots_bmp = λ w.
          if ltb w (bits_to_longs (bits_to_longs t.slots_size) * 64)
          then t.full_slots_bmp w
          else false;
    } in
    let same : (q : ℕ) → t'.slots_bmp q ≡ t.slots_bmp q =
      λ q. ground (arith, b.beyond q, b.whole) in
    (
      t',
      ground (arith),
      record {
        bits = record {
          words = b.words + 1;
          whole = omega (arith, b.whole);
          some_word = omega arith;
          full = λ w.
              ground (
                arith,
                b.full w,
                b.whole,
                not_all_set 64 t.slots_bmp (w * 64) (w * 64) (omega arith) (omega arith),
                b.beyond (w * 64),
              )
              ∙ all_set_same 64 t.slots_bmp t'.slots_bmp (w * 64) (λ q lo hi. sym (same q));
          beyond = λ q le. same q ∙ b.beyond q (omega arith);
        };
        size = refl;
        same_bits = same;
        same_slots = λ q. ground (arith, none_beyond v q);
      },
    )

-- What a successful call leaves: the first free place, whose bit is set.
abbrev pub Allocated : SlotTable → ℕ → SlotTable → Type 0
Allocated t i t' = record {
  first : IsFirst t i;
  inside : i < t'.slots_size;
  grows : t.slots_size ≤ t'.slots_size;
  bits : BitsValid t';
  same_slots : (q : ℕ) → t'.slots q ≡ t.slots q;
  marked : (q : ℕ) → t'.slots_bmp q ≡ (if q == i then true else t.slots_bmp q);
}

set_slot-Allocated :
    {t : SlotTable} (i : ℕ)
    → BitsValid t
    → i < t.slots_size
    → IsFirst t i
    → Allocated t i (set_slot i t)
unfolding set_slot
set_slot-Allocated i b lt f =
    let b' = set_slot-BitsValid i b lt f.0 in
    record {
      first = f;
      inside = lt;
      grows = omega arith;
      bits = b';
      same_slots = λ q. refl;
      marked = λ q. refl;
    }

Expanded-Allocated :
    (t t1 t' : SlotTable) (i : ℕ) → Expanded t t1 → Allocated t1 i t' → Allocated t i t'
Expanded-Allocated t t1 t' i x a = record {
  first = (sym (x.same_bits i) ∙ a.first.0, λ q lt. sym (x.same_bits q) ∙ a.first.1 q lt);
  inside = a.inside;
  grows = omega (arith, a.grows, x.size);
  bits = a.bits;
  same_slots = λ q. a.same_slots q ∙ x.same_slots q;
  marked = λ q. a.marked q ∙ ap (λ b. if q == i then true else b) (x.same_bits q);
}

-- When the heap serves the next three requests and a valid table may still grow (below 2^31 slots),
-- alloc_slot_id returns the first free number within two rounds: its bit is set and no other, the
-- slots stay, the bitmaps agree, and the three requests are used together or not at all.
pub alloc_slot_id-Allocated :
    (t : SlotTable) (grants : List Bool)
    → TableValid t
    → t.slots_size + 64 < 2 ^ 31
    → (i : ℕ) × (t' : SlotTable) × (rest : List Bool) × (alloc_slot_id t
          (true ∷ true ∷ true ∷ grants)
        ≡ ok (pos i, t', rest))
      × Allocated t i t'
      × ((rest ≡ true ∷ true ∷ true ∷ grants) ⊎ (rest ≡ grants))
unfolding alloc_slot_id alloc_loop
alloc_slot_id-Allocated t grants v fits = elim (empty_idx_lem v.bits) [
  | inl (i, e, lt, f) ↦ (
    i,
    set_slot i t,
    true ∷ true ∷ true ∷ grants,
    ground (arith, e),
    set_slot-Allocated i v.bits lt f,
    inl refl,
  )
  | inr (e, all) ↦
      let (t1, run, x) = expand_slot_table-Expanded grants v fits in
      elim (empty_idx_lem x.bits) [
        | inl (i, e1, lt, f) ↦ (
          i,
          set_slot i t1,
          grants,
          ground (arith, e, run, e1, v.bits.whole, v.bits.some_word, x.size),
          Expanded-Allocated t t1 (set_slot i t1) i x (set_slot-Allocated i x.bits lt f),
          inr refl,
        )
        | inr (e1, all1) ↦ absurd (
            ground (
              arith,
              all1 t.slots_size,
              x.same_bits t.slots_size,
              x.size,
              v.bits.beyond t.slots_size,
            ))
      ]
]

-- A full table that the heap does not let grow is left as it was, and the error is -ENOMEM.
pub alloc_slot_id-full :
    (t : SlotTable)
    → TableValid t
    → ((q : ℕ) → q < t.slots_size → t.slots_bmp q ≡ true)
    → alloc_slot_id t [] ≡ ok (neg enomem, t, [])
unfolding alloc_slot_id alloc_loop expand_slot_table slot_table_init
alloc_slot_id-full t v all = elim (empty_idx_lem v.bits) [
  | inl (i, e, lt, f) ↦ absurd (ground (arith, all i))
  | inr (e, all1) ↦ ground (arith, e, v.bits.whole, v.bits.some_word)
]

-- A capability written to the number that was handed out.
pub Allocated-TableValid :
    {t t' : SlotTable} {i : ℕ} (s : ObjectSlot)
    → TableValid t
    → Allocated t i t'
    → TableValid (record t' { slots = update t'.slots i (some s) })
Allocated-TableValid {i = i} s v a = record {
  bits = record {
    words = a.bits.words;
    whole = a.bits.whole;
    some_word = a.bits.some_word;
    full = a.bits.full;
    beyond = a.bits.beyond;
  };
  used = λ q. ground (arith, v.used q, a.same_slots q, a.marked q);
}
