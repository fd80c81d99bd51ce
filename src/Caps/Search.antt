-- ===== src/Caps/Search.antt =====
-- The slot table of kernel/object/cap_group.c in step, and the searches of `alloc_slot_id`.
use chcore.Common.{
  arith, dec_lt, false, inl, inr, is_some, none, some, sym, true, ℕ, ◌*◌, ◌-◌, ◌/◌, ◌<◌, ◌∙◌, ◌≡◌,
  ◌≤◌, ◌⊎◌,
}
use chcore.Caps.{SlotTable, all_set, bits_to_longs, empty_idx, find_next_zero_bit, find_zero}
use chcore.Caps.Bits.{all_set_at, all_set_of, find_zero_lem}

-- Bitmaps in step: the table has whole words, a bit of `full_slots_bmp` is set if all bits of its
-- word are, and no bit behind the table is set.
pub record BitsValid (t : SlotTable) : Type 0 where
  pub words : ℕ
  pub whole : t.slots_size ≡ 64 * words
  pub some_word : 0 < words
  pub full : (w : ℕ) → t.full_slots_bmp w ≡ all_set 64 t.slots_bmp (w * 64)
  pub beyond : (i : ℕ) → t.slots_size ≤ i → t.slots_bmp i ≡ false

-- The slots that are in use are those whose bits are set.
pub record TableValid (t : SlotTable) : Type 0 where
  pub bits : BitsValid t
  pub used : (i : ℕ) → is_some (t.slots i) ≡ t.slots_bmp i

-- The first free place.
abbrev pub IsFirst : SlotTable → ℕ → Type 0
IsFirst t i = (t.slots_bmp i ≡ false) × ((q : ℕ) → q < i → t.slots_bmp q ≡ true)

-- The search finds the first free place of the table, or that there is none.
pub empty_idx_lem :
    {t : SlotTable}
    → BitsValid t
    → ((i : ℕ) × (empty_idx t ≡ some i) × (i < t.slots_size) × IsFirst t i)
      ⊎ ((empty_idx t ≡ none) × ((q : ℕ) → q < t.slots_size → t.slots_bmp q ≡ true))
unfolding empty_idx find_next_zero_bit
empty_idx_lem {t} b =
    let ew : bits_to_longs t.slots_size ≡ b.words = omega (arith, b.whole) in
    elim (find_zero_lem b.words t.full_slots_bmp 0) [
      | inr (end, all) ↦ inr (
        ground (arith, ew, b.some_word),
        λ q lt.
            all_set_at 64 t.slots_bmp (q / 64 * 64)
              (sym (b.full (q / 64)) ∙ all (q / 64) (omega arith) (omega (arith, b.whole))) q
              (omega arith) (omega arith),
      )
      | inl (lt, le, z, before) ↦
          let w : ℕ = find_zero b.words t.full_slots_bmp 0 in
          elim (find_zero_lem (t.slots_size - w * 64) t.slots_bmp (w * 64)) [
            | inr (end, all) ↦ absurd (
                ground (
                  arith,
                  b.full w,
                  all_set_of 64 t.slots_bmp (w * 64) (λ q lo hi. all q lo (omega (arith, b.whole))),
                ))
            | inl (lt', le', z', before') ↦ inl (
              find_zero (t.slots_size - w * 64) t.slots_bmp (w * 64),
              ground (arith, ew, b.some_word, b.whole),
              omega (arith, b.whole),
              (
                z',
                λ q below. elim (dec_lt q (w * 64)) [
                  | yes early ↦
                      all_set_at 64 t.slots_bmp (q / 64 * 64)
                        (sym (b.full (q / 64)) ∙ before (q / 64) (omega arith) (omega arith)) q
                        (omega arith) (omega arith)
                  | no late ↦ before' q (omega arith) below
                ],
              ),
            )
          ]
    ]
