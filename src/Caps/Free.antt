-- ===== src/Caps/Free.antt =====
-- `free_slot_id` of kernel/include/object/cap_group.h.
use chcore.Common.{arith, false, update, ℕ, ℕ_discrete, ◌*◌, ◌/◌}
use chcore.Caps.{SlotTable, free_slot_id}
use chcore.Caps.Bits.{all_set_same, not_all_set}
use chcore.Caps.Search.{BitsValid, TableValid}

-- Freeing any number of a valid table leaves it valid.
pub free_slot_id-TableValid : {t : SlotTable} (i : ℕ) → TableValid t → TableValid (free_slot_id i t)
unfolding free_slot_id
free_slot_id-TableValid {t} i v = record {
  bits = record {
    words = b.words;
    whole = b.whole;
    some_word = b.some_word;
    full = λ w. elim (ℕ_discrete w (i / 64)) [
      | no ne ↦ ground (
        arith,
        b.full w,
        all_set_same 64 t.slots_bmp (update t.slots_bmp i false) (w * 64) (λ q lo hi. ground arith),
      )
      | yes e ↦ rw e (
          ground (
            arith,
            not_all_set 64 (update t.slots_bmp i false) (i / 64 * 64) i (omega arith) (omega arith)
                (ground arith),
          ))
    ];
    beyond = λ q le. ground (arith, b.beyond q le);
  };
  used = λ q. ground (arith, v.used q);
}
  where
    b : BitsValid t
    b = v.bits
