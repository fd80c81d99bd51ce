-- ===== src/Caps/Bits.antt =====
-- The bitmap searches of kernel/include/common/bitops.h.
use chcore.Common.{
  Bool, Bool-cases, arith, dec_lt, false, inl, inr, refl, suc, true, zero, ℕ, ◌+◌, ◌<◌, ◌≡◌, ◌≤◌,
  ◌⊎◌,
}
use chcore.Caps.{all_set, find_zero}

-- What the scan of the `n` bits from `p` on finds: the first zero, or that there is none.
pub find_zero_lem :
    (n : ℕ) (f : ℕ → Bool) (p : ℕ)
    → ((find_zero n f p < p + n)
        × (p ≤ find_zero n f p)
        × (f (find_zero n f p) ≡ false)
        × ((q : ℕ) → p ≤ q → q < find_zero n f p → f q ≡ true))
      ⊎ ((find_zero n f p ≡ p + n) × ((q : ℕ) → p ≤ q → q < p + n → f q ≡ true))
unfolding find_zero
find_zero_lem zero f p = inr (omega arith, λ q lo hi. absurd (omega arith))
find_zero_lem (suc n) f p = elim (Bool-cases (f p)) [
  | inr clear ↦ inl (
    rw clear (omega arith),
    rw clear (omega arith),
    rw clear clear,
    λ q lo hi. absurd (ground arith),
  )
  | inl set ↦ elim (find_zero_lem n f (p + 1)) [
    | inl (lt, le, z, before) ↦ inl (
      rw set (omega arith),
      rw set (omega arith),
      rw set z,
      λ q lo hi. elim (dec_lt p q) [
        | yes above ↦ before q (omega arith) (ground arith)
        | no here ↦ let e : q ≡ p = omega arith in rw e set
      ],
    )
    | inr (end, all) ↦ inr (
      rw set (omega arith),
      λ q lo hi. elim (dec_lt p q) [
        | yes above ↦ all q (omega arith) (omega arith)
        | no here ↦ let e : q ≡ p = omega arith in rw e set
      ],
    )
  ]
]

pub all_set_at :
    (n : ℕ) (f : ℕ → Bool) (p : ℕ) → all_set n f p ≡ true → (q : ℕ) → p ≤ q → q < p + n → f q ≡ true
unfolding all_set
all_set_at zero f p h q lo hi = absurd (omega arith)
all_set_at (suc n) f p h q lo hi = elim (dec_lt p q) [
  | yes above ↦ all_set_at n f (p + 1) (ground arith) q (omega arith) (omega arith)
  | no here ↦ let e : q ≡ p = omega arith in rw e (ground arith)
]

pub all_set_of :
    (n : ℕ) (f : ℕ → Bool) (p : ℕ)
    → ((q : ℕ) → p ≤ q → q < p + n → f q ≡ true)
    → all_set n f p ≡ true
unfolding all_set
all_set_of zero f p h = refl
all_set_of (suc n) f p h =
    rw (h p (omega arith) (omega arith))
      (all_set_of n f (p + 1) (λ q lo hi. h q (omega arith) (omega arith)))

pub all_set_same :
    (n : ℕ) (f g : ℕ → Bool) (p : ℕ)
    → ((q : ℕ) → p ≤ q → q < p + n → f q ≡ g q)
    → all_set n f p ≡ all_set n g p
unfolding all_set
all_set_same zero f g p h = refl
all_set_same (suc n) f g p h =
    rw
      (
        h p (omega arith) (omega arith),
        all_set_same n f g (p + 1) (λ q lo hi. h q (omega arith) (omega arith)),
      )
      refl

-- One clear bit makes the range not full.
pub not_all_set :
    (n : ℕ) (f : ℕ → Bool) (p q : ℕ) → p ≤ q → q < p + n → f q ≡ false → all_set n f p ≡ false
not_all_set n f p q lo hi clear = elim (Bool-cases (all_set n f p)) [
  | inl h ↦ absurd (ground (arith, all_set_at n f p h q))
  | inr h ↦ h
]
