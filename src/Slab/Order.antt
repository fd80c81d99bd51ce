-- ===== src/Slab/Order.antt =====
-- `size_to_order` of kernel/mm/slab.c: the least order whose blocks hold the size.
use chcore.Common.{
  Bool-cases, ap, arith, dec_lt, if◌then◌else◌, inl, inr, ltb, ltb→lt, refl, suc, sym, zero, ℕ,
  ℕ_discrete, ◌*◌, ◌+◌, ◌/◌, ◌<◌, ◌^◌, ◌∙◌, ◌≡◌, ◌≤◌, ◌⊎◌,
}
use chcore.Slab.{halvings, order_for, order_to_size, size_to_order, slab_max_order, slab_min_order}
use native.Mathlib.Nat.{pow-suc, pow-le-pow_right}
use mathlib.Core.Path.{subst}

halvings_lem :
    (fuel tmp order : ℕ)
    → 0 < tmp
    → tmp ≤ fuel
    → (k : ℕ) × (halvings fuel tmp order ≡ order + k) × ((2 ^ k ≤ tmp) × (tmp < 2 ^ k * 2))
unfolding halvings
halvings_lem zero tmp order more enough = absurd (omega arith)
halvings_lem (suc fuel) tmp order more enough = elim (dec_lt 1 tmp) [
  | no one ↦ (0, ground (arith, one), (omega arith, omega arith))
  | yes two ↦
      let (k, e, (le, gt)) = halvings_lem fuel (tmp / 2) (order + 1) (omega arith) (omega arith) in
      (suc k, ground (arith, two, e), (omega (arith, pow-suc 2 k), omega (arith, pow-suc 2 k)))
]

-- What an order promises for a size.
abbrev pub Fits : ℕ → ℕ → Type 0
Fits size order = (size ≤ order_to_size order) × (order_to_size order < 2 * size)

size_to_order-cases :
    (size k : ℕ)
    → halvings size size 0 ≡ k
    → (size_to_order size ≡ (if ltb (2 ^ k) size then suc k else k))
unfolding size_to_order
size_to_order-cases size k e = elim (Bool-cases (ltb (2 ^ k) size)) [
  | inl above ↦ ground (arith, e, above)
  | inr exact ↦ ground (arith, e, exact)
]

Fits-halved :
    (size k : ℕ)
    → 0 < size
    → 2 ^ k ≤ size
    → size < 2 ^ k * 2
    → Fits size (if ltb (2 ^ k) size then suc k else k)
Fits-halved size k more le gt = elim (Bool-cases (ltb (2 ^ k) size)) [
  | inl above ↦
      rw above (omega (arith, pow-suc 2 k), omega (arith, pow-suc 2 k, ltb→lt (2 ^ k) size above))
  | inr exact ↦ rw exact (ground (arith, exact), omega arith)
]

-- The blocks of the order hold the size, and are less than twice as large.
pub size_to_order-Fits : (size : ℕ) → 0 < size → Fits size (size_to_order size)
size_to_order-Fits size more =
    let (k, e, (le, gt)) = halvings_lem size size 0 more (omega arith) in
    subst (Fits size) (sym (size_to_order-cases size k (e ∙ omega arith)))
      (Fits-halved size k more le gt)

pub size_to_order_zero : size_to_order 0 ≡ 0
unfolding size_to_order halvings
size_to_order_zero = refl

-- An order with blocks below 2^12 is at most 11.
order_bound : (o : ℕ) → 2 ^ o < 2 ^ 12 → o ≤ 11
order_bound o lt = elim (dec_lt 11 o) [
  | no le ↦ omega arith
  | yes gt ↦
      absurd (omega (arith, pow-le-pow_right {n = 2} (omega arith) {i = 12} {j = o} (omega arith)))
]

-- What the order that is used promises for a size.
abbrev pub FitsSlab : ℕ → ℕ → Type 0
FitsSlab size order =
    (size ≤ order_to_size order)
    × (slab_min_order ≤ order)
    × (order ≤ slab_max_order)
    × ((order ≡ slab_min_order) ⊎ (order_to_size order < 2 * size))

FitsSlab-raised :
    (size o : ℕ)
    → size ≤ 2048
    → size ≤ 2 ^ o
    → (2 ^ o < 2 * size) ⊎ (o ≡ 0)
    → FitsSlab size (if ltb o slab_min_order then slab_min_order else o)
FitsSlab-raised size o le holds tight = elim (dec_lt o 5) [
  | yes low ↦ subst (FitsSlab size) (ground (arith, low)) (
    omega (arith, pow-le-pow_right {n = 2} (omega arith) {i = o} {j = 5} (omega arith)),
    omega arith,
    omega arith,
    inl refl,
  )
  | no high ↦ subst (FitsSlab size) (ground (arith, high)) (
    holds,
    omega arith,
    order_bound o (elim tight [ inl t ↦ omega (arith, t) | inr z ↦ absurd (omega (arith, z)) ]),
    elim tight [ inl t ↦ inr t | inr z ↦ absurd (omega (arith, z)) ],
  )
]

-- For a size of up to 2048 the order that alloc_in_slab uses is from 5 to 11 and its blocks hold
-- the size; they are less than twice as large unless the order is 5.
pub order_for-FitsSlab : (size : ℕ) → size ≤ 2048 → FitsSlab size (order_for size)
order_for-FitsSlab size le = elim (ℕ_discrete size 0) [
  | yes e ↦
      let o : size_to_order size ≡ 0 = ap size_to_order e ∙ size_to_order_zero in
      FitsSlab-raised size (size_to_order size) le (omega (arith, e)) (inr o)
  | no ne ↦
      let fits = size_to_order-Fits size (omega arith) in
      FitsSlab-raised size (size_to_order size) le fits.0 (inl fits.1)
]
