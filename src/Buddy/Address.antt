-- ===== src/Buddy/Address.antt =====
-- Addresses in kernel/mm/buddy.c: the buddy of a chunk is found by flipping one bit.
use chcore.Common.{
  ap, arith, dec_lt, refl, suc, sym, zero, ℕ, ◌%◌, ◌*◌, ◌+◌, ◌/◌, ◌<◌, ◌^◌, ◌∙◌, ◌≡◌, ◌≤◌,
}
use Prim.Native.Nat.{digits, differ, bit_xor, bit_xor-bitwise}
use mathlib.Core.Path.{ap₂}
use native.Mathlib.Nat.{pow-suc, add-zero}

xor_digits : ℕ → ℕ → ℕ → ℕ
xor_digits n a b = digits (λ y. y) differ n a b

more_fuel : (n m a b : ℕ) → a ≤ n → a ≤ m → xor_digits n a b ≡ xor_digits m a b
unfolding xor_digits
more_fuel zero zero a b p q = refl
more_fuel zero (suc m) zero b p q = refl
more_fuel zero (suc m) (suc a) b p q = absurd (omega arith)
more_fuel (suc n) zero zero b p q = refl
more_fuel (suc n) zero (suc a) b p q = absurd (omega arith)
more_fuel (suc n) (suc m) zero b p q = refl
more_fuel (suc n) (suc m) (suc a) b p q =
    ap (λ x. x * 2 + differ (suc a % 2) (b % 2))
      (more_fuel n m (suc a / 2) (b / 2) (omega arith) (omega arith))

-- The lowest bit, and the others.
bit_xor_step :
    (a b : ℕ) → 0 < a → bit_xor a b ≡ bit_xor (a / 2) (b / 2) * 2 + differ (a % 2) (b % 2)
unfolding xor_digits
bit_xor_step zero b h = absurd (omega arith)
bit_xor_step (suc a) b h = omega (
  arith,
  bit_xor-bitwise (suc a) b,
  bit_xor-bitwise (suc a / 2) (b / 2),
  more_fuel a (suc a / 2) (suc a / 2) (b / 2) (omega arith) (omega arith),
)

zero-bit_xor : (b : ℕ) → bit_xor 0 b ≡ b
zero-bit_xor b = bit_xor-bitwise 0 b

-- A step whose halves and bits are known.
step_at :
    (a b x y r t : ℕ)
    → 0 < a
    → a / 2 ≡ x
    → b / 2 ≡ y
    → a % 2 ≡ r
    → b % 2 ≡ t
    → bit_xor a b ≡ bit_xor x y * 2 + differ r t
step_at a b x y r t h ex ey er et =
    bit_xor_step a b h ∙ ap₂ (λ u v. u * 2 + v) (ap₂ bit_xor ex ey) (ap₂ differ er et)

double : (a b : ℕ) → bit_xor (a * 2) (b * 2) ≡ bit_xor a b * 2
double zero b = zero-bit_xor (b * 2) ∙ ap (λ x. x * 2) (sym (zero-bit_xor b))
double (suc a) b =
    step_at (suc a * 2) (b * 2) (suc a) b 0 0 (omega arith) (omega arith) (omega arith)
      (omega arith) (omega arith)
    ∙ add-zero (bit_xor (suc a) b * 2)

xor-zero : (n a : ℕ) → a ≤ n → bit_xor a 0 ≡ a
xor-zero n zero h = zero-bit_xor 0
xor-zero zero (suc a) h = absurd (omega arith)
xor-zero (suc n) (suc a) h = elim (dec_lt (suc a % 2) 1) [
  | yes even ↦
      step_at (suc a) 0 (suc a / 2) 0 0 0 (omega arith) refl refl (omega arith) refl
      ∙ omega (arith, xor-zero n (suc a / 2) (omega arith))
  | no odd ↦
      step_at (suc a) 0 (suc a / 2) 0 1 0 (omega arith) refl refl (omega arith) refl
      ∙ omega (arith, xor-zero n (suc a / 2) (omega arith))
]

-- Flipping bit `k` of a multiple of `2 ^ k`.
pub flip_up : (k h : ℕ) → bit_xor (2 ^ k * (2 * h)) (2 ^ k) ≡ 2 ^ k * (2 * h) + 2 ^ k
flip_up zero zero = zero-bit_xor 1
flip_up zero (suc h) =
    step_at (1 * (2 * suc h)) 1 (suc h) 0 0 1 (omega arith) (omega arith) refl (omega arith) refl
    ∙ omega (arith, xor-zero (suc h) (suc h) (omega arith))
flip_up (suc k) h =
    ap₂ bit_xor (omega (arith, ap (λ t. t * h) (pow-suc 2 k))) (pow-suc 2 k)
    ∙ double (2 ^ k * (2 * h)) (2 ^ k)
    ∙ omega (arith, flip_up k h, pow-suc 2 k, ap (λ t. t * h) (pow-suc 2 k))

pub flip_down : (k h : ℕ) → bit_xor (2 ^ k * (2 * h) + 2 ^ k) (2 ^ k) ≡ 2 ^ k * (2 * h)
flip_down zero h =
    step_at (1 * (2 * h) + 1) 1 h 0 1 1 (omega arith) (omega arith) refl (omega arith) refl
    ∙ omega (arith, xor-zero h h (omega arith))
flip_down (suc k) h =
    ap₂ bit_xor (omega (arith, pow-suc 2 k, ap (λ t. t * h) (pow-suc 2 k))) (pow-suc 2 k)
    ∙ double (2 ^ k * (2 * h) + 2 ^ k) (2 ^ k)
    ∙ omega (arith, flip_down k h, pow-suc 2 k, ap (λ t. t * h) (pow-suc 2 k))
