-- ===== src/Common/Outcome.antt =====
-- What a kernel function returns: a result, or a stop at `BUG_ON` or at undefined behaviour.
use Prim.Native.Nat.{ℕ, zero, suc}
use mathlib.Core.Bool.{Bool, true, false}
use mathlib.Core.Path.{◌≡◌, refl, ap}
use mathlib.Core.Logic.{◌⊎◌, inl, inr}
use mathlib.Core.List.{List, [], ◌∷◌}

pub data Run {ℓ} (A : Type ℓ) : Type ℓ where
  ok : A → Run A
  bug : Run A

pub Run-cases {ℓ} : {A : Type ℓ} (r : Run A) → (r ≡ bug) ⊎ ((a : A) × (r ≡ ok a))
Run-cases (ok a) = inr (a, refl)
Run-cases bug = inl refl

-- The result, or `a` for a stop.
abbrev pub result_or {ℓ} : {A : Type ℓ} → A → Run A → A
result_or a (ok b) = b
result_or a bug = a

pub ok-injective {ℓ} : {A : Type ℓ} {a b : A} → ok a ≡ ok b → a ≡ b
ok-injective {a} e = ap (result_or a) e

infixl 5 ◌>>=◌
abbrev pub ◌>>=◌ {ℓ κ} : {A : Type ℓ} {B : Type κ} → Run A → (A → Run B) → Run B
ok a >>= f = f a
bug >>= f = bug

-- `BUG_ON(test)` before the rest.
abbrev pub bug_on {ℓ} : {A : Type ℓ} → Bool → Run A → Run A
bug_on true rest = bug
bug_on false rest = rest

-- A C `int`: `negsuc n` is -(n + 1).
pub data ℤ : Type 0 where
  pos : ℕ → ℤ
  negsuc : ℕ → ℤ

-- `-code`, as the kernel returns an error.
abbrev pub neg : ℕ → ℤ
neg zero = pos 0
neg (suc n) = negsuc n

abbrev pub is_zero : ℤ → Bool
is_zero (pos zero) = true
is_zero (pos (suc n)) = false
is_zero (negsuc n) = false

-- `r < 0`
abbrev pub is_neg : ℤ → Bool
is_neg (pos n) = false
is_neg (negsuc n) = true

-- The codes of errno.h that the modelled functions return.
abbrev pub eperm : ℕ
eperm = 1

abbrev pub enoent : ℕ
enoent = 2

abbrev pub eagain : ℕ
eagain = 11

abbrev pub enomem : ℕ
enomem = 12

abbrev pub einval : ℕ
einval = 22

abbrev pub ecapbility : ℕ
ecapbility = 200

-- One call of `kmalloc` or `kzalloc`, where the list says which of the coming calls succeed.
abbrev pub granted : List Bool → Bool
granted [] = false
granted (b ∷ r) = b

abbrev pub later_grants : List Bool → List Bool
later_grants [] = []
later_grants (b ∷ r) = r
