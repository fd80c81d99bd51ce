-- ===== src/Radix/Keys.antt =====
-- Two 64-bit keys take the same path through the tree of kernel/lib/radix.c if they are equal.
use chcore.Common.{Bool, ap, arith, suc, sym, true, zero, ℕ, ◌&&◌, ◌/◌, ◌<◌, ◌==◌, ◌^◌, ◌∙◌, ◌≡◌}
use chcore.Radix.{index}
use native.Mathlib.Nat.{div-div-eq-div-mul, pow-suc}

-- Whether the keys have the same index at each level.
unfoldable pub same_path : ℕ → ℕ → ℕ → Bool
same_path zero key other = index 0 key == index 0 other
same_path (suc level) key other =
    (index (suc level) key == index (suc level) other) && same_path level key other

-- The shift by the bits of one level more.
shift-suc : (level key : ℕ) → key / 16 ^ suc level ≡ key / 16 ^ level / 16
shift-suc level key =
    ap (λ d. key / d) (pow-suc 16 level) ∙ sym (div-div-eq-div-mul key (16 ^ level) 16)

path-shift :
    (level key other : ℕ)
    → same_path level key other ≡ true
    → key / 16 ^ suc level ≡ other / 16 ^ suc level
    → key ≡ other
unfolding same_path
path-shift zero key other h e = ground arith
path-shift (suc level) key other h e =
    path-shift level key other (ground arith)
      (ground (arith, shift-suc (suc level) key, shift-suc (suc level) other))

-- Two keys of 64 bits with the same path are equal.
pub same_path-eq :
    (key other : ℕ) → key < 2 ^ 64 → other < 2 ^ 64 → same_path 15 key other ≡ true → key ≡ other
same_path-eq key other lt lt' h = path-shift 15 key other h (omega arith)

pub same_path_self : (level key : ℕ) → same_path level key key ≡ true
unfolding same_path
same_path_self zero key = ground arith
same_path_self (suc level) key = ground (arith, same_path_self level key)
