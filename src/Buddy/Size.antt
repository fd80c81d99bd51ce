-- ===== src/Buddy/Size.antt =====
-- The free memory that `get_free_mem_size_from_buddy` of kernel/mm/buddy.c adds up.
use chcore.Common.{ap, arith, dec_lt, refl, suc, sym, zero, ℕ, ◌%◌, ◌*◌, ◌+◌, ◌<◌, ◌^◌, ◌≡◌, ◌≢◌}
use chcore.Buddy.{Pool, free_size_below, get_free_mem_size_from_buddy}
use mathlib.Core.Path.{subst}

-- The sum without the wrap at 2^64.
pub size_sum : ℕ → (ℕ → ℕ) → ℕ
size_sum zero nr = 0
size_sum (suc o) nr = size_sum o nr + nr o * (4096 * 2 ^ o)

free_size_below_lem :
    (k : ℕ) (pool : Pool) → free_size_below k pool ≡ size_sum k pool.nr_free % 2 ^ 64
unfolding free_size_below size_sum
free_size_below_lem zero pool = refl
free_size_below_lem (suc k) pool = omega (arith, free_size_below_lem k pool)

pub get_free_mem_size_from_buddy_lem :
    (pool : Pool) → get_free_mem_size_from_buddy pool ≡ size_sum 14 pool.nr_free % 2 ^ 64
unfolding get_free_mem_size_from_buddy
get_free_mem_size_from_buddy_lem pool = free_size_below_lem 14 pool

size_sum-above :
    (k o : ℕ) (nr nr' : ℕ → ℕ) → ((j : ℕ) → j < k → nr' j ≡ nr j) → size_sum k nr' ≡ size_sum k nr
unfolding size_sum
size_sum-above zero o nr nr' same = refl
size_sum-above (suc k) o nr nr' same = omega (
  arith,
  size_sum-above k o nr nr' (λ j h. same j (omega arith)),
  ap (λ t. t * (4096 * 2 ^ k)) (same k (omega arith)),
)

-- A counter that changes by one block changes the sum by its size.
pub size_sum-step :
    (k o : ℕ) (nr nr' : ℕ → ℕ) (d e : ℕ)
    → o < k
    → ((j : ℕ) → j ≢ o → nr' j ≡ nr j)
    → nr' o + d ≡ nr o + e
    → size_sum k nr' + d * (4096 * 2 ^ o) ≡ size_sum k nr + e * (4096 * 2 ^ o)
unfolding size_sum
size_sum-step zero o nr nr' d e h same at = absurd (omega arith)
size_sum-step (suc k) o nr nr' d e h same at = elim (dec_lt o k) [
  | yes below ↦ omega (
    arith,
    size_sum-step k o nr nr' d e below same at,
    ap (λ t. t * (4096 * 2 ^ k)) (same k (omega arith)),
  )
  | no last ↦
      let last' : k ≡ o = omega arith in
      let e1 = size_sum-above k o nr nr' (λ j l. same j (omega arith)) in
      subst
        (λ m.
          size_sum k nr' + nr' k * (4096 * 2 ^ k) + d * (4096 * 2 ^ m)
          ≡ size_sum k nr + nr k * (4096 * 2 ^ k) + e * (4096 * 2 ^ m))
        last'
        (omega (
          arith,
          e1,
          ap (λ t. t * (4096 * 2 ^ k)) (subst (λ m. nr' m + d ≡ nr m + e) (sym last') at),
        ))
]
