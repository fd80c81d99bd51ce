-- ===== src/Buddy/Lists.antt =====
-- The free lists of kernel/mm/buddy.c: they hold the heads of exactly the free chunks.
use chcore.Common.{
  Bool, Bool-cases, Distinct, arith, false, has, inl, inr, length, length-le_of_below, true, ℕ, ◌<◌,
  ◌^◌, ◌≡◌, ◌≢◌, ◌≤◌,
}
use chcore.Buddy.{Pool, order_of}
use chcore.Buddy.Chunk.{HasShape, IsChunk, order_unique, pow_pos, within}

-- What holds between calls, but for the pages of `hole`, which are marked free and not yet listed.
pub record Listed (frame n : ℕ) (hole : ℕ → Bool) (pool : Pool) : Type 0 where
  pub shape : HasShape frame n pool
  pub counted : (o : ℕ) → pool.nr_free o ≡ length (pool.free_list o)
  pub distinct : (o : ℕ) → Distinct (pool.free_list o)
  pub chunks :
      (o p : ℕ) → has p (pool.free_list o) ≡ true → IsChunk frame n pool.page_metadata false o p
  pub covered :
      (q : ℕ)
      → q < n
      → (pool.page_metadata q).allocated ≡ false
      → hole q ≡ false
      → (h : ℕ) × (has h (pool.free_list (order_of pool q)) ≡ true)
        × (within h (2 ^ order_of pool q) q ≡ true)

abbrev pub no_hole : ℕ → Bool
no_hole q = false

-- The pool between two calls.
abbrev pub IsValid : ℕ → ℕ → Pool → Type 0
IsValid frame n pool = Listed frame n no_hole pool

pub head-within : (w p : ℕ) → 0 < w → within p w p ≡ true
head-within w p h = ground arith

-- The counters do not wrap.
pub length-free_list-le :
    {frame n : ℕ} {hole : ℕ → Bool} {pool : Pool} (v : Listed frame n hole pool) (o : ℕ)
    → length (pool.free_list o) ≤ n
length-free_list-le {n} {pool} v o =
    length-le_of_below n (pool.free_list o) (v.distinct o)
      λ p h. let c = v.chunks o p h in omega (arith, c.inside, pow_pos o)

pub n-lt : {frame n : ℕ} {hole : ℕ → Bool} {pool : Pool} → Listed frame n hole pool → n < 2 ^ 52
n-lt v = omega (arith, v.shape.fits)

-- Chunk heads stand on the list of their own order only.
pub off_other_list :
    {frame n : ℕ} {hole : ℕ → Bool} {pool : Pool} (v : Listed frame n hole pool) {o o' p : ℕ}
    {a : Bool}
    → IsChunk frame n pool.page_metadata a o p
    → o' ≢ o
    → has p (pool.free_list o') ≡ false
off_other_list {pool} v {o} {o'} {p} c ne = elim (Bool-cases (has p (pool.free_list o'))) [
  | inl on ↦ absurd (
      ne (
        order_unique (v.chunks o' p on) c p (head-within (2 ^ o') p (pow_pos o'))
          (head-within (2 ^ o) p (pow_pos o))))
  | inr off ↦ off
]
