-- ===== src/Buddy/Chunk.antt =====
-- Chunks of kernel/mm/buddy.c: runs of pages with one mark, aligned in physical memory.
use chcore.Common.{
  Bool, Bool-cases, ap, arith, false, if◌then◌else◌, inl, inr, leb, ltb, suc, sym, true, update,
  zero, ℕ, ◌&&◌, ◌*◌, ◌+◌, ◌<◌, ◌^◌, ◌≡◌, ◌≢◌, ◌≤◌,
}
use chcore.Buddy.{Page, Pool, mark}
use mathlib.Core.Path.{subst}
use native.Mathlib.Nat.{pow-suc}

-- Whether the page lies in the run of `w` pages from `p` on.
abbrev pub within : ℕ → ℕ → ℕ → Bool
within p w q = leb p q && ltb q (p + w)

-- The loops of `set_free_page` and `set_alloc_page` write exactly the pages of the run.
pub mark_lem :
    (n : ℕ) (pg : Page) (p : ℕ) (f : ℕ → Page) (q : ℕ)
    → mark n pg p f q ≡ (if within p n q then pg else f q)
unfolding mark
mark_lem zero pg p f q = ground arith
mark_lem (suc n) pg p f q = ground (arith, mark_lem n pg (p + 1) (update f p pg) q)

-- The pool's place in memory, in pages: it starts at page frame `frame` and has `n` pages.
pub record HasShape (frame n : ℕ) (pool : Pool) : Type 0 where
  pub start : pool.pool_start_addr ≡ frame * 4096
  pub size : pool.pool_mem_size ≡ n * 4096
  pub fits : (frame + n) * 4096 < 2 ^ 64

-- `p` heads a chunk of order `o`, marked as a whole.
pub record IsChunk (frame n : ℕ) (f : ℕ → Page) (a : Bool) (o p : ℕ) : Type 0 where
  pub small : o < 14
  pub unit : ℕ
  pub aligned : frame + p ≡ 2 ^ o * unit
  pub inside : p + 2 ^ o ≤ n
  pub marks : (q : ℕ) → within p (2 ^ o) q ≡ true → f q ≡ record { allocated = a; order = o }

pub pow_pos : (o : ℕ) → 0 < 2 ^ o
pow_pos zero = omega arith
pow_pos (suc o) = omega (arith, pow_pos o, pow-suc 2 o)

-- Aligned runs of one length that meet are one.
pub unit_unique : (w a b : ℕ) → w * a < w * b + w → w * b < w * a + w → a ≡ b
unit_unique w a b h k = grind arith

module _ {frame n : ℕ} {f : ℕ → Page} {a a' : Bool} {o o' p p' : ℕ} (c : IsChunk frame n f a o p)
    (c' : IsChunk frame n f a' o' p') (q : ℕ) (in_c : within p (2 ^ o) q ≡ true)
    (in_c' : within p' (2 ^ o') q ≡ true) where
  pub order_unique : o ≡ o'
  order_unique = ground (arith, c.marks q in_c, c'.marks q in_c')

-- Two chunks that share a page are the same.
pub head_unique :
    {frame n : ℕ} {f : ℕ → Page} {a a' : Bool} {o p p' : ℕ}
    → IsChunk frame n f a o p
    → IsChunk frame n f a' o p'
    → (q : ℕ) → within p (2 ^ o) q ≡ true
    → within p' (2 ^ o) q ≡ true
    → p ≡ p'
head_unique {o} c c' q i i' =
    let e =
      unit_unique (2 ^ o) c.unit c'.unit (ground (arith, c.aligned, c'.aligned))
        (ground (arith, c.aligned, c'.aligned)) in
    omega (arith, c.aligned, c'.aligned, ap (λ t. 2 ^ o * t) e)

module _ {frame n : ℕ} {f : ℕ → Page} {a a' : Bool} {o o' p p' : ℕ} (c : IsChunk frame n f a o p)
    (c' : IsChunk frame n f a' o' p') (q : ℕ) (i : within p (2 ^ o) q ≡ true) where
  pub chunk_unique : within p' (2 ^ o') q ≡ true → (o ≡ o') × (p ≡ p')
  chunk_unique i' =
      let e = order_unique c c' q i i' in
      (
        e,
        head_unique c (subst (λ k. IsChunk frame n f a' k p') (sym e) c') q i
            (subst (λ k. within p' (2 ^ k) q ≡ true) (sym e) i'),
      )

  -- Chunks with other heads share no page.
  pub chunk_apart : p ≢ p' → within p' (2 ^ o') q ≡ false
  chunk_apart ne = elim (Bool-cases (within p' (2 ^ o') q)) [
    | inl i' ↦ absurd (ne (chunk_unique i').1)
    | inr out ↦ out
  ]

-- The second pool marks the same pages allocated, and these as they were.
abbrev pub SameAllocated : Pool → Pool → Type 0
SameAllocated pool pool' =
    (x : ℕ)
    → ((pool'.page_metadata x).allocated ≡ (pool.page_metadata x).allocated)
      × ((pool.page_metadata x).allocated ≡ true → pool'.page_metadata x ≡ pool.page_metadata x)

-- The two halves of a chunk of the next order.
pub record AreBuddies (frame o p b : ℕ) : Type 0 where
  pub half : ℕ
  pub lower : frame + (if ltb p b then p else b) ≡ 2 ^ o * (2 * half)
  pub upper : frame + (if ltb p b then b else p) ≡ 2 ^ o * (2 * half) + 2 ^ o
