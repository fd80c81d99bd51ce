-- ===== src/Buddy/Join.antt =====
-- `merge_page` and the listing of the merged chunk in kernel/mm/buddy.c.
use chcore.Common.{
  Bool-cases, ap, arith, false, has, if◌then◌else◌, inl, inr, ok, refl, suc, sym, true, zero, ℕ,
  ◌%◌, ◌*◌, ◌+◌, ◌<◌, ◌==◌, ◌^◌, ◌∙◌, ◌∷◌, ◌≡◌, ◌≤◌,
}
use chcore.Buddy.{Pool, may_merge, merge_loop, merge_once, order_of, put_page}
use chcore.Buddy.Chunk.{IsChunk, SameAllocated, within}
use chcore.Buddy.Lists.{IsValid, length-free_list-le}
use chcore.Buddy.Find.{chunk_order, get_buddy_chunk_lem}
use chcore.Buddy.Merge.{Merging, merge_once-Merging, merge_once-SameAllocated, merge_once-size}
use chcore.Buddy.Size.{size_sum, size_sum-step}
use mathlib.Core.Path.{subst₂}

SameAllocated-trans : (a b c : Pool) → SameAllocated a b → SameAllocated b c → SameAllocated a c
SameAllocated-trans a b c h k x = ((k x).0 ∙ (h x).0, λ e. (k x).1 ((h x).0 ∙ e) ∙ (h x).1 e)

-- What the loop of `merge_page` ends in.
abbrev pub Merged : (frame n o : ℕ) → Pool → ℕ → ℕ → Pool → Type 0
Merged frame n o pool o' q pool' = record {
  state : Merging frame n o' q pool';
  same : SameAllocated pool pool';
  size : size_sum 14 pool'.nr_free + 4096 * 2 ^ o' ≡ size_sum 14 pool.nr_free + 4096 * 2 ^ o;
}

-- The loop ends within 14 rounds, since each makes the chunk one order larger.
pub merge_loop_lem :
    (f : ℕ) {frame n o p : ℕ} {pool : Pool}
    → Merging frame n o p pool
    → 14 ≤ f + o
    → (o' : ℕ) × (q : ℕ) × (pool' : Pool) × (merge_loop f (p, pool) ≡ ok (q, pool'))
      × Merged frame n o pool o' q pool'
unfolding merge_loop merge_once
merge_loop_lem zero m fuel = absurd (omega (arith, m.chunk.small))
merge_loop_lem (suc f) {frame} {n} {o} {p} {pool} m fuel =
    elim (get_buddy_chunk_lem m.listed.shape m.chunk) [
      | inl none' ↦ (
        o,
        p,
        pool,
        ground (arith, none'),
        record { state = m; same = λ x. (refl, λ e. refl); size = refl },
      )
      | inr (b, e, lt, buddies) ↦ elim (Bool-cases (may_merge pool p b)) [
        | inr stop ↦ (
          o,
          p,
          pool,
          ground (arith, e, stop),
          record { state = m; same = λ x. (refl, λ e. refl); size = refl },
        )
        | inl go ↦
            let eo = chunk_order m.listed.shape m.chunk in
            let small : suc o < 14 = ground (arith, eo) in
            let free : pool.page_metadata b ≡ record { allocated = false; order = o } =
              ground (arith, eo) in
            let m' = merge_once-Merging m buddies small lt free in
            let (o', q, pool', run, r) = merge_loop_lem f m' (omega arith) in
            (
              o',
              q,
              pool',
              ground (arith, e, go, run),
              record {
                state = r.state;
                same =
                    SameAllocated-trans pool (merge_once p b pool).1 pool'
                      (merge_once-SameAllocated m buddies small lt free) r.same;
                size = omega (arith, r.size, merge_once-size m buddies small lt free);
              },
            )
      ]
    ]

module _ {frame n o p : ℕ} {pool : Pool} (m : Merging frame n o p pool) where
  open m use {listed, chunk, off}

  head_order : order_of pool p ≡ o
  head_order = chunk_order listed.shape chunk

  -- The lists with the chunk's head in front of that of its order.
  put_list :
      (k : ℕ)
      → (put_page p pool).free_list k ≡ (if k == o then p ∷ pool.free_list o else pool.free_list k)
  unfolding put_page
  put_list k = rw head_order

  put_nr :
      (k : ℕ)
      → (put_page p pool).nr_free k
        ≡ (if k == o then (pool.nr_free o + 1) % 2 ^ 64 else pool.nr_free k)
  unfolding put_page
  put_nr k = rw head_order

  put-covered :
      (q : ℕ)
      → q < n
      → (pool.page_metadata q).allocated ≡ false
      → (h : ℕ) × (has h ((put_page p pool).free_list (order_of pool q)) ≡ true)
        × (within h (2 ^ order_of pool q) q ≡ true)
  put-covered q lt f = elim (Bool-cases (within p (2 ^ o) q)) [
    | inl i ↦
        let e = ap (λ g. g.order) (chunk.marks q i) in
        (p, ground (arith, put_list (order_of pool q), e), rw e i)
    | inr out ↦
        let (h, on, i) = listed.covered q lt f out in
        (
          h,
          ground
              (arith, put_list (order_of pool q), ap (λ k. has h (pool.free_list k)) (head_order)),
          i,
        )
  ]

  put-chunks :
      (k h : ℕ)
      → has h ((put_page p pool).free_list k) ≡ true
      → IsChunk frame n pool.page_metadata false k h
  put-chunks k h on = elim (Bool-cases (has h (pool.free_list k))) [
    | inl old ↦ listed.chunks k h old
    | inr new ↦
        let ek : k ≡ o = ground (arith, put_list k) in
        let eh : h ≡ p = ground (arith, put_list k, ap (λ j. has h (pool.free_list j)) ek) in
        subst₂ (λ j g. IsChunk frame n pool.page_metadata false j g) (sym ek) (sym eh) chunk
  ]

  pub put_page-IsValid : IsValid frame n (put_page p pool)
  unfolding put_page
  put_page-IsValid = record {
    shape = record {
      start = listed.shape.start;
      size = listed.shape.size;
      fits = listed.shape.fits;
    };
    counted = λ k. ground (
      arith,
      put_nr k,
      put_list k,
      listed.counted k,
      listed.counted o,
      length-free_list-le listed o,
      listed.shape.fits,
    );
    distinct = λ k. ground (arith, put_list k, listed.distinct k, listed.distinct o, off o);
    chunks = put-chunks;
    covered = λ q lt f out. put-covered q lt f;
  }

  pub put_page-size :
      size_sum 14 (put_page p pool).nr_free ≡ size_sum 14 pool.nr_free + 4096 * 2 ^ o
  put_page-size = omega (
    arith,
    size_sum-step 14 o pool.nr_free (put_page p pool).nr_free 0 1 chunk.small
        (λ j ne. ground (arith, put_nr j))
        (ground
          (arith, put_nr o, listed.counted o, length-free_list-le listed o, listed.shape.fits)),
  )
