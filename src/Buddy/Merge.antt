-- ===== src/Buddy/Merge.antt =====
-- `merge_page` of kernel/mm/buddy.c: a free chunk joins its buddy while that is free.
use chcore.Common.{
  ==_iff, Bool, Bool-cases, Distinct-erase, ap, arith, erase, erase-eq_of_not, false, has,
  has-erase_ne, has-erase_self, has_of-erase, if◌then◌else◌, inl, inr, length-erase, ltb, suc, sym,
  true, ℕ, ◌%◌, ◌*◌, ◌+◌, ◌-◌, ◌<◌, ◌==◌, ◌^◌, ◌||◌, ◌∙◌, ◌≡◌,
}
use chcore.Buddy.{Page, Pool, mark, merge_once, order_of}
use chcore.Buddy.Chunk.{
  AreBuddies, IsChunk, SameAllocated, chunk_apart, mark_lem, order_unique, pow_pos, unit_unique,
  within,
}
use chcore.Buddy.Lists.{Listed, head-within, length-free_list-le, off_other_list}
use chcore.Buddy.Size.{size_sum, size_sum-step}
use mathlib.Core.Path.{subst}
use native.Mathlib.Nat.{pow-suc}

-- The state of the loop: `p` heads a chunk that is marked free and not listed.
pub record Merging (frame n o p : ℕ) (pool : Pool) : Type 0 where
  pub listed : Listed frame n (within p (2 ^ o)) pool
  pub chunk : IsChunk frame n pool.page_metadata false o p
  pub off : (o' : ℕ) → has p (pool.free_list o') ≡ false

pow-two : (o : ℕ) → 2 ^ suc o ≡ 2 ^ o + 2 ^ o
pow-two o = omega (arith, pow-suc 2 o)

module _ {frame n o p b : ℕ} {pool : Pool} (m : Merging frame n o p pool)
    (buddies : AreBuddies frame o p b) (small : suc o < 14) (inside : b < n)
    (free : (pool.page_metadata b) ≡ record { allocated = false; order = o }) where
  open m use {listed, chunk, off}

  apart : within p (2 ^ o) b ≡ false
  apart = ground (arith, buddies.lower, buddies.upper, pow_pos o)

  b_aligned : (u : ℕ) × (frame + b ≡ 2 ^ o * u)
  b_aligned = elim (Bool-cases (ltb p b)) [
    | inl e ↦ (2 * buddies.half + 1, ground (arith, buddies.upper))
    | inr e ↦ (2 * buddies.half, ground (arith, buddies.lower))
  ]

  -- The buddy heads a listed chunk.
  buddy_listed : has b (pool.free_list o) ≡ true
  buddy_listed =
      let (h, on, i) = listed.covered b inside (ap (λ g. g.allocated) free) apart in
      let e : order_of pool b ≡ o = ap (λ g. g.order) free in
      let on' = subst (λ k. has h (pool.free_list k) ≡ true) e on in
      let i' = subst (λ k. within h (2 ^ k) b ≡ true) e i in
      let c = listed.chunks o h on' in
      let (u, al) = b_aligned in
      let eu =
        unit_unique (2 ^ o) c.unit u (ground (arith, c.aligned))
          (ground (arith, c.aligned, pow_pos o)) in
      let same : h ≡ b = omega (arith, c.aligned, ap (λ t. 2 ^ o * t) eu) in
      subst (λ k. has k (pool.free_list o) ≡ true) same on'

  buddy_chunk : IsChunk frame n pool.page_metadata false o b
  buddy_chunk = listed.chunks o b buddy_listed

  abbrev low : ℕ
  low = if ltb p b then p else b

  -- The run of the merged chunk is that of the two halves.
  halves : (q : ℕ) → within low (2 ^ suc o) q ≡ (within p (2 ^ o) q || within b (2 ^ o) q)
  halves q = ground (arith, buddies.lower, buddies.upper, pow-two o)

  low_order : order_of pool low + 1 ≡ suc o
  low_order = elim (Bool-cases (ltb p b)) [
    | inl e ↦
        rw e (omega (arith, ap (λ g. g.order) (chunk.marks p (head-within (2 ^ o) p (pow_pos o)))))
    | inr e ↦ rw e (omega (arith, ap (λ g. g.order) free))
  ]

  merged : Pool
  merged = (merge_once p b pool).1

  merged_page :
      (q : ℕ)
      → merged.page_metadata q ≡ (
          if within low (2 ^ suc o) q
          then record { allocated = false; order = suc o }
          else pool.page_metadata q)
  unfolding merged merge_once
  merged_page q =
      subst
        (λ k. mark (2 ^ k) (record { allocated = false; order = k }) low pool.page_metadata q ≡ (
          if within low (2 ^ suc o) q
          then record { allocated = false; order = suc o }
          else pool.page_metadata q))
        (sym low_order)
        (mark_lem (2 ^ suc o) (record { allocated = false; order = suc o }) low pool.page_metadata
          q)

  merged_nr :
      (o' : ℕ)
      → merged.nr_free o'
        ≡ (if o' == o then (pool.nr_free o + 2 ^ 64 - 1) % 2 ^ 64 else pool.nr_free o')
  unfolding merged merge_once
  merged_nr o' = rw (ap (λ g. g.order) free)

  -- Another listed chunk lies outside the merged one.
  elsewhere :
      (o' h : ℕ)
      → has h (erase b (pool.free_list o')) ≡ true
      → (q : ℕ) → within h (2 ^ o') q ≡ true
      → within low (2 ^ suc o) q ≡ false
  elsewhere o' h on q i =
      let on' = has_of-erase b h (pool.free_list o') on in
      let c = listed.chunks o' h on' in
      let apart_p = chunk_apart c chunk q i (ground (arith, off o', on')) in
      let apart_b =
        chunk_apart c buddy_chunk q i
          (ground (arith, on, has-erase_self b (pool.free_list o') (listed.distinct o'))) in
      ground (arith, halves q, apart_p, apart_b)

  merged-chunks :
      (o' h : ℕ)
      → has h (merged.free_list o') ≡ true
      → IsChunk frame n merged.page_metadata false o' h
  unfolding merged merge_once
  merged-chunks o' h on =
      let c = listed.chunks o' h (has_of-erase b h (pool.free_list o') on) in
      record {
        small = c.small;
        unit = c.unit;
        aligned = c.aligned;
        inside = c.inside;
        marks = λ q i. rw (merged_page q, elsewhere o' h on q i) (c.marks q i);
      }

  -- A listed chunk with a page outside the merged one keeps its place.
  stays :
      (o' h q : ℕ)
      → has h (pool.free_list o') ≡ true
      → within h (2 ^ o') q ≡ true
      → within low (2 ^ suc o) q ≡ false
      → has h (merged.free_list o') ≡ true
  unfolding merged merge_once
  stays o' h q on i out = elim (Bool-cases (h == b)) [
    | inl same ↦
        let e = (==_iff h b).0 same in
        let c =
          subst (λ k. IsChunk frame n pool.page_metadata false o' k) e (listed.chunks o' h on) in
        let eo =
          order_unique c buddy_chunk b (head-within (2 ^ o') b (pow_pos o'))
            (head-within (2 ^ o) b (pow_pos o)) in
        let i' = subst (λ k. within h (2 ^ k) q ≡ true) eo i in absurd (ground (arith, halves q))
    | inr other ↦ has-erase_ne b h (pool.free_list o') (ground arith) ∙ on
  ]

  merged-covered :
      (q : ℕ)
      → q < n
      → (merged.page_metadata q).allocated ≡ false
      → within low (2 ^ suc o) q ≡ false
      → (h : ℕ) × (has h (merged.free_list (order_of merged q)) ≡ true)
        × (within h (2 ^ order_of merged q) q ≡ true)
  merged-covered q lt f out =
      let e : merged.page_metadata q ≡ pool.page_metadata q = ground (arith, merged_page q) in
      let (h, on, i) =
        listed.covered q lt (subst (λ g. g.allocated ≡ false) e f) (ground (arith, halves q)) in
      subst
        (λ (g : Page).
          (h' : ℕ) × (has h' (merged.free_list g.order) ≡ true)
          × (within h' (2 ^ g.order) q ≡ true))
        (sym e) (h, stays (order_of pool q) h q on i out, i)

  merged-Listed : Listed frame n (within low (2 ^ suc o)) merged
  unfolding merged merge_once
  merged-Listed = record {
    shape = record {
      start = listed.shape.start;
      size = listed.shape.size;
      fits = listed.shape.fits;
    };
    counted = λ o'. ground (
      arith,
      merged_nr o',
      listed.counted o',
      listed.counted o,
      length-free_list-le listed o,
      listed.shape.fits,
      length-erase b (pool.free_list o'),
      buddy_listed,
      erase-eq_of_not b (pool.free_list o'),
      off_other_list listed {o' = o'} buddy_chunk,
    );
    distinct = λ o'. Distinct-erase b (pool.free_list o') (listed.distinct o');
    chunks = merged-chunks;
    covered = merged-covered;
  }

  merged-chunk : IsChunk frame n merged.page_metadata false (suc o) low
  merged-chunk = record {
    small = small;
    unit = buddies.half;
    aligned = omega (arith, buddies.lower, ap (λ t. t * buddies.half) (pow-two o));
    inside =
        ground (arith, buddies.lower, buddies.upper, pow-two o, chunk.inside, buddy_chunk.inside);
    marks = λ q i.
        merged_page q
        ∙ ap
            (λ (t : Bool).
              if t then record { allocated = false; order = suc o } else pool.page_metadata q)
            i;
  }

  merged-off : (o' : ℕ) → has low (merged.free_list o') ≡ false
  unfolding merged merge_once
  merged-off o' = elim (Bool-cases (ltb p b)) [
    | inl e ↦ rw e (ground (arith, off o', has-erase_ne b p (pool.free_list o')))
    | inr e ↦ rw e (has-erase_self b (pool.free_list o') (listed.distinct o'))
  ]

  -- One round of the loop: the merged chunk takes the place of `p`'s.
  pub merge_once-Merging : Merging frame n (suc o) low (merge_once p b pool).1
  unfolding merged
  merge_once-Merging = record { listed = merged-Listed; chunk = merged-chunk; off = merged-off }

  pub merge_once-SameAllocated : SameAllocated pool (merge_once p b pool).1
  unfolding merged
  merge_once-SameAllocated x =
      ground (arith, merged_page x, halves x, chunk.marks x, buddy_chunk.marks x)

  pub merge_once-size :
      size_sum 14 (merge_once p b pool).1.nr_free + 4096 * 2 ^ suc o
      ≡ size_sum 14 pool.nr_free + 4096 * 2 ^ o
  unfolding merged
  merge_once-size = omega (
    arith,
    size_sum-step 14 o pool.nr_free merged.nr_free 1 0 (omega arith)
        (λ j ne. ground (arith, merged_nr j))
        (ground (
          arith,
          merged_nr o,
          listed.counted o,
          length-free_list-le listed o,
          listed.shape.fits,
          length-erase b (pool.free_list o),
          buddy_listed,
        )),
    pow-two o,
  )
