-- ===== src/Buddy/Split.antt =====
-- `split_page` of kernel/mm/buddy.c: a listed chunk is halved until it has the order asked for.
use chcore.Common.{
  ==_iff, Bool-cases, Distinct, Distinct-erase, ap, arith, erase, erase-eq_of_not, false, has,
  has-erase_ne, has-erase_self, has_of-erase, if◌then◌else◌, inl, inr, length, length-erase, refl,
  suc, sym, true, update, ℕ, ◌%◌, ◌*◌, ◌+◌, ◌-◌, ◌<◌, ◌==◌, ◌^◌, ◌||◌, ◌∷◌, ◌≡◌, ◌≢◌, ◌≤◌,
}
use chcore.Buddy.{Page, Pool, mark, order_of, split_once}
use chcore.Buddy.Chunk.{
  IsChunk, SameAllocated, chunk_apart, chunk_unique, mark_lem, pow_pos, within,
}
use chcore.Buddy.Lists.{IsValid, head-within, length-free_list-le, off_other_list}
use chcore.Buddy.Size.{size_sum, size_sum-step}
use mathlib.Core.Path.{subst, subst₂}
use native.Mathlib.Nat.{pow-suc}

module _ (frame n o p : ℕ) (pool : Pool) (v : IsValid frame n pool)
    (on : has p (pool.free_list (suc o)) ≡ true) where
  whole : IsChunk frame n pool.page_metadata false (suc o) p
  whole = v.chunks (suc o) p on

  two : 2 ^ suc o ≡ 2 ^ o + 2 ^ o
  two = omega (arith, pow-suc 2 o)

  abbrev second : ℕ
  second = p + 2 ^ o

  split : Pool
  split = split_once o p pool

  split_pages :
      (q : ℕ)
      → split.page_metadata q ≡ (
          if within p (2 ^ suc o) q
          then record { allocated = false; order = o }
          else pool.page_metadata q)
  unfolding split split_once
  split_pages q = ground (
    arith,
    mark_lem (2 ^ o) (record { allocated = false; order = o }) second
        (mark (2 ^ o) (record { allocated = false; order = o }) p pool.page_metadata) q,
    mark_lem (2 ^ o) (record { allocated = false; order = o }) p pool.page_metadata q,
    two,
  )

  split_list :
      (k : ℕ)
      → split.free_list k
        ≡ (if k == o then second ∷ p ∷ erase p (pool.free_list o) else erase p (pool.free_list k))
  unfolding split split_once
  split_list k = ground arith

  split_nr :
      (k : ℕ)
      → split.nr_free k ≡ (
          if k == o
          then (pool.nr_free o + 2) % 2 ^ 64
          else if k == suc o
          then (pool.nr_free (suc o) + 2 ^ 64 - 1) % 2 ^ 64
          else pool.nr_free k)
  unfolding split split_once
  split_nr k = ground arith

  head_in : within p (2 ^ suc o) p ≡ true
  head_in = head-within (2 ^ suc o) p (pow_pos (suc o))

  second_in : within p (2 ^ suc o) second ≡ true
  second_in = ground (arith, two, pow_pos o)

  -- The second half heads no listed whole.
  second_off : (k : ℕ) → has second (pool.free_list k) ≡ false
  second_off k = elim (Bool-cases (has second (pool.free_list k))) [
    | inl l ↦ absurd (
        omega (
          arith,
          pow_pos o,
          (chunk_unique whole (v.chunks k second l) second second_in
              (head-within (2 ^ k) second (pow_pos k))).1,
        ))
    | inr off ↦ off
  ]

  p_off : (k : ℕ) → k ≢ suc o → has p (pool.free_list k) ≡ false
  p_off k ne = off_other_list v {o' = k} whole ne

  -- Another listed chunk lies outside the split one.
  elsewhere :
      (k h : ℕ)
      → has h (erase p (pool.free_list k)) ≡ true
      → (q : ℕ) → within h (2 ^ k) q ≡ true
      → within p (2 ^ suc o) q ≡ false
  elsewhere k h l q i =
      chunk_apart (v.chunks k h (has_of-erase p h (pool.free_list k) l)) whole q i
        (ground (arith, l, has-erase_self p (pool.free_list k) (v.distinct k)))

  half-chunk :
      (h u : ℕ)
      → frame + h ≡ 2 ^ o * u
      → p ≤ h
      → h + 2 ^ o ≤ p + 2 ^ suc o
      → IsChunk frame n split.page_metadata false o h
  half-chunk h u al lo hi = record {
    small = omega (arith, whole.small);
    unit = u;
    aligned = al;
    inside = omega (arith, whole.inside);
    marks = λ q i. ground (arith, split_pages q);
  }

  first-chunk : IsChunk frame n split.page_metadata false o p
  first-chunk =
      half-chunk p (2 * whole.unit) (omega (arith, whole.aligned, ap (λ t. t * whole.unit) two))
        (omega arith) (omega (arith, two))

  second-chunk : IsChunk frame n split.page_metadata false o second
  second-chunk =
      half-chunk second (2 * whole.unit + 1)
        (omega (arith, whole.aligned, ap (λ t. t * whole.unit) two)) (omega arith)
        (omega (arith, two))

  old-chunk :
      (k h : ℕ)
      → has h (erase p (pool.free_list k)) ≡ true
      → IsChunk frame n split.page_metadata false k h
  old-chunk k h l =
      let c = v.chunks k h (has_of-erase p h (pool.free_list k) l) in
      record {
        small = c.small;
        unit = c.unit;
        aligned = c.aligned;
        inside = c.inside;
        marks = λ q i. rw (split_pages q, elsewhere k h l q i) (c.marks q i);
      }

  split-chunks :
      (k h : ℕ) → has h (split.free_list k) ≡ true → IsChunk frame n split.page_metadata false k h
  split-chunks k h l = elim (Bool-cases (has h (erase p (pool.free_list k)))) [
    | inl old ↦ old-chunk k h old
    | inr new ↦
        let ek : k ≡ o = ground (arith, split_list k) in
        let l' : (h == second || (h == p)) ≡ true =
          ground (arith, split_list k, ap (λ j. has h (erase p (pool.free_list j))) ek) in
        subst (λ j. IsChunk frame n split.page_metadata false j h) (sym ek)
          (elim (Bool-cases (h == second)) [
            | inl e ↦
                subst (λ g. IsChunk frame n split.page_metadata false o g)
                  (sym ((==_iff h second).0 e)) second-chunk
            | inr e ↦
                subst (λ g. IsChunk frame n split.page_metadata false o g) (ground arith)
                  first-chunk
          ])
  ]

  stays :
      (k h q : ℕ)
      → has h (pool.free_list k) ≡ true
      → within h (2 ^ k) q ≡ true
      → within p (2 ^ suc o) q ≡ false
      → has h (split.free_list k) ≡ true
  stays k h q l i out = elim (Bool-cases (h == p)) [
    | inl same ↦
        let c = v.chunks k h l in
        let e = (==_iff h p).0 same in
        let ek = (chunk_unique c whole h (head-within (2 ^ k) h (pow_pos k)) (rw e head_in)).0 in
        absurd (ground (arith, subst₂ (λ j g. within g (2 ^ j) q ≡ true) ek e i))
    | inr other ↦ ground (arith, split_list k, has-erase_ne p h (pool.free_list k))
  ]

  split-covered :
      (q : ℕ)
      → q < n
      → (split.page_metadata q).allocated ≡ false
      → (h : ℕ) × (has h (split.free_list (order_of split q)) ≡ true)
        × (within h (2 ^ order_of split q) q ≡ true)
  split-covered q lt f = elim (Bool-cases (within p (2 ^ suc o) q)) [
    | inl i ↦
        let e : order_of split q ≡ o = ground (arith, split_pages q) in
        subst (λ k. (h : ℕ) × (has h (split.free_list k) ≡ true) × (within h (2 ^ k) q ≡ true))
          (sym e)
          (elim (Bool-cases (within p (2 ^ o) q)) [
            | inl low ↦ (p, ground (arith, split_list o), low)
            | inr high ↦ (second, ground (arith, split_list o), ground (arith, two))
          ])
    | inr out ↦
        let e : split.page_metadata q ≡ pool.page_metadata q = ground (arith, split_pages q) in
        let (h, l, i) = v.covered q lt (subst (λ g. g.allocated ≡ false) e f) refl in
        subst
          (λ (g : Page).
            (h' : ℕ) × (has h' (split.free_list g.order) ≡ true)
            × (within h' (2 ^ g.order) q ≡ true))
          (sym e) (h, stays (order_of pool q) h q l i out, i)
  ]

  split-counted : (k : ℕ) → split.nr_free k ≡ length (split.free_list k)
  split-counted k = ground (
    arith,
    split_nr k,
    split_list k,
    v.counted k,
    v.counted o,
    v.counted (suc o),
    v.shape.fits,
    length-free_list-le v o,
    length-free_list-le v (suc o),
    length-erase p (pool.free_list (suc o)),
    erase-eq_of_not p (pool.free_list k),
    erase-eq_of_not p (pool.free_list o),
    p_off k,
    p_off o,
  )

  split-Distinct : (k : ℕ) → Distinct (split.free_list k)
  split-Distinct k = elim (Bool-cases (k == o)) [
    | inl e ↦ subst Distinct (sym (split_list k)) (
        rw e (
          ground (arith, pow_pos o, second_off o, has-erase_ne p second (pool.free_list o)),
          (
            has-erase_self p (pool.free_list o) (v.distinct o),
            Distinct-erase p (pool.free_list o) (v.distinct o),
          ),
        ))
    | inr e ↦
        subst Distinct (sym (split_list k))
          (rw e (Distinct-erase p (pool.free_list k) (v.distinct k)))
  ]

  pub split_once-IsValid : IsValid frame n (split_once o p pool)
  unfolding split split_once
  split_once-IsValid = record {
    shape = record { start = v.shape.start; size = v.shape.size; fits = v.shape.fits };
    counted = split-counted;
    distinct = split-Distinct;
    chunks = split-chunks;
    covered = λ q lt f out. split-covered q lt f;
  }

  pub split_once-listed : has p ((split_once o p pool).free_list o) ≡ true
  unfolding split
  split_once-listed = ground (arith, split_list o)

  pub split_once-SameAllocated : SameAllocated pool (split_once o p pool)
  unfolding split
  split_once-SameAllocated x = ground (arith, split_pages x, whole.marks x)

  -- The counters once the two halves are counted.
  abbrev halves_counted : ℕ → ℕ
  halves_counted = update pool.nr_free o (pool.nr_free o + 2)

  -- One block of the larger order goes for two of the smaller.
  pub split_once-size : size_sum 14 (split_once o p pool).nr_free ≡ size_sum 14 pool.nr_free
  unfolding split
  split_once-size = omega (
    arith,
    two,
    size_sum-step 14 o pool.nr_free halves_counted 0 2 (omega (arith, whole.small))
        (λ j ne. ground arith) (ground arith),
    size_sum-step 14 (suc o) halves_counted split.nr_free 1 0 whole.small
        (λ j ne. ground (arith, split_nr j, v.counted o, length-free_list-le v o, v.shape.fits))
        (ground (
          arith,
          split_nr (suc o),
          v.counted (suc o),
          length-free_list-le v (suc o),
          v.shape.fits,
          length-erase p (pool.free_list (suc o)),
        )),
  )
