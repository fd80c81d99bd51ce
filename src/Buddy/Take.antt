-- ===== src/Buddy/Take.antt =====
-- The halving and the removal of a listed chunk in `buddy_get_pages` of kernel/mm/buddy.c.
use chcore.Common.{
  ==_iff, Bool-cases, Distinct-erase, arith, erase, erase-eq_of_not, false, has, has-erase_ne,
  has-erase_self, has_of-erase, if◌then◌else◌, inl, inr, length-erase, ok, refl, suc, sym, true,
  zero, ℕ, ◌%◌, ◌*◌, ◌+◌, ◌-◌, ◌<◌, ◌==◌, ◌^◌, ◌∙◌, ◌≡◌, ◌≢◌, ◌≤◌,
}
use chcore.Buddy.{Page, Pool, mark, order_of, split_loop, split_once, take_page}
use chcore.Buddy.Chunk.{
  IsChunk, SameAllocated, chunk_apart, chunk_unique, mark_lem, pow_pos, within,
}
use chcore.Buddy.Lists.{IsValid, head-within, length-free_list-le, off_other_list}
use chcore.Buddy.Find.{chunk_order}
use chcore.Buddy.Size.{size_sum, size_sum-step}
use chcore.Buddy.Split.{
  split_once-IsValid, split_once-SameAllocated, split_once-listed, split_once-size,
}
use mathlib.Core.Path.{subst, subst₂}

SameAllocated-trans' : (a b c : Pool) → SameAllocated a b → SameAllocated b c → SameAllocated a c
SameAllocated-trans' a b c h k x = ((k x).0 ∙ (h x).0, λ e. (k x).1 ((h x).0 ∙ e) ∙ (h x).1 e)

-- The pool after a split: a chunk of the order asked for is listed at `p`.
abbrev pub SplitOff : (frame n order p : ℕ) → Pool → Pool → Type 0
SplitOff frame n order p pool pool' = record {
  valid : IsValid frame n pool';
  on : has p (pool'.free_list order) ≡ true;
  same : SameAllocated pool pool';
  size : size_sum 14 pool'.nr_free ≡ size_sum 14 pool.nr_free;
}

-- The loop of `split_page` ends after as many rounds as the orders differ.
pub split_loop_lem :
    (o order p : ℕ) {frame n : ℕ} {pool : Pool}
    → IsValid frame n pool
    → has p (pool.free_list o) ≡ true
    → order ≤ o
    → (pool' : Pool) × (split_loop o order p pool ≡ ok pool') × SplitOff frame n order p pool pool'
unfolding split_loop
split_loop_lem zero order p {pool = pool} v on le = (
  pool,
  ground arith,
  record {
    valid = v;
    on = subst (λ k. has p (pool.free_list k) ≡ true) (omega arith) on;
    same = λ x. (refl, λ e. refl);
    size = refl;
  },
)
split_loop_lem (suc o) order p {frame} {n} {pool} v on le = elim (Bool-cases (suc o == order)) [
  | inl e ↦ (
    pool,
    ground (arith, e),
    record {
      valid = v;
      on = subst (λ k. has p (pool.free_list k) ≡ true) ((==_iff (suc o) order).0 e) on;
      same = λ x. (refl, λ e. refl);
      size = refl;
    },
  )
  | inr e ↦
      let (pool', run, r) =
        split_loop_lem o order p (split_once-IsValid frame n o p pool v on)
          (split_once-listed frame n o p pool v on) (ground arith) in
      (
        pool',
        ground (arith, e, run),
        record {
          valid = r.valid;
          on = r.on;
          same =
              SameAllocated-trans' pool (split_once o p pool) pool'
                (split_once-SameAllocated frame n o p pool v on) r.same;
          size = r.size ∙ split_once-size frame n o p pool v on;
        },
      )
]

module _ (frame n o p : ℕ) (pool : Pool) (v : IsValid frame n pool)
    (on : has p (pool.free_list o) ≡ true) where
  listed_chunk : IsChunk frame n pool.page_metadata false o p
  listed_chunk = v.chunks o p on

  pub taken_pages :
      (q : ℕ)
      → (take_page p pool).page_metadata q ≡ (
          if within p (2 ^ o) q
          then record { allocated = true; order = o }
          else pool.page_metadata q)
  unfolding take_page
  taken_pages q =
      subst
        (λ k. mark (2 ^ k) (record { allocated = true; order = k }) p pool.page_metadata q ≡ (
          if within p (2 ^ o) q
          then record { allocated = true; order = o }
          else pool.page_metadata q))
        (sym (chunk_order v.shape listed_chunk))
        (mark_lem (2 ^ o) (record { allocated = true; order = o }) p pool.page_metadata q)

  taken_list : (k : ℕ) → (take_page p pool).free_list k ≡ erase p (pool.free_list k)
  unfolding take_page
  taken_list k = refl

  taken_nr :
      (k : ℕ)
      → (take_page p pool).nr_free k
        ≡ (if k == o then (pool.nr_free o + 2 ^ 64 - 1) % 2 ^ 64 else pool.nr_free k)
  unfolding take_page
  taken_nr k = rw (chunk_order v.shape listed_chunk)

  apart :
      (k h : ℕ)
      → has h (erase p (pool.free_list k)) ≡ true
      → (q : ℕ) → within h (2 ^ k) q ≡ true
      → within p (2 ^ o) q ≡ false
  apart k h l q i =
      chunk_apart (v.chunks k h (has_of-erase p h (pool.free_list k) l)) listed_chunk q i
        (ground (arith, l, has-erase_self p (pool.free_list k) (v.distinct k)))

  -- The head of a chunk with another page is another head.
  other_head :
      (h k q : ℕ)
      → has h (pool.free_list k) ≡ true
      → within h (2 ^ k) q ≡ true
      → within p (2 ^ o) q ≡ false
      → h ≢ p
  other_head h k q l i out same =
      let c = v.chunks k h l in
      let ek =
        (chunk_unique c listed_chunk h (head-within (2 ^ k) h (pow_pos k))
          (rw same (head-within (2 ^ o) p (pow_pos o)))).0 in
      let i' = subst₂ (λ j g. within g (2 ^ j) q ≡ true) ek same i in cc

  taken-covered :
      (q : ℕ)
      → q < n
      → ((take_page p pool).page_metadata q).allocated ≡ false
      → (h : ℕ) × (has h ((take_page p pool).free_list (order_of (take_page p pool) q)) ≡ true)
        × (within h (2 ^ order_of (take_page p pool) q) q ≡ true)
  taken-covered q lt f =
      let out : within p (2 ^ o) q ≡ false = ground (arith, taken_pages q) in
      let e : (take_page p pool).page_metadata q ≡ pool.page_metadata q =
        ground (arith, taken_pages q) in
      let (h, l, i) = v.covered q lt (subst (λ g. g.allocated ≡ false) e f) refl in
      subst
        (λ (g : Page).
          (h' : ℕ) × (has h' ((take_page p pool).free_list g.order) ≡ true)
          × (within h' (2 ^ g.order) q ≡ true))
        (sym e)
        (
          h,
          rw (taken_list (order_of pool q)) (
              has-erase_ne p h (pool.free_list (order_of pool q))
                (λ same. other_head h (order_of pool q) q l i out same)
              ∙ l),
          i,
        )

  pub take_page-IsValid : IsValid frame n (take_page p pool)
  unfolding take_page
  take_page-IsValid = record {
    shape = record { start = v.shape.start; size = v.shape.size; fits = v.shape.fits };
    counted = λ k. ground (
      arith,
      taken_nr k,
      v.counted k,
      v.counted o,
      length-free_list-le v o,
      v.shape.fits,
      length-erase p (pool.free_list o),
      erase-eq_of_not p (pool.free_list k),
      off_other_list v {o' = k} listed_chunk,
    );
    distinct = λ k. Distinct-erase p (pool.free_list k) (v.distinct k);
    chunks = λ k h l.
        let c = v.chunks k h (has_of-erase p h (pool.free_list k) l) in
        record {
          small = c.small;
          unit = c.unit;
          aligned = c.aligned;
          inside = c.inside;
          marks = λ q i. rw (taken_pages q, apart k h l q i) (c.marks q i);
        };
    covered = λ q lt f out. taken-covered q lt f;
  }

  pub take_page-size :
      size_sum 14 (take_page p pool).nr_free + 4096 * 2 ^ o ≡ size_sum 14 pool.nr_free
  take_page-size = omega (
    arith,
    size_sum-step 14 o pool.nr_free (take_page p pool).nr_free 1 0 listed_chunk.small
        (λ j ne. ground (arith, taken_nr j))
        (ground (
          arith,
          taken_nr o,
          v.counted o,
          length-free_list-le v o,
          v.shape.fits,
          length-erase p (pool.free_list o),
        )),
  )
