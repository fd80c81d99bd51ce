-- ===== src/Buddy/Get.antt =====
-- `buddy_get_pages` of kernel/mm/buddy.c: which chunk is handed out, and when there is none.
use chcore.Common.{
  List, List-cases, [], ap, arith, bug, dec_lt, false, has, inl, inr, length, ok, some, suc, sym,
  true, zero, ℕ, ◌%◌, ◌*◌, ◌+◌, ◌-◌, ◌<◌, ◌^◌, ◌∙◌, ◌∷◌, ◌≡◌, ◌≢◌, ◌≤◌,
}
use chcore.Buddy.{
  Pool, buddy_get_pages, get_free_mem_size_from_buddy, get_from, get_loop, split_page, take_page,
}
use chcore.Buddy.Chunk.{IsChunk, within}
use chcore.Buddy.Lists.{IsValid}
use chcore.Buddy.Find.{chunk_order}
use chcore.Buddy.Size.{get_free_mem_size_from_buddy_lem}
use chcore.Buddy.Take.{SplitOff, split_loop_lem, take_page-IsValid, take_page-size, taken_pages}
use mathlib.Core.Path.{subst}

-- What a successful call of `buddy_get_pages` leaves.
abbrev pub Handed : (frame n order p : ℕ) → Pool → Pool → Type 0
Handed frame n order p pool pool' = record {
  valid : IsValid frame n pool';
  chunk : IsChunk frame n pool'.page_metadata true order p;
  was_free : (q : ℕ) → within p (2 ^ order) q ≡ true → (pool.page_metadata q).allocated ≡ false;
  kept :
      (q : ℕ)
      → within p (2 ^ order) q ≡ false
      → ((pool'.page_metadata q).allocated ≡ (pool.page_metadata q).allocated)
        × ((pool.page_metadata q).allocated ≡ true → pool'.page_metadata q ≡ pool.page_metadata q);
  size :
      get_free_mem_size_from_buddy pool
      ≡ (get_free_mem_size_from_buddy pool' + 4096 * 2 ^ order) % 2 ^ 64;
}

take_page-Handed :
    (frame n order p : ℕ) (pool mid : Pool)
    → SplitOff frame n order p pool mid
    → Handed frame n order p pool (take_page p mid)
take_page-Handed frame n order p pool mid r =
    let c = r.valid.chunks order p r.on in
    record {
      valid = take_page-IsValid frame n order p mid r.valid r.on;
      chunk = record {
        small = c.small;
        unit = c.unit;
        aligned = c.aligned;
        inside = c.inside;
        marks = λ q i. ground (arith, taken_pages frame n order p mid r.valid r.on q);
      };
      was_free = λ q i. sym (r.same q).0 ∙ ap (λ g. g.allocated) (c.marks q i);
      kept = λ q out. ground (arith, r.same q, taken_pages frame n order p mid r.valid r.on q);
      size = omega (
        arith,
        get_free_mem_size_from_buddy_lem pool,
        get_free_mem_size_from_buddy_lem (take_page p mid),
        r.size,
        take_page-size frame n order p mid r.valid r.on,
      );
    }

next-le : (xs : ℕ → List ℕ) (m k : ℕ) → m ≤ k → xs m ≡ [] → xs k ≢ [] → m + 1 ≤ k
next-le xs m k le empty some_k = elim (dec_lt m k) [
  | yes lt ↦ omega arith
  | no last ↦ absurd (some_k (subst (λ j. xs j ≡ []) (omega arith) empty))
]

module _ (frame n order : ℕ) (pool : Pool) (v : IsValid frame n pool) where
  get_from-Handed :
      (m p : ℕ) (r : List ℕ)
      → pool.free_list m ≡ p ∷ r
      → order ≤ m
      → (pool' : Pool) × (get_from order m pool ≡ ok (some p, pool'))
        × Handed frame n order p pool pool'
  unfolding get_from split_page
  get_from-Handed m p r e le =
      let on : has p (pool.free_list m) ≡ true = ground (arith) in
      let eo = chunk_order v.shape (v.chunks m p on) in
      let (mid, run, so) = split_loop_lem m order p v on le in
      (take_page p mid, rw (e, get_from, eo, run), take_page-Handed frame n order p pool mid so)

  -- A list that is not empty is found, and the smallest such order is taken.
  get_loop-Handed :
      (f m k : ℕ)
      → f + m ≡ 15
      → order ≤ m
      → m ≤ k
      → k < 14
      → pool.free_list k ≢ []
      → (p : ℕ) × (pool' : Pool) × (get_loop f order m pool ≡ ok (some p, pool'))
        × Handed frame n order p pool pool'
  unfolding get_loop
  get_loop-Handed zero m k fuel low le hi some_k = absurd (omega arith)
  get_loop-Handed (suc f) m k fuel low le hi some_k = elim (List-cases (pool.free_list m)) [
    | inl empty ↦
        let (p, pool', run, r) =
          get_loop-Handed f (m + 1) k (omega arith) (omega arith)
            (next-le pool.free_list m k le empty some_k) hi some_k in
        (p, pool', ground (arith, run, v.counted m), r)
    | inr (p, rest, e) ↦
        let (pool', run, r) = get_from-Handed m p rest e low in
        (p, pool', ground (arith, run, v.counted m, ap length e), r)
  ]

  -- In a valid pool with a free chunk of the order asked for or of a larger one, a request
  -- succeeds: the pages handed out were free, they are an aligned chunk marked allocated with that
  -- order, the pool stays valid, every other page stays allocated or free as it was, allocated ones
  -- unchanged, and the free memory shrinks by the size of the chunk (modulo 2^64).
  pub buddy_get_pages-Handed :
      (k : ℕ)
      → order ≤ k
      → k < 14
      → pool.free_list k ≢ []
      → (p : ℕ) × (pool' : Pool) × (buddy_get_pages order pool ≡ ok (some p, pool'))
        × Handed frame n order p pool pool'
  unfolding buddy_get_pages
  buddy_get_pages-Handed k le hi some_k =
      get_loop-Handed (15 - order) order k (omega arith) (omega arith) le hi some_k

  get_loop-bug :
      (f m : ℕ)
      → f + m ≡ 15
      → m ≤ 14
      → ((k : ℕ) → m ≤ k → k < 14 → pool.free_list k ≡ [])
      → get_loop f order m pool ≡ bug
  unfolding get_loop
  get_loop-bug zero m fuel low none' = absurd (omega arith)
  get_loop-bug (suc f) m fuel low none' = elim (dec_lt m 14) [
    | yes lt ↦
        let empty = none' m (omega arith) lt in
        let rec =
          get_loop-bug f (m + 1) (omega arith) (omega arith)
            (λ k le hi. none' k (omega arith) hi) in
        ground (arith, rec, v.counted m, ap length empty)
    | no last ↦ ground arith
  ]

  -- In a valid pool without a free chunk of the order asked for (14 at most) or of a larger one,
  -- buddy_get_pages reads `free_lists[BUDDY_MAX_ORDER]`, past the end of the array.
  pub buddy_get_pages-exhausted :
      order ≤ 14
      → ((k : ℕ) → order ≤ k → k < 14 → pool.free_list k ≡ [])
      → buddy_get_pages order pool ≡ bug
  unfolding buddy_get_pages
  buddy_get_pages-exhausted low none' = get_loop-bug (15 - order) order (omega arith) low none'
