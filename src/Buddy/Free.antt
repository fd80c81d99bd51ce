-- ===== src/Buddy/Free.antt =====
-- `buddy_free_pages` of kernel/mm/buddy.c: the chunk is merged as far as it goes and listed.
use chcore.Common.{
  Bool, Bool-cases, ap, arith, false, has, if◌then◌else◌, inl, inr, ok, refl, sym, true, ℕ, ◌%◌,
  ◌*◌, ◌+◌, ◌^◌, ◌∙◌, ◌≡◌,
}
use chcore.Buddy.{
  Page, Pool, buddy_free_pages, get_free_mem_size_from_buddy, merge_loop, put_page, set_free_page,
}
use chcore.Buddy.Chunk.{IsChunk, mark_lem, pow_pos, within}
use chcore.Buddy.Lists.{IsValid, head-within}
use chcore.Buddy.Merge.{Merging}
use chcore.Buddy.Size.{get_free_mem_size_from_buddy_lem, size_sum}
use chcore.Buddy.Join.{merge_loop_lem, put_page-IsValid, put_page-size}
use mathlib.Core.Path.{subst}

module _ {frame n o p : ℕ} {pool : Pool} (v : IsValid frame n pool)
    (c : IsChunk frame n pool.page_metadata true o p) where
  -- The pool once the chunk's pages are marked free.
  freed : Pool
  freed = set_free_page p o pool

  freed_page :
      (q : ℕ)
      → freed.page_metadata q ≡ (
          if within p (2 ^ o) q
          then record { allocated = false; order = o }
          else pool.page_metadata q)
  unfolding freed set_free_page
  freed_page q = mark_lem (2 ^ o) (record { allocated = false; order = o }) p pool.page_metadata q

  freed_nr : size_sum 14 freed.nr_free ≡ size_sum 14 pool.nr_free
  unfolding freed set_free_page
  freed_nr = refl

  -- A listed chunk shares no page with an allocated one.
  clear :
      (o' h : ℕ)
      → has h (pool.free_list o') ≡ true
      → (q : ℕ) → within h (2 ^ o') q ≡ true
      → within p (2 ^ o) q ≡ false
  clear o' h on q i = ground (arith, (v.chunks o' h on).marks q i, c.marks q)

  freed-Merging : Merging frame n o p freed
  unfolding freed set_free_page
  freed-Merging = record {
    listed = record {
      shape = record { start = v.shape.start; size = v.shape.size; fits = v.shape.fits };
      counted = v.counted;
      distinct = v.distinct;
      chunks = λ o' h on.
          let d = v.chunks o' h on in
          record {
            small = d.small;
            unit = d.unit;
            aligned = d.aligned;
            inside = d.inside;
            marks = λ q i. rw (freed_page q, clear o' h on q i) (d.marks q i);
          };
      covered = λ q lt f out.
          let e : freed.page_metadata q ≡ pool.page_metadata q = ground (arith, freed_page q) in
          subst
            (λ (g : Page).
              (h : ℕ) × (has h (pool.free_list g.order) ≡ true) × (within h (2 ^ g.order) q ≡ true))
            (sym e) (v.covered q lt (subst (λ g. g.allocated ≡ false) e f) refl);
    };
    chunk = record {
      small = c.small;
      unit = c.unit;
      aligned = c.aligned;
      inside = c.inside;
      marks = λ q i. ground (arith, freed_page q);
    };
    off = λ o'. elim (Bool-cases (has p (pool.free_list o'))) [
      | inl on ↦ absurd (
          ground (
            arith,
            clear o' p on p,
            head-within (2 ^ o') p (pow_pos o'),
            head-within (2 ^ o) p (pow_pos o),
          ))
      | inr not_on ↦ not_on
    ];
  }

  free-run :
      {q : ℕ} {end : Pool}
      → merge_loop 14 (p, freed) ≡ ok (q, end)
      → buddy_free_pages p pool ≡ ok (put_page q end)
  unfolding buddy_free_pages freed
  free-run run = rw (ap (λ g. g.order) (c.marks p (head-within (2 ^ o) p (pow_pos o))), run)

  -- What a call of `buddy_free_pages` leaves.
  abbrev pub Released : Pool → Type 0
  Released pool' = record {
    valid : IsValid frame n pool';
    freed : (q : ℕ) → within p (2 ^ o) q ≡ true → (pool'.page_metadata q).allocated ≡ false;
    kept :
        (q : ℕ)
        → within p (2 ^ o) q ≡ false
        → ((pool'.page_metadata q).allocated ≡ (pool.page_metadata q).allocated)
          × ((pool.page_metadata q).allocated ≡ true
              → pool'.page_metadata q ≡ pool.page_metadata q);
    size :
        get_free_mem_size_from_buddy pool'
        ≡ (get_free_mem_size_from_buddy pool + 4096 * 2 ^ o) % 2 ^ 64;
  }

  -- In a valid pool, freeing a chunk that is allocated as a whole succeeds: the pool stays valid,
  -- the pages of the chunk become free, every other page stays allocated or free as it was,
  -- allocated ones unchanged, and the free memory grows by the size of the chunk (modulo 2^64).
  pub buddy_free_pages-IsValid :
      (pool' : Pool) × (buddy_free_pages p pool ≡ ok pool') × Released pool'
  unfolding put_page
  buddy_free_pages-IsValid =
      let (o', q, end, run, r) = merge_loop_lem 14 freed-Merging (omega arith) in
      (
        put_page q end,
        free-run run,
        record {
          valid = put_page-IsValid r.state;
          freed = λ x i.
              (r.same x).0
              ∙ ap (λ g. g.allocated)
                  (freed_page x
                    ∙ ap
                        (λ (t : Bool).
                          if t
                          then record { allocated = false; order = o }
                          else pool.page_metadata x)
                        i);
          kept = λ x out. ground (arith, r.same x, freed_page x);
          size =
              get_free_mem_size_from_buddy_lem (put_page q end)
              ∙ omega (
                arith,
                put_page-size r.state,
                r.size,
                get_free_mem_size_from_buddy_lem pool,
                freed_nr,
              );
        },
      )
