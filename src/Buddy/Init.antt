-- ===== src/Buddy/Init.antt =====
-- `init_buddy` of kernel/mm/buddy.c, and a request followed by its release.
use chcore.Common.{
  Bool-cases, [], ap, arith, dec_lt, false, inl, inr, ok, refl, some, suc, sym, true, zero, ℕ, ◌%◌,
  ◌*◌, ◌+◌, ◌<◌, ◌^◌, ◌∙◌, ◌≡◌, ◌≢◌, ◌≤◌,
}
use chcore.Buddy.{
  Pool, buddy_free_pages, buddy_get_pages, free_all, free_size_below, fresh_pool,
  get_free_mem_size_from_buddy, init_buddy,
}
use chcore.Buddy.Chunk.{IsChunk, SameAllocated, within}
use chcore.Buddy.Lists.{IsValid}
use chcore.Buddy.Size.{get_free_mem_size_from_buddy_lem}
use chcore.Buddy.Free.{buddy_free_pages-IsValid}
use chcore.Buddy.Get.{Handed, buddy_get_pages-Handed}

-- The pages from `p` on are still as the first loop left them.
abbrev pub Pending : ℕ → ℕ → Pool → Type 0
Pending n p pool =
    (q : ℕ) → p ≤ q → q < n → pool.page_metadata q ≡ record { allocated = true; order = 0 }

-- Such a page is a chunk by itself.
pub page-chunk :
    (frame n : ℕ) (pool : Pool) (p : ℕ)
    → Pending n p pool
    → p < n
    → IsChunk frame n pool.page_metadata true 0 p
page-chunk frame n pool p pending lt = record {
  small = omega arith;
  unit = frame + p;
  aligned = omega arith;
  inside = omega arith;
  marks = λ q i. pending q (ground arith) (ground arith);
}

-- No page is free, and none is listed.
pub fresh-IsValid :
    (frame n : ℕ) → (frame + n) * 4096 < 2 ^ 64 → IsValid frame n (fresh_pool (frame * 4096) n)
fresh-IsValid frame n fits = record {
  shape = record { start = refl; size = refl; fits = fits };
  counted = λ o. refl;
  distinct = λ o. tt;
  chunks = λ o p h. cc;
  covered = λ q lt f out. cc;
}

-- What the second loop leaves after the pages from `p` on are freed.
abbrev AllFreed : (frame n p m : ℕ) → Pool → Pool → Type 0
AllFreed frame n p m pool pool' = record {
  valid : IsValid frame n pool';
  freed : (q : ℕ) → p ≤ q → q < n → (pool'.page_metadata q).allocated ≡ false;
  kept : (q : ℕ) → q < p → (pool'.page_metadata q).allocated ≡ (pool.page_metadata q).allocated;
  size :
      get_free_mem_size_from_buddy pool' ≡ (get_free_mem_size_from_buddy pool + m * 4096) % 2 ^ 64;
}

free_all-AllFreed :
    (m p : ℕ) {frame n : ℕ} {pool : Pool}
    → IsValid frame n pool
    → Pending n p pool
    → m + p ≡ n
    → (pool' : Pool) × (free_all m p pool ≡ ok pool') × AllFreed frame n p m pool pool'
unfolding free_all
free_all-AllFreed zero p {pool = pool} v pending e = (
  pool,
  refl,
  record {
    valid = v;
    freed = λ q lo hi. absurd (omega arith);
    kept = λ q lt. refl;
    size = omega (arith, get_free_mem_size_from_buddy_lem pool);
  },
)
free_all-AllFreed (suc m) p {frame} {n} {pool} v pending e =
    let (mid, run, r) =
      buddy_free_pages-IsValid v (page-chunk frame n pool p pending (omega arith)) in
    let (pool', runs, all) =
      free_all-AllFreed m (p + 1) r.valid
        (λ q lo hi.
          (r.kept q (ground arith)).1 (ap (λ g. g.allocated) (pending q (omega arith) hi))
          ∙ pending q (omega arith) hi)
        (omega arith) in
    (
      pool',
      rw run runs,
      record {
        valid = all.valid;
        freed = λ q lo hi. elim (dec_lt p q) [
          | yes above ↦ all.freed q (omega arith) hi
          | no here ↦ all.kept q (omega arith) ∙ r.freed q (ground arith)
        ];
        kept = λ q lt. all.kept q (omega arith) ∙ (r.kept q (ground arith)).0;
        size = omega (arith, all.size, r.size);
      },
    )

fresh-size : (frame n : ℕ) → get_free_mem_size_from_buddy (fresh_pool (frame * 4096) n) ≡ 0
unfolding get_free_mem_size_from_buddy free_size_below
fresh-size frame n = refl

-- A pool of fewer than 2^31 pages whose addresses stay below 2^64 is initialised without a stop: it
-- is valid, all its pages are free, and the free memory is that of its pages.
pub init_buddy-IsValid :
    (frame n : ℕ)
    → (frame + n) * 4096 < 2 ^ 64
    → n < 2 ^ 31
    → (pool : Pool) × (init_buddy (frame * 4096) n ≡ ok pool)
      × IsValid frame n pool
      × ((q : ℕ) → q < n → (pool.page_metadata q).allocated ≡ false)
      × (get_free_mem_size_from_buddy pool ≡ n * 4096)
unfolding init_buddy
init_buddy-IsValid frame n fits small =
    let (pool, run, all) =
      free_all-AllFreed n 0 (fresh-IsValid frame n fits) (λ q lo hi. refl) (omega arith) in
    (
      pool,
      ground (arith, run),
      all.valid,
      λ q hi. all.freed q (omega arith) hi,
      omega (arith, all.size, fresh-size frame n),
    )

-- What giving the chunk back leaves, of the pool before it was handed out.
abbrev pub GivenBack : (frame n p : ℕ) → Pool → Pool → Type 0
GivenBack frame n p pool mid =
    (pool' : Pool) × (buddy_free_pages p mid ≡ ok pool')
    × IsValid frame n pool'
    × SameAllocated pool pool'
    × (get_free_mem_size_from_buddy pool' ≡ get_free_mem_size_from_buddy pool)

pub buddy_free_pages-Handed :
    (frame n order p : ℕ) (pool mid : Pool)
    → Handed frame n order p pool mid
    → GivenBack frame n p pool mid
buddy_free_pages-Handed frame n order p pool mid h =
    let (pool', back, r) = buddy_free_pages-IsValid h.valid h.chunk in
    (
      pool',
      back,
      r.valid,
      λ x. elim (Bool-cases (within p (2 ^ order) x)) [
        | inl i ↦ (r.freed x i ∙ sym (h.was_free x i), λ a. absurd (ground (arith, h.was_free x i)))
        | inr out ↦ (
          (r.kept x out).0 ∙ (h.kept x out).0,
          λ a. (r.kept x out).1 ((h.kept x out).0 ∙ a) ∙ (h.kept x out).1 a,
        )
      ],
      omega (
        arith,
        h.size,
        r.size,
        get_free_mem_size_from_buddy_lem pool,
        get_free_mem_size_from_buddy_lem pool',
      ),
    )

-- In a valid pool with a free chunk of the order asked for or of a larger one, a chunk is handed
-- out, and giving it back leaves a valid pool with the same pages allocated, these unchanged, and
-- as much free memory as before.
pub buddy_free_pages-buddy_get_pages :
    (frame n order k : ℕ) (pool : Pool)
    → IsValid frame n pool
    → order ≤ k
    → k < 14
    → pool.free_list k ≢ []
    → (p : ℕ) × (mid : Pool) × (pool' : Pool) × (buddy_get_pages order pool ≡ ok (some p, mid))
      × (buddy_free_pages p mid ≡ ok pool')
      × IsValid frame n pool'
      × SameAllocated pool pool'
      × (get_free_mem_size_from_buddy pool' ≡ get_free_mem_size_from_buddy pool)
buddy_free_pages-buddy_get_pages frame n order k pool v le hi some_k =
    let (p, mid, run, h) = buddy_get_pages-Handed frame n order pool v k le hi some_k in
    let (pool', back, valid, same, size) = buddy_free_pages-Handed frame n order p pool mid h in
    (p, mid, pool', run, back, valid, same, size)
