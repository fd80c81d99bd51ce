-- ===== src/Buddy/Tests.antt =====
-- Tests of kernel/mm/buddy.c on a pool of four pages.
use chcore.Common.{
  List, Option, Run, [], arith, bug, false, if◌then◌else◌, none, ok, refl, some, sym, true, ℕ, ◌*◌,
  ◌<◌, ◌==◌, ◌∷◌, ◌≡◌, ◌≢◌,
}
use chcore.Buddy.{
  Pool, buddy_free_pages, buddy_get_pages, fresh_pool, get_buddy_chunk,
  get_free_mem_size_from_buddy, get_from, get_loop, init_buddy, page_to_virt, split_loop,
  split_once, split_page, take_page, virt_to_page,
}
use chcore.Buddy.Chunk.{IsChunk, SameAllocated}
use chcore.Buddy.Lists.{IsValid}
use chcore.Buddy.Free.{Released, buddy_free_pages-IsValid}
use chcore.Buddy.Get.{Handed, buddy_get_pages-Handed, buddy_get_pages-exhausted}
use chcore.Buddy.Init.{
  buddy_free_pages-buddy_get_pages, fresh-IsValid, init_buddy-IsValid, page-chunk,
}
use mathlib.Core.Path.{subst₂}

-- Four pages, all allocated one by one, from page frame 16 on.
abbrev all_taken : Pool
all_taken = fresh_pool (16 * 4096) 4

-- Four pages that are one free chunk.
abbrev one_chunk : Pool
one_chunk = record {
  pool_start_addr = 16 * 4096;
  pool_mem_size = 4 * 4096;
  pool_phys_page_num = 4;
  page_metadata = λ p. record { allocated = false; order = 2 };
  free_list = λ o. if o == 2 then 0 ∷ [] else [];
  nr_free = λ o. if o == 2 then 1 else 0;
}

page_0 : IsChunk 16 4 all_taken.page_metadata true 0 0
page_0 = page-chunk 16 4 all_taken 0 (λ q lo hi. refl) (omega arith)

whole : IsChunk 16 4 one_chunk.page_metadata false 2 0
whole = record {
  small = omega arith;
  unit = 4;
  aligned = refl;
  inside = omega arith;
  marks = λ q i. refl;
}

one_chunk-IsValid : IsValid 16 4 one_chunk
one_chunk-IsValid = record {
  shape = record { start = refl; size = refl; fits = omega arith };
  counted = λ o. ground arith;
  distinct = λ o. ground arith;
  chunks = λ o p h.
      let eo : o ≡ 2 = ground arith in
      let ep : p ≡ 0 = ground arith in
      subst₂ (λ j g. IsChunk 16 4 one_chunk.page_metadata false j g) (sym eo) (sym ep) whole;
  covered = λ q lt f out. (0, refl, ground arith);
}

one_chunk-some : one_chunk.free_list 2 ≢ []
one_chunk-some e = cc

buddy_free_pages-IsValid_example :
    (pool' : Pool) × (buddy_free_pages 0 all_taken ≡ ok pool')
    × Released (fresh-IsValid 16 4 (omega arith)) page_0 pool'
buddy_free_pages-IsValid_example =
    buddy_free_pages-IsValid (fresh-IsValid 16 4 (omega arith)) page_0

buddy_get_pages-Handed_example :
    (p : ℕ) × (pool' : Pool) × (buddy_get_pages 1 one_chunk ≡ ok (some p, pool'))
    × Handed 16 4 1 p one_chunk pool'
buddy_get_pages-Handed_example =
    buddy_get_pages-Handed 16 4 1 one_chunk one_chunk-IsValid 2 (omega arith) (omega arith)
      one_chunk-some

buddy_get_pages-exhausted_example : buddy_get_pages 0 all_taken ≡ bug
buddy_get_pages-exhausted_example =
    buddy_get_pages-exhausted 16 4 0 all_taken (fresh-IsValid 16 4 (omega arith)) (omega arith)
      (λ k lo hi. refl)

init_buddy-IsValid_example :
    (pool : Pool) × (init_buddy (16 * 4096) 4 ≡ ok pool)
    × IsValid 16 4 pool
    × ((q : ℕ) → q < 4 → (pool.page_metadata q).allocated ≡ false)
    × (get_free_mem_size_from_buddy pool ≡ 4 * 4096)
init_buddy-IsValid_example = init_buddy-IsValid 16 4 (omega arith) (omega arith)

buddy_free_pages-buddy_get_pages_example :
    (p : ℕ) × (mid : Pool) × (pool' : Pool) × (buddy_get_pages 0 one_chunk ≡ ok (some p, mid))
    × (buddy_free_pages p mid ≡ ok pool')
    × IsValid 16 4 pool'
    × SameAllocated one_chunk pool'
    × (get_free_mem_size_from_buddy pool' ≡ get_free_mem_size_from_buddy one_chunk)
buddy_free_pages-buddy_get_pages_example =
    buddy_free_pages-buddy_get_pages 16 4 0 2 one_chunk one_chunk-IsValid (omega arith)
      (omega arith) one_chunk-some

-- The two halves of a chunk find each other.
get_buddy_chunk_test : get_buddy_chunk all_taken 1 ≡ ok (some 0)
unfolding get_buddy_chunk virt_to_page page_to_virt
get_buddy_chunk_test = refl

-- A single page of a chunk of four leaves a chunk of one page and one of two.
page_of : Run (Option ℕ × Pool) → Option ℕ × List ℕ × List ℕ × List ℕ
page_of (ok (p, pool)) = (p, pool.free_list 0, pool.free_list 1, pool.free_list 2)
page_of bug = (none, [], [], [])

buddy_get_pages_test : page_of (buddy_get_pages 0 one_chunk) ≡ (some 0, 1 ∷ [], 2 ∷ [], [])
unfolding page_of buddy_get_pages get_loop get_from split_page split_loop split_once take_page
buddy_get_pages_test = refl
