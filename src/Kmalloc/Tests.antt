-- ===== src/Kmalloc/Tests.antt =====
-- Tests of kernel/mm/kmalloc.c.
use chcore.Common.{
  [], arith, false, if◌then◌else◌, leb, ltb, refl, sym, ◌&&◌, ◌*◌, ◌+◌, ◌-◌, ◌/◌, ◌==◌, ◌∷◌, ◌≡◌,
  ◌≢◌,
}
use chcore.Buddy.{Pool}
use chcore.Buddy.Chunk.{IsChunk}
use chcore.Buddy.Lists.{IsValid}
use chcore.Slab.{halvings}
use chcore.Kmalloc.{KernelHeap, page_order, size_to_page_order}
use chcore.Kmalloc.Large.{HeapValid, PagesReturned, kfree-kmalloc}
use chcore.Kmalloc.Small.{SlotReturned, kmalloc-SlotReturned}
use mathlib.Core.Path.{subst₂}

-- 4096 pages from page 512 on: a free chunk of 2MB and seven slabs.
abbrev eight_chunks : Pool
eight_chunks = record {
  pool_start_addr = 512 * 4096;
  pool_mem_size = 4096 * 4096;
  pool_phys_page_num = 4096;
  page_metadata = λ p. record { allocated = leb 512 p; order = 9 };
  free_list = λ o. if o == 9 then 0 ∷ [] else [];
  nr_free = λ o. if o == 9 then 1 else 0;
}

first_chunk : IsChunk 512 4096 eight_chunks.page_metadata false 9 0
first_chunk = record {
  small = omega arith;
  unit = 1;
  aligned = refl;
  inside = omega arith;
  marks = λ q i. ground arith;
}

eight_chunks-IsValid : IsValid 512 4096 eight_chunks
eight_chunks-IsValid = record {
  shape = record { start = refl; size = refl; fits = omega arith };
  counted = λ o. ground arith;
  distinct = λ o. ground arith;
  chunks = λ o p h.
      let eo : o ≡ 9 = ground arith in
      let ep : p ≡ 0 = ground arith in
      subst₂ (λ j g. IsChunk 512 4096 eight_chunks.page_metadata false j g) (sym eo) (sym ep)
        first_chunk;
  covered = λ q lt f out. (0, refl, ground arith);
}

eight_chunks-some : eight_chunks.free_list 9 ≢ []
eight_chunks-some e = cc

-- A heap with one slab for each order from 5 to 11, all slots taken.
abbrev full_slabs : KernelHeap
full_slabs = record {
  pool = eight_chunks;
  slab = record {
    chain = λ o. if leb 5 o && leb o 11 then (512 + 512 * (o - 4)) * 4096 ∷ [] else [];
    free_list = λ b. [];
    slab_of = λ p. if leb 1024 p && ltb p 4608 then p / 512 * 512 * 4096 else 0;
    chunks = [];
  };
}

full_slabs-HeapValid : HeapValid 512 4096 full_slabs
full_slabs-HeapValid = (
  eight_chunks-IsValid,
  λ order b s listed free. absurd (ground (arith, free)),
  (λ q lt free. ground arith, λ x more. (ground arith, ground arith)),
  λ o lo hi nil. ground (arith, nil),
)

page_order_5000 : page_order 5000 ≡ 1
unfolding size_to_page_order halvings
page_order_5000 = refl

kfree-kmalloc_example : PagesReturned 512 4096 5000 full_slabs
kfree-kmalloc_example =
    kfree-kmalloc 512 4096 5000 9 full_slabs full_slabs-HeapValid (omega arith) (omega arith)
      (omega (arith, page_order_5000)) (omega arith) eight_chunks-some

kmalloc-SlotReturned_example : SlotReturned 512 4096 100 full_slabs
kmalloc-SlotReturned_example =
    kmalloc-SlotReturned 512 4096 100 9 full_slabs full_slabs-HeapValid (omega arith) (omega arith)
      (omega arith) (omega arith) eight_chunks-some
