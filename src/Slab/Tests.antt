-- ===== src/Slab/Tests.antt =====
-- Tests of kernel/mm/slab.c.
use chcore.Common.{[], arith, if◌then◌else◌, leb, ltb, refl, ◌&&◌, ◌==◌, ◌∷◌}
use chcore.Slab.{SlabHeap, halvings, size_to_order}
use chcore.Slab.Alloc.{SlabsValid, TakenAndFreed, free_in_slab-alloc_in_slab}

-- A heap without slabs and with two chunks to come.
abbrev no_slabs : SlabHeap
no_slabs = record {
  chain = λ o. [];
  free_list = λ b. [];
  slab_of = λ p. 0;
  chunks = 4194304 ∷ 8388608 ∷ [];
}

-- A heap with one slab of 64-byte slots, two of them free.
abbrev one_slab : SlabHeap
one_slab = record {
  chain = λ o. if o == 6 then 2097152 ∷ [] else [];
  free_list = λ b. if b == 2097152 then 2097280 ∷ 2097216 ∷ [] else [];
  slab_of = λ p. if leb 512 p && ltb p 1024 then 2097152 else 0;
  chunks = 4194304 ∷ [];
}

one_slab-SlabsValid : SlabsValid one_slab
one_slab-SlabsValid order b s listed free = (ground (arith, free), ground (arith, free))

free_in_slab-alloc_in_slab_example : TakenAndFreed 50 2097152 one_slab
unfolding size_to_order halvings
free_in_slab-alloc_in_slab_example =
    free_in_slab-alloc_in_slab 50 2097152 one_slab one_slab-SlabsValid (omega arith) refl
