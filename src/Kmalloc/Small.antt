-- ===== src/Kmalloc/Small.antt =====
-- `kmalloc` and `kfree` of kernel/mm/kmalloc.c on the slabs.
use chcore.Common.{
  List, List-cases, Option-cases, [], arith, inl, inr, none, ok, refl, some, sym, ℕ, ◌*◌, ◌+◌, ◌<◌,
  ◌∷◌, ◌≡◌, ◌≢◌, ◌≤◌,
}
use chcore.Buddy.{Pool}
use chcore.Buddy.Lists.{IsValid}
use chcore.Slab.{SlabHeap, alloc_in_slab, assigned, first_free, order_for}
use chcore.Slab.Order.{order_for-FitsSlab}
use chcore.Slab.Fresh.{SlotTaken, alloc_in_slab-assigned, alloc_in_slab-listed}
use chcore.Kmalloc.{KernelHeap, alloc_small, get_pages, kmalloc, slab_chunk}
use chcore.Kmalloc.Got.{get_pages-Got}
use chcore.Kmalloc.Large.{HeapValid, PagesApart, SlabsMade}
use chcore.Kmalloc.Slot.{NextChunk-Handed, PagesApart-assigned, SlotFreed, kfree-SlotFreed}
use mathlib.Core.Path.{subst}

-- A slot handed out and given back, the heap valid after both.
abbrev pub SlotReturned : ℕ → ℕ → ℕ → KernelHeap → Type 0
SlotReturned frame n size h =
    (s : ℕ) × (h' : KernelHeap) × (kmalloc size h ≡ ok (s, h'))
    × HeapValid frame n h'
    × SlotFreed frame n s h'

kmalloc_small :
    (size s : ℕ) (chunks : List ℕ) (h : KernelHeap) (pool' : Pool) (slab' : SlabHeap)
    → size ≤ 2048
    → slab_chunk size h ≡ ok (chunks, pool')
    → alloc_in_slab size (record h.slab { chunks = chunks }) ≡ ok (s, slab')
    → kmalloc size h ≡ ok (s, record { pool = pool'; slab = slab' })
unfolding kmalloc alloc_small
kmalloc_small size s chunks h pool' slab' le got run = ground (arith, le, got, run)

-- The slot and the pool after it, of a heap that stays valid.
SlotReturned-taken :
    (frame n size : ℕ) (chunks : List ℕ) (h : KernelHeap) (pool' : Pool) (slab_of : ℕ → ℕ)
    → size ≤ 2048
    → slab_chunk size h ≡ ok (chunks, pool')
    → IsValid frame n pool'
    → PagesApart frame n pool' slab_of
    → SlabsMade h.slab
    → SlotTaken size slab_of (record h.slab { chunks = chunks })
    → SlotReturned frame n size h
SlotReturned-taken frame n size chunks h pool' slab_of le got valid apart made
      (s, slab', run, more, slabs, same, chains) =
    let all : HeapValid frame n (record { pool = pool'; slab = slab' }) = (
      valid,
      slabs,
      subst (PagesApart frame n pool') (sym same) apart,
      λ o lo hi. chains o (made o lo hi),
    ) in
    (
      s,
      record { pool = pool'; slab = slab' },
      kmalloc_small size s chunks h pool' slab' le got run,
      all,
      kfree-SlotFreed frame n s (record { pool = pool'; slab = slab' }) all more,
    )

slab_chunk-first :
    (size b : ℕ) (h : KernelHeap)
    → first_free h.slab.free_list (h.slab.chain (order_for size)) ≡ some b
    → slab_chunk size h ≡ ok ([], h.pool)
unfolding slab_chunk
slab_chunk-first size b h found = elim (List-cases (h.slab.chain (order_for size))) [
  | inl nil ↦ absurd (ground (arith, found, nil))
  | inr (x, xs, cons) ↦ ground (arith, found, cons)
]

slab_chunk-fresh :
    (size addr : ℕ) (h : KernelHeap) (mid : Pool)
    → first_free h.slab.free_list (h.slab.chain (order_for size)) ≡ none
    → h.slab.chain (order_for size) ≢ []
    → 0 < addr
    → get_pages 9 h.pool ≡ ok (addr, mid)
    → slab_chunk size h ≡ ok (addr ∷ [], mid)
unfolding slab_chunk
slab_chunk-fresh size addr h mid none_free some_slab more run =
    elim (List-cases (h.slab.chain (order_for size))) [
      | inl nil ↦ absurd (some_slab nil)
      | inr (x, xs, cons) ↦ ground (arith, none_free, run, cons)
    ]

-- In a valid heap that does not start at address 0 and has a free chunk of 2MB or more, kmalloc of
-- up to 2048 bytes succeeds and leaves a valid heap, with a new slab if none has a free slot; kfree
-- of the slot then succeeds and leaves a valid heap. Valid is: the buddy allocator is, each order
-- has a slab, each free slot lies on pages of its slab, pages of slabs lie in the pool, and no free
-- page belongs to a slab.
pub kmalloc-SlotReturned :
    (frame n size k : ℕ) (h : KernelHeap)
    → HeapValid frame n h
    → 0 < frame
    → size ≤ 2048
    → 9 ≤ k
    → k < 14
    → h.pool.free_list k ≢ []
    → SlotReturned frame n size h
kmalloc-SlotReturned frame n size k h (valid, slabs, apart, made) some_frame le lo hi some_k =
    elim (Option-cases (first_free h.slab.free_list (h.slab.chain (order_for size)))) [
      | inr (b, found) ↦
          SlotReturned-taken frame n size [] h h.pool h.slab.slab_of le
            (slab_chunk-first size b h found) valid apart made
            (alloc_in_slab-listed size b (record h.slab { chunks = [] }) slabs le found)
      | inl none_free ↦
          let (p, mid, run, at, handed) = get_pages-Got frame n 9 k h.pool valid lo hi some_k in
          let fits = order_for-FitsSlab size le in
          let some_slab = made (order_for size) fits.1 fits.2 in
          let next = NextChunk-Handed frame n p h mid some_frame apart handed in
          SlotReturned-taken frame n size ((frame + p) * 4096 ∷ []) h mid
            (assigned ((frame + p) * 4096) h.slab.slab_of) le
            (slab_chunk-fresh size ((frame + p) * 4096) h mid none_free some_slab (omega arith) run)
            handed.valid (PagesApart-assigned frame n p h.pool mid h.slab.slab_of apart handed) made
            (alloc_in_slab-assigned size ((frame + p) * 4096) []
              (record h.slab { chunks = (frame + p) * 4096 ∷ [] }) slabs le refl next some_slab
              none_free)
    ]
