-- ===== src/Kmalloc/Large.antt =====
-- `kmalloc` and `kfree` of kernel/mm/kmalloc.c on the pages of the buddy allocator.
use chcore.Common.{
  [], ap, arith, dec_lt, false, ok, refl, true, ℕ, ◌*◌, ◌+◌, ◌/◌, ◌<◌, ◌^◌, ◌∙◌, ◌≡◌, ◌≢◌, ◌≤◌,
}
use chcore.Buddy.{Pool, buddy_free_pages, get_free_mem_size_from_buddy, virt_to_page}
use chcore.Buddy.Chunk.{IsChunk, SameAllocated, pow_pos, within}
use chcore.Buddy.Lists.{IsValid, head-within}
use chcore.Buddy.Init.{buddy_free_pages-Handed}
use chcore.Slab.{SlabHeap, size_to_order, slab_max_order, slab_min_order}
use chcore.Slab.Order.{size_to_order-Fits}
use chcore.Slab.Alloc.{SlabsValid}
use chcore.Kmalloc.{
  KernelHeap, alloc_large, kfree, kmalloc, page_num, page_order, size_to_page_order,
}
use chcore.Kmalloc.Got.{get_pages-Got}

-- A page that is free belongs to no slab, and only pages of the pool do.
abbrev pub PagesApart : ℕ → ℕ → Pool → (ℕ → ℕ) → Type 0
PagesApart frame n pool slab_of =
    ((q : ℕ) → q < n → (pool.page_metadata q).allocated ≡ false → slab_of (frame + q) ≡ 0)
    × ((x : ℕ) → 0 < slab_of x → (frame ≤ x) × (x < frame + n))

-- Every order has a slab, as `init_slab` makes one.
abbrev pub SlabsMade : SlabHeap → Type 0
SlabsMade h = (order : ℕ) → slab_min_order ≤ order → order ≤ slab_max_order → h.chain order ≢ []

abbrev pub HeapValid : ℕ → ℕ → KernelHeap → Type 0
HeapValid frame n h =
    IsValid frame n h.pool
    × SlabsValid h.slab
    × PagesApart frame n h.pool h.slab.slab_of
    × SlabsMade h.slab

-- The pages of the order hold the size.
page_order-holds : (size : ℕ) → 0 < size → size + 4095 < 2 ^ 64 → size ≤ 4096 * 2 ^ page_order size
unfolding size_to_page_order size_to_order
page_order-holds size more fits = elim (dec_lt 4096 size) [
  | no le ↦ ground arith
  | yes gt ↦
      let (holds, tight) = size_to_order-Fits (page_num size) (omega arith) in ground (arith, holds)
]

-- Pages that were handed out and given back: they hold the size and belong to no slab, and in the
-- end the slabs, the pages that are allocated and the free memory are as before.
abbrev pub PagesReturned : ℕ → ℕ → ℕ → KernelHeap → Type 0
PagesReturned frame n size h =
    (p : ℕ) × (h' : KernelHeap) × (h'' : KernelHeap) × (kmalloc size h
      ≡ ok ((frame + p) * 4096, h'))
    × (size ≤ 4096 * 2 ^ page_order size)
    × IsChunk frame n h'.pool.page_metadata true (page_order size) p
    × ((q : ℕ)
        → within p (2 ^ page_order size) q ≡ true
        → (h.pool.page_metadata q).allocated ≡ false)
    × (h'.slab ≡ h.slab)
    × (kfree ((frame + p) * 4096) h' ≡ ok h'')
    × (h''.slab ≡ h.slab)
    × HeapValid frame n h''
    × SameAllocated h.pool h''.pool
    × (get_free_mem_size_from_buddy h''.pool ≡ get_free_mem_size_from_buddy h.pool)

kfree_pages :
    (p addr : ℕ) (h : KernelHeap) (pool' : Pool)
    → virt_to_page h.pool addr ≡ ok p
    → h.slab.slab_of (addr / 4096) ≡ 0
    → buddy_free_pages p h.pool ≡ ok pool'
    → kfree addr h ≡ ok (record h { pool = pool' })
unfolding kfree
kfree_pages p addr h pool' at apart back = ground (arith, at, apart, back)

PagesApart-SameAllocated :
    (frame n : ℕ) (pool pool' : Pool) (slab_of : ℕ → ℕ)
    → PagesApart frame n pool slab_of
    → SameAllocated pool pool'
    → PagesApart frame n pool' slab_of
PagesApart-SameAllocated frame n pool pool' slab_of (apart, inside) same =
    (λ q lt free. apart q lt (ground (arith, free, same q)), inside)

-- In a valid heap with a free chunk of an order that is at least that of the size, a size above
-- 2048 and at most 2^64 - 4096, kmalloc returns the address of a chunk of pages that were free, is
-- marked allocated and holds the size. kfree of it succeeds, and then the heap is valid, the slabs
-- are the same, the same pages are allocated, these unchanged, and as much memory of the buddy
-- allocator is free as before.
pub kfree-kmalloc :
    (frame n size k : ℕ) (h : KernelHeap)
    → HeapValid frame n h
    → 2048 < size
    → size + 4095 < 2 ^ 64
    → page_order size ≤ k
    → k < 14
    → h.pool.free_list k ≢ []
    → PagesReturned frame n size h
unfolding kmalloc alloc_large
kfree-kmalloc frame n size k h (valid, slabs, apart, made) large fits le hi some_k =
    let (p, mid, run, at, handed) =
      get_pages-Got frame n (page_order size) k h.pool valid le hi some_k in
    let (pool', back, v, same, total) =
      buddy_free_pages-Handed frame n (page_order size) p h.pool mid handed in
    let free =
      handed.was_free p (head-within (2 ^ page_order size) p (pow_pos (page_order size))) in
    let unused : h.slab.slab_of ((frame + p) * 4096 / 4096) ≡ 0 =
      ap h.slab.slab_of (omega arith)
      ∙ apart.0 p (omega (arith, handed.chunk.inside, pow_pos (page_order size))) free in
    (
      p,
      record h { pool = mid },
      record h { pool = pool' },
      ground (arith, large, run),
      page_order-holds size (omega arith) fits,
      handed.chunk,
      handed.was_free,
      refl,
      kfree_pages p ((frame + p) * 4096) (record h { pool = mid }) pool' at unused back,
      refl,
      (v, slabs, PagesApart-SameAllocated frame n h.pool pool' h.slab.slab_of apart same, made),
      same,
      total,
    )
