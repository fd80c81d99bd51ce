-- ===== src/Kmalloc.antt =====
-- kernel/mm/kmalloc.c: the slabs for up to 2048 bytes, the buddy allocator's pages above. A slab
-- asks for its 2MB where no slab of the order has a free slot, so that chunk is got first. NULL is
-- 0. There is one pool, which starts at a page, and the field `slab` of its pages is in the slabs'
-- state. What the memory holds is not modelled.
pub mod Got
pub mod Large
pub mod Slot
pub mod Small
pub mod Tests
use chcore.Common.{
  List, Run, [], bug, bug_on, if◌then◌else◌, leb, ltb, none, ok, some, suc, zero, ℕ, ◌%◌, ◌+◌, ◌/◌,
  ◌==◌, ◌>>=◌, ◌^◌, ◌∷◌,
}
use chcore.Buddy.{
  Pool, buddy_free_pages, buddy_get_pages, buddy_page_size, page_to_virt, virt_to_page,
}
use chcore.Slab.{
  SlabHeap, alloc_in_slab, first_free, free_in_slab, halvings, order_for, slab_max_order,
}

pub record KernelHeap : Type 0 where
  pub pool : Pool
  pub slab : SlabHeap

-- `ROUND_UP(size, BUDDY_PAGE_SIZE) / BUDDY_PAGE_SIZE`
abbrev pub page_num : ℕ → ℕ
page_num size = (size + 4095) % 2 ^ 64 / buddy_page_size

-- The loop is that of `size_to_order`. For sizes below 2^42, since `1 << order` is an `int`.
pub size_to_page_order : ℕ → ℕ
size_to_page_order size =
    if ltb (2 ^ halvings (page_num size) (page_num size) 0) (page_num size)
    then halvings (page_num size) (page_num size) 0 + 1
    else halvings (page_num size) (page_num size) 0

pub get_pages : ℕ → Pool → Run (ℕ × Pool)
get_pages order pool = do
  (found, pool') ← buddy_get_pages order pool
  elim found [ none ↦ ok (0, pool') | some p ↦ ok (page_to_virt pool' p, pool') ]

pub free_pages : ℕ → Pool → Run Pool
free_pages addr pool = do p ← virt_to_page pool addr; buddy_free_pages p pool

-- The chunk that the slabs ask for, and the pool after that; an order without slabs is a read
-- through NULL.
pub slab_chunk : ℕ → KernelHeap → Run (List ℕ × Pool)
slab_chunk size h = elim (h.slab.chain (order_for size)) [
  | [] ↦ bug
  | head ∷ next ↦ elim (first_free h.slab.free_list (head ∷ next)) [
    | some b ↦ ok ([], h.pool)
    | none ↦ do (addr, pool') ← get_pages 9 h.pool; bug_on (addr == 0) (ok (addr ∷ [], pool'))
  ]
]

pub alloc_small : ℕ → KernelHeap → Run (ℕ × KernelHeap)
alloc_small size h = do
  (chunks, pool') ← slab_chunk size h
  (s, slab') ← alloc_in_slab size (record h.slab { chunks = chunks })
  ok (s, record { pool = pool'; slab = slab' })

-- The order of pages for a size above 2048.
abbrev pub page_order : ℕ → ℕ
page_order size = if leb size buddy_page_size then 0 else size_to_page_order size

pub alloc_large : ℕ → KernelHeap → Run (ℕ × KernelHeap)
alloc_large size h = do
  (addr, pool') ← get_pages (page_order size) h.pool
  ok (addr, record h { pool = pool' })

pub kmalloc : ℕ → KernelHeap → Run (ℕ × KernelHeap)
kmalloc size h = if leb size (2 ^ slab_max_order) then alloc_small size h else alloc_large size h

pub kfree : ℕ → KernelHeap → Run KernelHeap
kfree addr h = do
  p ← virt_to_page h.pool addr
  elim (h.slab.slab_of (addr / 4096)) [
    | zero ↦ do pool' ← buddy_free_pages p h.pool; ok (record h { pool = pool' })
    | suc b ↦ do slab' ← free_in_slab addr h.slab; ok (record h { slab = slab' })
  ]
