-- ===== src/Slab.antt =====
-- The slab allocator of kernel/mm/slab.c. A slab is the address of its 2MB, a slot the address of
-- an object; the list of an order's slabs is `chain`, the free list of a slab `free_list`, and
-- `slab_of` the field of the pages, 0 for NULL. `chunks` lists the addresses that `get_pages(9)`
-- will hand out; when none is left it fails, and the kernel stops.
pub mod Order
pub mod Alloc
pub mod Chunk
pub mod Fresh
pub mod Tests
use chcore.Common.{
  List, Option, Run, [], bug, bug_on, false, if◌then◌else◌, leb, length, ltb, none, ok, some, suc,
  true, update, zero, ℕ, ◌%◌, ◌&&◌, ◌*◌, ◌+◌, ◌-◌, ◌/◌, ◌>>=◌, ◌^◌, ◌∷◌,
}

pub record SlabHeap : Type 0 where
  pub chain : ℕ → List ℕ
  pub free_list : ℕ → List ℕ
  pub slab_of : ℕ → ℕ
  pub chunks : List ℕ

abbrev pub slab_init_size : ℕ
slab_init_size = 2097152

abbrev pub slab_min_order : ℕ
slab_min_order = 5

abbrev pub slab_max_order : ℕ
slab_max_order = 11

-- The loop of `size_to_order` from `order` on; each round halves `tmp`, so `tmp` rounds are enough.
unfoldable pub halvings : ℕ → ℕ → ℕ → ℕ
halvings zero tmp order = order
halvings (suc fuel) tmp order = elim (ltb 1 tmp) [
  | false ↦ order
  | true ↦ halvings fuel (tmp / 2) (order + 1)
]

-- For sizes below 2^31, which `int tmp` holds.
unfoldable pub size_to_order : ℕ → ℕ
size_to_order size =
    if ltb (2 ^ halvings size size 0) size then halvings size size 0 + 1 else halvings size size 0

abbrev pub order_to_size : ℕ → ℕ
order_to_size order = 2 ^ order

-- The slots of a new slab from `slot` on.
pub slots : ℕ → ℕ → ℕ → List ℕ
slots zero slot obj_size = []
slots (suc n) slot obj_size = slot ∷ slots n (slot + obj_size) obj_size

-- `page->slab = addr` for the pages of the chunk.
abbrev pub assigned : ℕ → (ℕ → ℕ) → ℕ → ℕ
assigned addr slab_of p =
    if leb (addr / 4096) p && ltb p (addr / 4096 + 512) then addr else slab_of p

-- A new slab of the order, at the head of its list; the first slot's place holds the header.
pub init_slab_cache : ℕ → SlabHeap → Run (ℕ × SlabHeap)
init_slab_cache order h = elim h.chunks [
  | [] ↦ bug
  | addr ∷ rest ↦ ok (
    addr,
    record {
      chain = update h.chain order (addr ∷ h.chain order);
      free_list = update h.free_list addr (
          slots (slab_init_size / order_to_size order - 1) (addr + order_to_size order)
            (order_to_size order));
      slab_of = assigned addr h.slab_of;
      chunks = rest;
    },
  )
]

-- The first slab of the list with a free slot.
abbrev pub first_free : (ℕ → List ℕ) → List ℕ → Option ℕ
first_free free_list [] = none
first_free free_list (b ∷ bs) = elim (free_list b) [
  | [] ↦ first_free free_list bs
  | s ∷ rest ↦ some b
]

-- The first slot of a slab is taken.
pub take_slot : ℕ → SlabHeap → Run (ℕ × SlabHeap)
take_slot b h = elim (h.free_list b) [
  | [] ↦ bug
  | s ∷ rest ↦ ok (s, record h { free_list = update h.free_list b rest })
]

-- `_alloc_in_slab_nolock` on the head of the order's list, a read through NULL if there is none; its
-- call of itself takes the first slot of the new slab.
pub alloc_of_order : ℕ → SlabHeap → Run (ℕ × SlabHeap)
alloc_of_order order h = elim (h.chain order) [
  | [] ↦ bug
  | head ∷ next ↦ elim (first_free h.free_list (head ∷ next)) [
    | some b ↦ take_slot b h
    | none ↦ do (b, h') ← init_slab_cache order h; take_slot b h'
  ]
]

abbrev pub order_for : ℕ → ℕ
order_for size =
    if ltb (size_to_order size) slab_min_order then slab_min_order else size_to_order size

pub alloc_in_slab : ℕ → SlabHeap → Run (ℕ × SlabHeap)
alloc_in_slab size h =
    bug_on (ltb (order_to_size slab_max_order) size) (alloc_of_order (order_for size) h)

-- A page without a slab is a write to NULL.
pub free_in_slab : ℕ → SlabHeap → Run SlabHeap
free_in_slab addr h = elim (h.slab_of (addr / 4096)) [
  | zero ↦ bug
  | suc b ↦ ok (record h { free_list = update h.free_list (suc b) (addr ∷ h.free_list (suc b)) })
]

-- The loops of `get_free_mem_size_from_slab`, whose `total_size` wraps around at the end: a slab list, and the orders below `n`.
abbrev pub chain_free : (ℕ → List ℕ) → ℕ → List ℕ → ℕ
chain_free free_list size [] = 0
chain_free free_list size (b ∷ bs) = size * length (free_list b) + chain_free free_list size bs

abbrev pub orders_free : ℕ → ℕ → SlabHeap → ℕ
orders_free zero order h = 0
orders_free (suc n) order h =
    chain_free h.free_list (order_to_size order) (h.chain order) + orders_free n (suc order) h

pub get_free_mem_size_from_slab : SlabHeap → ℕ
get_free_mem_size_from_slab h = orders_free 7 slab_min_order h % 2 ^ 64

-- The loop of `init_slab` over `n` orders.
pub init_orders : ℕ → ℕ → SlabHeap → Run SlabHeap
init_orders zero order h = ok h
init_orders (suc n) order h = do
  (b, h') ← init_slab_cache order (record h { chain = update h.chain order [] })
  init_orders n (suc order) h'

pub init_slab : SlabHeap → Run SlabHeap
init_slab h = init_orders 7 slab_min_order h
