-- ===== src/Buddy.antt =====
-- The buddy allocator of kernel/mm/buddy.c over one pool (PHYS_MEM_POOL_SIZE is 1). A
-- `struct page *` is the index of the page in `page_metadata`.
pub mod Chunk
pub mod Address
pub mod Find
pub mod Lists
pub mod Merge
pub mod Size
pub mod Join
pub mod Free
pub mod Split
pub mod Take
pub mod Get
pub mod Init
pub mod Virt
pub mod Tests
use chcore.Common.{
  Bool, List, Option, Run, [], bug, erase, false, if◌then◌else◌, leb, ltb, none, not, ok, some, suc,
  true, update, zero, ℕ, ◌%◌, ◌&&◌, ◌*◌, ◌+◌, ◌-◌, ◌/◌, ◌==◌, ◌>>=◌, ◌^◌, ◌||◌, ◌∷◌,
}
use Prim.Native.Nat.{bit_xor}

pub record Page : Type 0 where
  pub allocated : Bool
  pub order : ℕ

-- `free_lists[o]` in its two fields.
pub record Pool : Type 0 where
  pub pool_start_addr : ℕ
  pub pool_mem_size : ℕ
  pub pool_phys_page_num : ℕ
  pub page_metadata : ℕ → Page
  pub free_list : ℕ → List ℕ
  pub nr_free : ℕ → ℕ

abbrev pub buddy_page_size : ℕ
buddy_page_size = 0x1000

abbrev pub buddy_page_size_order : ℕ
buddy_page_size_order = 12

abbrev pub buddy_max_order : ℕ
buddy_max_order = 14

abbrev pub u64_mod : ℕ
u64_mod = 2 ^ 64

abbrev pub order_of : Pool → ℕ → ℕ
order_of pool p = (pool.page_metadata p).order

-- `for (i = 0; i < n; ++i)`: each page from `p` on becomes the given one.
pub mark : ℕ → Page → ℕ → (ℕ → Page) → ℕ → Page
mark zero pg p f = f
mark (suc n) pg p f = mark n pg (p + 1) (update f p pg)

pub set_free_page : ℕ → ℕ → Pool → Pool
set_free_page p o pool = record pool {
  page_metadata = mark (2 ^ o) (record { allocated = false; order = o }) p pool.page_metadata;
}

pub set_alloc_page : ℕ → ℕ → Pool → Pool
set_alloc_page p o pool = record pool {
  page_metadata = mark (2 ^ o) (record { allocated = true; order = o }) p pool.page_metadata;
}

pub page_to_virt : Pool → ℕ → ℕ
page_to_virt pool p = (p * buddy_page_size + pool.pool_start_addr) % u64_mod

-- Whether the address lies in the pool.
abbrev pub in_pool : Pool → ℕ → Bool
in_pool pool addr =
    leb pool.pool_start_addr addr
    && ltb addr ((pool.pool_start_addr + pool.pool_mem_size) % u64_mod)

pub virt_to_page : Pool → ℕ → Run ℕ
virt_to_page pool addr =
    if in_pool pool addr then ok ((addr - pool.pool_start_addr) / buddy_page_size) else bug

abbrev pub buddy_chunk_addr : Pool → ℕ → ℕ
buddy_chunk_addr pool p =
    bit_xor (page_to_virt pool p) (2 ^ (order_of pool p + buddy_page_size_order))

pub get_buddy_chunk : Pool → ℕ → Run (Option ℕ)
unfolding virt_to_page
get_buddy_chunk pool p =
    if ltb (buddy_chunk_addr pool p) pool.pool_start_addr
      || leb ((pool.pool_start_addr + pool.pool_mem_size) % u64_mod) (buddy_chunk_addr pool p)
    then ok none
    else (do b ← virt_to_page pool (buddy_chunk_addr pool p); ok (some b))

-- `list_del` unlinks the page from the list that it is on.
abbrev pub list_del : ℕ → Pool → Pool
list_del p pool = record pool { free_list = λ o. erase p (pool.free_list o) }

abbrev pub list_add : ℕ → ℕ → Pool → Pool
list_add o p pool = record pool { free_list = update pool.free_list o (p ∷ pool.free_list o) }

-- `free_lists[o].nr_free += n` and `-= 1`
abbrev pub nr_add : ℕ → ℕ → Pool → Pool
nr_add o n pool = record pool { nr_free = update pool.nr_free o ((pool.nr_free o + n) % u64_mod) }

abbrev pub nr_dec : ℕ → Pool → Pool
nr_dec o pool = record pool {
  nr_free = update pool.nr_free o ((pool.nr_free o + u64_mod - 1) % u64_mod);
}

-- One round of `split_page`, on a page of order `suc o`.
pub split_once : ℕ → ℕ → Pool → Pool
unfolding set_free_page
split_once o p pool =
    let second : ℕ = p + 2 ^ o in
    let pool1 : Pool = list_add o p (list_del p (set_free_page p o pool)) in
    let pool2 : Pool = list_add o second (set_free_page second o pool1) in
    nr_add o 2 (nr_dec (suc o) pool2)

-- The first number is the order of the page, which falls by one in each round. At order 0 a page
-- that should be split further means a shift by -1.
pub split_loop : ℕ → ℕ → ℕ → Pool → Run Pool
split_loop zero order p pool = if 0 == order then ok pool else bug
split_loop (suc o) order p pool =
    let rest = split_loop o order p (split_once o p pool) in
    if suc o == order then ok pool else rest

pub split_page : ℕ → ℕ → Pool → Run Pool
split_page order p pool = split_loop (order_of pool p) order p pool

-- The page that `split_page` left is marked and taken off its list.
pub take_page : ℕ → Pool → Pool
unfolding set_alloc_page
take_page p pool = let o : ℕ = order_of pool p in list_del p (nr_dec o (set_alloc_page p o pool))

-- The body of the `while` of `buddy_get_pages` where `nr_free > 0`; a counter above 0 over an empty
-- list would make the list's head a page.
pub get_from : ℕ → ℕ → Pool → Run (Option ℕ × Pool)
unfolding split_page take_page
get_from order m pool = elim (pool.free_list m) [
  | [] ↦ bug
  | p ∷ r ↦ do pool' ← split_page order p pool; ok (some p, take_page p pool')
]

-- The loop reads `free_lists[match_order]` up to BUDDY_MAX_ORDER, one past the array's end. The
-- first number counts the rounds left.
pub get_loop : ℕ → ℕ → ℕ → Pool → Run (Option ℕ × Pool)
get_loop zero order m pool = ok (none, pool)
get_loop (suc f) order m pool =
    let rest = get_loop f order (m + 1) pool in
    if m == buddy_max_order
    then bug
    else if ltb 0 (pool.nr_free m)
    then get_from order m pool
    else rest

pub buddy_get_pages : ℕ → Pool → Run (Option ℕ × Pool)
buddy_get_pages order pool = get_loop (buddy_max_order + 1 - order) order order pool

-- `it_page` and its buddy become one chunk.
pub merge_once : ℕ → ℕ → Pool → ℕ × Pool
unfolding set_free_page
merge_once p b pool =
    let pool1 : Pool = nr_dec (order_of pool b) (list_del b pool) in
    let q : ℕ = if ltb p b then p else b in (q, set_free_page q (order_of pool q + 1) pool1)

abbrev pub may_merge : Pool → ℕ → ℕ → Bool
may_merge pool p b =
    not ((pool.page_metadata b).allocated)
    && (order_of pool b == order_of pool p)
    && ltb (order_of pool p) (buddy_max_order - 1)

pub merge_loop : ℕ → ℕ × Pool → Run (ℕ × Pool)
merge_loop zero (p, pool) = bug
merge_loop (suc f) (p, pool) = elim (get_buddy_chunk pool p) [
  | bug ↦ bug
  | ok none ↦ ok (p, pool)
  | ok (some b) ↦ elim (may_merge pool p b) [
    | true ↦ merge_loop f (merge_once p b pool)
    | false ↦ ok (p, pool)
  ]
]

-- The order grows in each round, to BUDDY_MAX_ORDER - 1 at most.
pub merge_page : ℕ → Pool → Run (ℕ × Pool)
merge_page p pool = merge_loop buddy_max_order (p, pool)

-- The chunk goes to the list of its order.
pub put_page : ℕ → Pool → Pool
put_page p pool = nr_add (order_of pool p) 1 (list_add (order_of pool p) p pool)

pub buddy_free_pages : ℕ → Pool → Run Pool
unfolding set_free_page merge_page put_page
buddy_free_pages p pool = do
  (q, pool') ← merge_page p (set_free_page p (order_of pool p) pool)
  ok (put_page q pool')

-- The second loop of `init_buddy`.
pub free_all : ℕ → ℕ → Pool → Run Pool
free_all zero p pool = ok pool
free_all (suc n) p pool = do pool' ← buddy_free_pages p pool; free_all n (p + 1) pool'

-- The pool before the second loop: no free chunk, every page allocated by itself.
abbrev pub fresh_pool : ℕ → ℕ → Pool
fresh_pool start_addr page_num = record {
  pool_start_addr = start_addr;
  pool_mem_size = page_num * buddy_page_size;
  pool_phys_page_num = page_num;
  page_metadata = λ p. record { allocated = true; order = 0 };
  free_list = λ o. [];
  nr_free = λ o. 0;
}

-- `page_idx` is an `int`: a count of 2^31 pages would make it overflow.
pub init_buddy : ℕ → ℕ → Run Pool
init_buddy start_addr page_num =
    if leb (2 ^ 31) page_num then bug else free_all page_num 0 (fresh_pool start_addr page_num)

-- `total_size` after the orders below the given one.
pub free_size_below : ℕ → Pool → ℕ
free_size_below zero pool = 0
free_size_below (suc o) pool =
    (free_size_below o pool + pool.nr_free o * (buddy_page_size * 2 ^ o)) % u64_mod

pub get_free_mem_size_from_buddy : Pool → ℕ
get_free_mem_size_from_buddy pool = free_size_below buddy_max_order pool
