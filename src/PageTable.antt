-- ===== src/PageTable.antt =====
-- The page tables of kernel/arch/aarch64/mm/page_table.c: four levels of tables as a tree. An entry
-- says what its valid and table bits say; other bits of an invalid entry are not kept, since no
-- function reads them. `pages` is how often `get_pages(0)` will still succeed. The tables are not
-- NULL: the root is the caller's and the others come from entries.
pub mod Walk
pub mod Write
pub mod Map
pub mod Unmap
pub mod Stop
pub mod Free
pub mod Huge
pub mod Tests
-- The attributes of an entry, by their bit fields, and the values that they get.
use chcore.Common.{
  Bool, Option, Run, bug, bug_on, false, if◌then◌else◌, ltb, none, not, ok, pos, some, suc, true,
  update, zero, ℕ, ℤ, ◌%◌, ◌*◌, ◌+◌, ◌/◌, ◌==◌, ◌>>=◌, ◌^◌,
}

pub record Attributes : Type 0 where
  pub ap : ℕ
  pub uxn : ℕ
  pub pxn : ℕ
  pub af : ℕ
  pub ng : ℕ
  pub sh : ℕ
  pub attr_index : ℕ

abbrev pub high_rw_el0_rw : ℕ
high_rw_el0_rw = 1

abbrev pub high_ro_el0_ro : ℕ
high_ro_el0_ro = 3

abbrev pub page_ux : ℕ
page_ux = 0

abbrev pub page_uxn : ℕ
page_uxn = 1

abbrev pub inner_shareable : ℕ
inner_shareable = 3

abbrev pub normal_memory : ℕ
normal_memory = 0

abbrev pub device_memory : ℕ
device_memory = 1

abbrev pub normal_memory_nocache : ℕ
normal_memory_nocache = 2

pub record Page : Type 0 where
  pub pfn : ℕ
  pub attr : Attributes

pub data Entry (T : Type 0) : Type 0 where
  invalid : Entry T
  table : T → Entry T
  block : Page → Entry T

-- The tables with so many levels of tables below them; one of level 3 has none.
abbrev pub Nest : ℕ → Type 0 → Type 0
Nest zero T = T
Nest (suc n) T = ℕ → Entry (Nest n T)

-- A table of level 3: its pages.
abbrev pub PageTable3 : Type 0
PageTable3 = ℕ → Option Page

-- A table of level 0, the root.
abbrev pub Ptp : Type 0
Ptp = Nest 3 PageTable3

-- The bytes that an entry describes that has so many levels below it: 4KB, 2MB, 1GB, 512GB.
abbrev pub entry_size : ℕ → ℕ
entry_size h = 4096 * 512 ^ h

-- GET_L3_INDEX, GET_L2_INDEX, GET_L1_INDEX and GET_L0_INDEX, by the levels below.
abbrev pub index : ℕ → ℕ → ℕ
index h va = va / entry_size h % 512

-- The bits of `flags`.
abbrev pub vmr_write : ℕ → Bool
vmr_write flags = flags / 2 % 2 == 1

abbrev pub vmr_exec : ℕ → Bool
vmr_exec flags = flags / 4 % 2 == 1

abbrev pub vmr_device : ℕ → Bool
vmr_device flags = flags / 8 % 2 == 1

abbrev pub vmr_nocache : ℕ → Bool
vmr_nocache flags = flags / 16 % 2 == 1

abbrev pub user_pte : ℕ
user_pte = 0

-- Every attribute is written, whatever stood there.
pub set_pte_flags : ℕ → ℕ → Run Attributes
set_pte_flags flags kind = bug_on (not (kind == user_pte)) (
    ok (record {
      ap = if vmr_write flags then high_rw_el0_rw else high_ro_el0_ro;
      uxn = if vmr_exec flags then page_ux else page_uxn;
      pxn = 1;
      af = 1;
      ng = 1;
      sh = if vmr_device flags then 0 else inner_shareable;
      attr_index =
          if vmr_device flags
          then device_memory
          else if vmr_nocache flags
          then normal_memory_nocache
          else normal_memory;
    }))

-- What `get_next_ptp` returns, with the next table or the entry's block.
pub data Next (T : Type 0) : Type 0 where
  no_mapping : Next T
  normal_ptp : T → Next T
  block_ptp : Page → Next T

-- The entry that it fills when it allocates is written by the caller, with the table below.
-- A failure of `get_pages` is not checked and the NULL page is cleared.
pub get_next_ptp : {T : Type 0} → T → Entry T → Bool → ℕ → Run (Next T × ℕ)
get_next_ptp zeroed invalid false pages = ok (no_mapping, pages)
get_next_ptp zeroed invalid true zero = bug
get_next_ptp zeroed invalid true (suc pages) = ok (normal_ptp zeroed, pages)
get_next_ptp zeroed (table t) alloc pages = ok (normal_ptp t, pages)
get_next_ptp zeroed (block page) alloc pages = ok (block_ptp page, pages)

-- A page cleared by memset, as a table.
abbrev pub zeroed_nest : {T : Type 0} → T → (n : ℕ) → Nest n T
zeroed_nest zeroed zero = zeroed
zeroed_nest zeroed (suc n) = λ i. invalid

abbrev pub zeroed3 : PageTable3
zeroed3 = λ i. none

-- The inner loop of the map and unmap functions: through `n` levels of tables to a table whose
-- entries have `h` levels below, which `set` changes. A stop if a table is missing; a block on the
-- way stops it too, at BUG_ON or as memory that is no table.
pub walk : {T : Type 0} → T → Bool → ℕ → (n : ℕ) → ℕ → (T → T) → Nest n T → ℕ → Run (Nest n T × ℕ)
walk zeroed alloc h zero va set t pages = ok (set t, pages)
walk zeroed alloc h (suc n) va set t pages = do
  (next, left) ← get_next_ptp (zeroed_nest zeroed n) (t (index (h + suc n) va)) alloc pages
  elim next [
    | no_mapping ↦ bug
    | block_ptp page ↦ bug
    | normal_ptp child ↦ do
      (child', left') ← walk zeroed alloc h n va set child left
      ok (update t (index (h + suc n) va) (table child'), left')
  ]

-- `*pa` for a block or page with so many levels below; at level 0 it is not written.
abbrev pub block_pa : ℕ → Page → ℕ → ℕ → ℕ
block_pa h page va pa = if ltb h 3 then page.pfn * entry_size h + va % entry_size h else pa

-- The loop of `query_in_pgtbl` through `n` levels, on the entries that `get_next_ptp` finds without
-- allocation; none for -ENOMAPPING.
pub query_levels :
    {T : Type 0}
    → (T → ℕ → ℕ → Option (ℕ × Page))
    → ℕ
    → (n : ℕ) → Nest n T
    → ℕ
    → ℕ
    → Option (ℕ × Page)
query_levels query h zero t va pa = query t va pa
query_levels query h (suc n) t va pa = elim (t (index (h + suc n) va)) [
  | invalid ↦ none
  | table child ↦ query_levels query h n child va pa
  | block page ↦ some (block_pa (h + suc n) page va pa, page)
]

pub query_level3 : PageTable3 → ℕ → ℕ → Option (ℕ × Page)
query_level3 t va pa = elim (t (index 0 va)) [
  | none ↦ none
  | some page ↦ some (block_pa 0 page va pa, page)
]

-- 0 with `*pa` and the entry, or none for -ENOMAPPING; `pa` is what `*pa` held before.
pub query_in_pgtbl : Ptp → ℕ → ℕ → Option (ℕ × Page)
query_in_pgtbl pgtbl va pa = query_levels query_level3 0 3 pgtbl va pa

-- `pfn`, of 36, 27 or 18 bits.
abbrev pub pfn_of : ℕ → ℕ → ℕ
pfn_of h pa = pa / entry_size h % (2 ^ 36 / 512 ^ h)

abbrev pub set_page : ℕ → Option Page → PageTable3 → PageTable3
set_page va page t = update t (index 0 va) page

-- The loop of `map_range_in_pgtbl`; the fuel is the pages of `len` and one more.
pub map_pages : ℕ → Ptp → ℕ → ℕ → ℕ → ℕ → Attributes → ℕ → Run (ℤ × Ptp × ℕ)
map_pages zero pgtbl cur_va cur_pa cursor len attr pages = bug
map_pages (suc fuel) pgtbl cur_va cur_pa cursor len attr pages = elim (ltb cursor len) [
  | false ↦ ok (pos 0, pgtbl, pages)
  | true ↦ do
    (pgtbl', left) ←
        walk zeroed3 true 0 3 cur_va
          (set_page cur_va (some (record { pfn = pfn_of 0 cur_pa; attr = attr }))) pgtbl pages
    map_pages fuel pgtbl' ((cur_va + 4096) % 2 ^ 64) ((cur_pa + 4096) % 2 ^ 64)
        ((cursor + 4096) % 2 ^ 64) len attr left
]

-- The attributes are the same in each round.
pub map_range_in_pgtbl : Ptp → ℕ → ℕ → ℕ → ℕ → ℕ → Run (ℤ × Ptp × ℕ)
map_range_in_pgtbl pgtbl va pa len flags pages = do
  attr ← set_pte_flags flags user_pte
  map_pages (2 + len / 4096) pgtbl va pa 0 len attr pages

-- The loop of `unmap_range_in_pgtbl`, fuelled in the same way.
pub unmap_pages : ℕ → Ptp → ℕ → ℕ → ℕ → ℕ → Run (ℤ × Ptp × ℕ)
unmap_pages zero pgtbl cur_va cursor len pages = bug
unmap_pages (suc fuel) pgtbl cur_va cursor len pages = elim (ltb cursor len) [
  | false ↦ ok (pos 0, pgtbl, pages)
  | true ↦ do
    (pgtbl', left) ← walk zeroed3 false 0 3 cur_va (set_page cur_va none) pgtbl pages
    unmap_pages fuel pgtbl' ((cur_va + 4096) % 2 ^ 64) ((cursor + 4096) % 2 ^ 64) len left
]

pub unmap_range_in_pgtbl : Ptp → ℕ → ℕ → ℕ → Run (ℤ × Ptp × ℕ)
unmap_range_in_pgtbl pgtbl va len pages = unmap_pages (2 + len / 4096) pgtbl va 0 len pages
