-- ===== src/PageTable/Huge.antt =====
-- `map_range_in_pgtbl_huge` and `unmap_range_in_pgtbl_huge` of
-- kernel/arch/aarch64/mm/page_table.c, which use blocks of 1GB and 2MB while the length allows.
pub mod Blocks
pub mod Writes
pub mod Loops
pub mod Equal
use chcore.Common.{
  Bool, Run, bug, false, leb, ok, suc, true, update, zero, ℕ, ℤ, ◌%◌, ◌+◌, ◌-◌, ◌/◌, ◌>>=◌, ◌^◌,
}
use chcore.PageTable.{
  Attributes, Entry, Nest, Page, PageTable3, Ptp, block, entry_size, index, invalid,
  map_range_in_pgtbl, pfn_of, set_pte_flags, unmap_range_in_pgtbl, user_pte, walk, zeroed3,
  zeroed_nest,
}

-- The walk to the table of level 1 or 2 that has the entry for a block, and the write of the entry.
pub write_1g : Bool → ℕ → Entry (Nest 1 PageTable3) → Ptp → ℕ → Run (Ptp × ℕ)
write_1g alloc va entry t pages =
    walk {T = Nest 2 PageTable3} (zeroed_nest zeroed3 2) alloc 2 1 va
      (λ leaf. update leaf (index 2 va) entry) t pages

pub write_2m : Bool → ℕ → Entry PageTable3 → Ptp → ℕ → Run (Ptp × ℕ)
write_2m alloc va entry t pages =
    walk {T = Nest 1 PageTable3} (zeroed_nest zeroed3 1) alloc 1 2 va
      (λ leaf. update leaf (index 1 va) entry) t pages

abbrev pub write_block_1g : ℕ → Page → Ptp → ℕ → Run (Ptp × ℕ)
write_block_1g va page t pages = write_1g true va (block page) t pages

abbrev pub write_block_2m : ℕ → Page → Ptp → ℕ → Run (Ptp × ℕ)
write_block_2m va page t pages = write_2m true va (block page) t pages

-- Where a loop stands: the table, `cur_va`, `cur_pa`, `len`, and the pages left.
pub record Cursor : Type 0 where
  pub pgtbl : Ptp
  pub cur_va : ℕ
  pub cur_pa : ℕ
  pub len : ℕ
  pub pages : ℕ

-- A loop over blocks of one size. The loops over 1GB and 2MB differ in the level only.
pub map_blocks : ℕ → (ℕ → Page → Ptp → ℕ → Run (Ptp × ℕ)) → ℕ → Attributes → Cursor → Run Cursor
map_blocks h write zero attr c = bug
map_blocks h write (suc fuel) attr c = elim (leb (entry_size h) c.len) [
  | false ↦ ok c
  | true ↦ do
    (pgtbl', left) ←
        write c.cur_va (record { pfn = pfn_of h c.cur_pa; attr = attr }) c.pgtbl c.pages
    map_blocks h write fuel attr (record {
      pgtbl = pgtbl';
      cur_va = (c.cur_va + entry_size h) % 2 ^ 64;
      cur_pa = (c.cur_pa + entry_size h) % 2 ^ 64;
      len = c.len - entry_size h;
      pages = left;
    })
]

-- The fuel of each loop is one more than the blocks in `len`.
pub map_range_in_pgtbl_huge : Ptp → ℕ → ℕ → ℕ → ℕ → ℕ → Run (ℤ × Ptp × ℕ)
map_range_in_pgtbl_huge pgtbl va pa len flags pages = do
  attr ← set_pte_flags flags user_pte
  c ←
      map_blocks 2 write_block_1g (1 + len / 2 ^ 30) attr
        (record { pgtbl = pgtbl; cur_va = va; cur_pa = pa; len = len; pages = pages })
  c' ← map_blocks 1 write_block_2m (1 + c.len / 2 ^ 21) attr c
  map_range_in_pgtbl c'.pgtbl c'.cur_va c'.cur_pa c'.len flags c'.pages

-- `cur_pa` is not used in these loops.
pub unmap_blocks : ℕ → (ℕ → Ptp → ℕ → Run (Ptp × ℕ)) → ℕ → Cursor → Run Cursor
unmap_blocks h write zero c = bug
unmap_blocks h write (suc fuel) c = elim (leb (entry_size h) c.len) [
  | false ↦ ok c
  | true ↦ do
    (pgtbl', left) ← write c.cur_va c.pgtbl c.pages
    unmap_blocks h write fuel (record {
      pgtbl = pgtbl';
      cur_va = (c.cur_va + entry_size h) % 2 ^ 64;
      cur_pa = c.cur_pa;
      len = c.len - entry_size h;
      pages = left;
    })
]

pub unmap_range_in_pgtbl_huge : Ptp → ℕ → ℕ → ℕ → Run (ℤ × Ptp × ℕ)
unmap_range_in_pgtbl_huge pgtbl va len pages = do
  c ←
      unmap_blocks 2 (λ v t p. write_1g false v invalid t p) (1 + len / 2 ^ 30)
        (record { pgtbl = pgtbl; cur_va = va; cur_pa = 0; len = len; pages = pages })
  c' ← unmap_blocks 1 (λ v t p. write_2m false v invalid t p) (1 + c.len / 2 ^ 21) c
  unmap_range_in_pgtbl c'.pgtbl c'.cur_va c'.len c'.pages
