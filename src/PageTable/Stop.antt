-- ===== src/PageTable/Stop.antt =====
-- Where the walks of kernel/arch/aarch64/mm/page_table.c stop the kernel.
use chcore.Common.{
  Bool, arith, bug, false, inl, inr, none, ok, refl, suc, true, zero, ℕ, ◌+◌, ◌<◌, ◌≡◌,
}
use chcore.PageTable.{
  Nest, PageTable3, Ptp, get_next_ptp, index, invalid, no_mapping, set_page, unmap_pages,
  unmap_range_in_pgtbl, walk, zeroed3, zeroed_nest,
}
use chcore.PageTable.Walk.{Entry-cases, passes}
use chcore.PageTable.Write.{passes_walk}

next-missing :
    {T : Type 0} (t : T) (alloc : Bool) (pages : ℕ)
    → alloc ≡ false
    → get_next_ptp t invalid alloc pages ≡ ok (no_mapping, pages)
unfolding get_next_ptp
next-missing t false pages e = refl
next-missing t true pages e = absurd (ground (arith, e))

walk-stop :
    (alloc : Bool) (h n va : ℕ) (set : PageTable3 → PageTable3) (t : Nest n PageTable3) (pages : ℕ)
    → passes PageTable3 alloc h n va t ≡ false
    → walk zeroed3 alloc h n va set t pages ≡ bug
unfolding walk get_next_ptp
walk-stop alloc h zero va set t pages stop = absurd (ground (arith, stop))
walk-stop alloc h (suc n) va set t pages stop = elim (Entry-cases (t (index (h + suc n) va))) [
  | inl e ↦
      ground (arith, e, next-missing (zeroed_nest zeroed3 n) alloc pages (ground (arith, e, stop)))
  | inr (inl (child, e)) ↦
      ground (arith, e, walk-stop alloc h n va set child pages (ground (arith, e, stop)))
  | inr (inr (page, e)) ↦ ground (arith, e)
]

-- If the way to the first page of a range that is not empty meets a missing table or a block,
-- unmap_range_in_pgtbl stops the kernel.
pub unmap_range_in_pgtbl-missing :
    (t : Ptp) (va len pages : ℕ)
    → 0 < len
    → passes_walk false va t ≡ false
    → unmap_range_in_pgtbl t va len pages ≡ bug
unfolding unmap_range_in_pgtbl unmap_pages
unmap_range_in_pgtbl-missing t va len pages more stop =
    ground (arith, walk-stop false 0 3 va (set_page va none) t pages stop)
