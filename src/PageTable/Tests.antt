-- ===== src/PageTable/Tests.antt =====
-- Tests of kernel/arch/aarch64/mm/page_table.c.
use chcore.Common.{arith, bug, none, pos, refl, some, update, ◌≡◌}
use chcore.PageTable.{
  Attributes, Ptp, get_next_ptp, invalid, map_pages, map_range_in_pgtbl, query_in_pgtbl,
  query_levels, set_pte_flags, table, unmap_range_in_pgtbl, walk,
}
use chcore.PageTable.Map.{MapRun, map_range_in_pgtbl-Mapped}
use chcore.PageTable.Unmap.{MappedUnmapped, unmap_range_in_pgtbl-map_range_in_pgtbl}
use chcore.PageTable.Stop.{unmap_range_in_pgtbl-missing}
use chcore.PageTable.Free.{free_page_table, free_page_table-map_range_in_pgtbl}
use chcore.PageTable.Huge.{map_range_in_pgtbl_huge}
use chcore.PageTable.Huge.Equal.{SameTranslations, map_range_in_pgtbl_huge-map_range_in_pgtbl}

abbrev empty_table : Ptp
empty_table = λ i. invalid

-- The attributes for VMR_READ | VMR_WRITE.
abbrev read_write : Attributes
read_write = record { ap = 1; uxn = 1; pxn = 1; af = 1; ng = 1; sh = 3; attr_index = 0 }

-- Every page of 48 bits mapped on page 7.
abbrev full_table : Ptp
full_table =
    λ i. table (λ j. table (λ k. table (λ l. some (record { pfn = 7; attr = read_write }))))

map_range_in_pgtbl-Mapped_example :
    MapRun
      (map_range_in_pgtbl empty_table 4194304 524288 8192 3 10)
      4194304
      524288
      8192
      read_write
      empty_table
      10
      6
unfolding set_pte_flags
map_range_in_pgtbl-Mapped_example =
    map_range_in_pgtbl-Mapped empty_table 4194304 524288 8192 3 10 read_write refl refl
      (refl, refl, omega arith, omega arith, λ other i. refl) (omega arith)

unmap_range_in_pgtbl-map_range_in_pgtbl_example :
    MappedUnmapped empty_table 4194304 524288 8192 3 10
unfolding query_in_pgtbl query_levels
unmap_range_in_pgtbl-map_range_in_pgtbl_example =
    unmap_range_in_pgtbl-map_range_in_pgtbl empty_table 4194304 524288 8192 3 10 refl
      (refl, refl, omega arith, omega arith, λ other i. refl) (omega arith) (λ other old i. refl)

unmap_range_in_pgtbl-missing_example : unmap_range_in_pgtbl empty_table 4194304 4096 10 ≡ bug
unmap_range_in_pgtbl-missing_example =
    unmap_range_in_pgtbl-missing empty_table 4194304 4096 10 (omega arith) refl

map_range_in_pgtbl_huge-map_range_in_pgtbl_example :
    SameTranslations
      (map_range_in_pgtbl_huge empty_table 1073741824 2147483648 1075843072 3 1000000)
      (map_range_in_pgtbl empty_table 1073741824 2147483648 1075843072 3 1000000)
map_range_in_pgtbl_huge-map_range_in_pgtbl_example =
    map_range_in_pgtbl_huge-map_range_in_pgtbl empty_table 1073741824 2147483648 1075843072 3
      1000000 refl
      (
        λ le. (refl, refl),
        λ le. (refl, refl),
        (refl, refl, omega arith, omega arith, λ other i. refl),
      )
      (omega arith)

-- The page at 20480 mapped in the empty table, with three new tables.
abbrev one_page : Ptp
one_page = update empty_table 0 (
    table (
      update (λ i. invalid) 0
        (table (
          update (λ i. invalid) 0
            (table (update (λ i. none) 5 (some (record { pfn = 9; attr = read_write }))))))))

free_page_table-map_range_in_pgtbl_example :
    free_page_table one_page 7 ≡ free_page_table empty_table 10
unfolding map_range_in_pgtbl set_pte_flags map_pages walk get_next_ptp
free_page_table-map_range_in_pgtbl_example =
    free_page_table-map_range_in_pgtbl empty_table one_page 20480 36864 4096 3 10 7 (pos 0) refl
