-- ===== src/PageTable/Write.antt =====
-- The write of the entry of one page of 4KB, below three levels of tables.
use chcore.Common.{
  Bool, Option, arith, false, if◌then◌else◌, none, ok, refl, some, true, ℕ, ℕ_discrete, ◌&&◌, ◌+◌,
  ◌/◌, ◌<◌, ◌==◌, ◌^◌, ◌||◌, ◌≡◌, ◌≤◌, ◌⊎◌,
}
use chcore.PageTable.{
  Attributes, Page, PageTable3, Ptp, block_pa, index, query_in_pgtbl, query_level3, set_page, walk,
  zeroed3,
}
use chcore.PageTable.Walk.{passes, same_path, walk_lem}

-- Where an address is mapped and with which attributes; `old` is what `*pa` held.
abbrev pub translation : Ptp → ℕ → ℕ → Option (ℕ × Attributes)
translation t va old = elim (query_in_pgtbl t va old) [
  | none ↦ none
  | some found ↦ some (found.0, found.1.attr)
]

-- Addresses of 48 bits on the same path with the same last index are on the same page.
pub path_page :
    (va other : ℕ)
    → va < 2 ^ 48
    → other < 2 ^ 48
    → (same_path 0 3 va other && (index 0 va == index 0 other)) ≡ (va / 4096 == other / 4096)
path_page va other lt lt' = elim (ℕ_discrete (va / 4096) (other / 4096)) [
  | yes e ↦ ground arith
  | no ne ↦ ground arith
]

-- What a query finds in the entry of a page.
abbrev pub found_in : Option Page → ℕ → ℕ → Option (ℕ × Page)
found_in none other old = none
found_in (some page) other old = some (block_pa 0 page other old, page)

abbrev pub passes_walk : Bool → ℕ → Ptp → Bool
passes_walk alloc va t = passes PageTable3 alloc 0 3 va t

-- The write of one page's entry: `t'` is the table after it.
abbrev pub PageWritten : ℕ → Option Page → Ptp → Ptp → Type 0
PageWritten va page t t' =
    ((other old : ℕ)
      → other < 2 ^ 48
      → query_in_pgtbl t' other old ≡ (
          if va / 4096 == other / 4096
          then found_in page other old
          else query_in_pgtbl t other old))
    × ((other : ℕ) (alloc : Bool)
        → passes_walk alloc other t' ≡ (passes_walk alloc other t || same_path 0 3 va other))

pub query-set_page :
    (va other old : ℕ) (page : Option Page) (t : PageTable3)
    → query_level3 (set_page va page t) other old
      ≡ (if index 0 va == index 0 other then found_in page other old else query_level3 t other old)
unfolding query_level3
query-set_page va other old none t = ground arith
query-set_page va other old (some p) t = ground arith

pub query-zeroed3 : (other old : ℕ) → query_level3 zeroed3 other old ≡ none
unfolding query_level3
query-zeroed3 other old = refl

pub walk-page :
    (alloc : Bool) (va : ℕ) (page : Option Page) (t : Ptp) (pages : ℕ)
    → passes_walk alloc va t ≡ true
    → (alloc ≡ false) ⊎ (3 ≤ pages)
    → va < 2 ^ 48
    → (t' : Ptp) × (left : ℕ) × (walk zeroed3 alloc 0 3 va (set_page va page) t pages
        ≡ ok (t', left))
      × ((pages ≤ left + 3) × PageWritten va page t t')
unfolding query_in_pgtbl
walk-page alloc va page t pages pass enough lt =
    let (t', left, leaf, run, (fewer, (kept, (old, new, pass')))) =
      walk_lem zeroed3 query_level3 query-zeroed3 alloc 0 3 va (set_page va page) t pages pass
        enough in
    (
      t',
      left,
      run,
      (
        fewer,
        (
          λ other o lt'. ground (
            arith,
            new other o,
            old other o,
            path_page va other lt lt',
            query-set_page va other o page leaf,
          ),
          pass',
        ),
      ),
    )
