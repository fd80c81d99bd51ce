-- ===== src/PageTable/Huge/Blocks.antt =====
-- The write of the entry of one block of 2MB or 1GB.
use chcore.Common.{
  Option, arith, if◌then◌else◌, inl, inr, none, ok, refl, some, suc, true, update, zero, ℕ,
  ℕ_discrete, ◌&&◌, ◌+◌, ◌/◌, ◌<◌, ◌==◌, ◌^◌, ◌≡◌, ◌≤◌,
}
use chcore.PageTable.{
  Nest, Page, PageTable3, Ptp, block, block_pa, index, query_levels, zeroed3, zeroed_nest,
}
use chcore.PageTable.Walk.{Entry-cases, passes, query-zeroed_nest, same_path, walk_lem}
use chcore.PageTable.Huge.{write_1g, write_2m, write_block_1g, write_block_2m}

-- Queries that find a block on the way only.
abbrev pub no_pages : PageTable3 → ℕ → ℕ → Option (ℕ × Page)
no_pages t va pa = none

-- A walk passes where there is no block on the way.
pub passes-no_pages :
    (n va old : ℕ) (t : Nest n PageTable3)
    → query_levels no_pages 0 n t va old ≡ none
    → passes PageTable3 true 0 n va t ≡ true
unfolding query_levels
passes-no_pages zero va old t h = refl
passes-no_pages (suc n) va old t h = elim (Entry-cases (t (index (0 + suc n) va))) [
  | inl e ↦ ground (arith, e)
  | inr (inl (child, e)) ↦ ground (arith, e, passes-no_pages n va old child (ground (arith, e, h)))
  | inr (inr (page, e)) ↦ ground (arith, e, h)
]

pub no_pages-passes :
    (n va old : ℕ) (t : Nest n PageTable3)
    → passes PageTable3 true 0 n va t ≡ true
    → query_levels no_pages 0 n t va old ≡ none
unfolding query_levels
no_pages-passes zero va old t h = refl
no_pages-passes (suc n) va old t h = elim (Entry-cases (t (index (0 + suc n) va))) [
  | inl e ↦ ground (arith, e)
  | inr (inl (child, e)) ↦ ground (arith, e, no_pages-passes n va old child (ground (arith, e, h)))
  | inr (inr (page, e)) ↦ absurd (ground (arith, e, h))
]

block_path_2m :
    (va other : ℕ)
    → va < 2 ^ 48
    → other < 2 ^ 48
    → (same_path 1 2 va other && (index 1 va == index 1 other)) ≡ (va / 2 ^ 21 == other / 2 ^ 21)
block_path_2m va other lt lt' = elim (ℕ_discrete (va / 2 ^ 21) (other / 2 ^ 21)) [
  | yes e ↦ ground arith
  | no ne ↦ ground arith
]

block_path_1g :
    (va other : ℕ)
    → va < 2 ^ 48
    → other < 2 ^ 48
    → (same_path 2 1 va other && (index 2 va == index 2 other)) ≡ (va / 2 ^ 30 == other / 2 ^ 30)
block_path_1g va other lt lt' = elim (ℕ_discrete (va / 2 ^ 30) (other / 2 ^ 30)) [
  | yes e ↦ ground arith
  | no ne ↦ ground arith
]

module _ (query : PageTable3 → ℕ → ℕ → Option (ℕ × Page))
    (none_zeroed : (other old : ℕ) → query zeroed3 other old ≡ none) where
  query-set_2m :
      (va other old : ℕ) (page : Page) (t : Nest 1 PageTable3)
      → query_levels query 0 1 (update t (index 1 va) (block page)) other old ≡ (
          if index 1 va == index 1 other
          then some (block_pa 1 page other old, page)
          else query_levels query 0 1 t other old)
  unfolding query_levels
  query-set_2m va other old page t = ground arith

  query-set_1g :
      (va other old : ℕ) (page : Page) (t : Nest 2 PageTable3)
      → query_levels query 0 2 (update t (index 2 va) (block page)) other old ≡ (
          if index 2 va == index 2 other
          then some (block_pa 2 page other old, page)
          else query_levels query 0 2 t other old)
  unfolding query_levels
  query-set_1g va other old page t = ground arith

  -- The write of the entry of a block of 2MB.
  pub walk-block_2m :
      (va : ℕ) (page : Page) (t : Ptp) (pages : ℕ)
      → passes (Nest 1 PageTable3) true 1 2 va t ≡ true
      → 2 ≤ pages
      → va < 2 ^ 48
      → (t' : Ptp) × (left : ℕ) × (write_block_2m va page t pages ≡ ok (t', left))
        × ((pages ≤ left + 2)
            × ((other old : ℕ)
                → other < 2 ^ 48
                → query_levels query 0 3 t' other old ≡ (
                    if va / 2 ^ 21 == other / 2 ^ 21
                    then some (block_pa 1 page other old, page)
                    else query_levels query 0 3 t other old)))
  unfolding query_levels write_2m
  walk-block_2m va page t pages pass enough lt =
      let (t', left, leaf, run, (fewer, (kept, (old, new, pass')))) =
        walk_lem (zeroed_nest zeroed3 1) (query_levels query 0 1)
          (query-zeroed_nest zeroed3 query none_zeroed 0 1) true 1 2 va
          (λ l. update l (index 1 va) (block page)) t pages pass (inr enough) in
      (
        t',
        left,
        run,
        (
          fewer,
          λ other o lt'. ground (
            arith,
            new other o,
            old other o,
            block_path_2m va other lt lt',
            query-set_2m va other o page leaf,
          ),
        ),
      )

  -- The write of the entry of a block of 1GB.
  pub walk-block_1g :
      (va : ℕ) (page : Page) (t : Ptp) (pages : ℕ)
      → passes (Nest 2 PageTable3) true 2 1 va t ≡ true
      → 1 ≤ pages
      → va < 2 ^ 48
      → (t' : Ptp) × (left : ℕ) × (write_block_1g va page t pages ≡ ok (t', left))
        × ((pages ≤ left + 1)
            × ((other old : ℕ)
                → other < 2 ^ 48
                → query_levels query 0 3 t' other old ≡ (
                    if va / 2 ^ 30 == other / 2 ^ 30
                    then some (block_pa 2 page other old, page)
                    else query_levels query 0 3 t other old)))
  unfolding query_levels write_1g
  walk-block_1g va page t pages pass enough lt =
      let (t', left, leaf, run, (fewer, (kept, (old, new, pass')))) =
        walk_lem (zeroed_nest zeroed3 2) (query_levels query 0 2)
          (query-zeroed_nest zeroed3 query none_zeroed 0 2) true 2 1 va
          (λ l. update l (index 2 va) (block page)) t pages pass (inr enough) in
      (
        t',
        left,
        run,
        (
          fewer,
          λ other o lt'. ground (
            arith,
            new other o,
            old other o,
            block_path_1g va other lt lt',
            query-set_1g va other o page leaf,
          ),
        ),
      )
