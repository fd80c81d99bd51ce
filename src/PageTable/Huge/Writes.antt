-- ===== src/PageTable/Huge/Writes.antt =====
-- What the write of the entry of a block does to translations.
use chcore.Common.{
  Run, arith, false, if◌then◌else◌, inl, inr, ok, ok-injective, refl, some, sym, true, ℕ, ◌%◌, ◌+◌,
  ◌-◌, ◌<◌, ◌^◌, ◌∙◌, ◌≡◌, ◌≤◌,
}
use chcore.PageTable.{
  Attributes, Nest, Page, PageTable3, Ptp, entry_size, index, pfn_of, query_in_pgtbl, query_level3,
}
use chcore.PageTable.Walk.{Entry-cases, passes}
use chcore.PageTable.Write.{passes_walk, query-zeroed3, translation}
use chcore.PageTable.Map.{inside}
use chcore.PageTable.Huge.{write_block_1g, write_block_2m}
use chcore.PageTable.Huge.Blocks.{
  no_pages, no_pages-passes, passes-no_pages, walk-block_1g, walk-block_2m,
}
use mathlib.Core.Path.{subst}

-- What two accounts of one run say, of the same result.
pub both :
    {A B : Type 0} (run : Run (A × B)) (P Q : A → B → Type 0)
    → ((a : A) × (b : B) × (run ≡ ok (a, b)) × P a b)
    → ((a : A) × (b : B) × (run ≡ ok (a, b)) × Q a b)
    → (a : A) × (b : B) × (run ≡ ok (a, b)) × (P a b × Q a b)
both run P Q (a, b, e, p) (a', b', e', q) =
    (a, b, e, (p, subst (λ x. Q x.0 x.1) (ok-injective (sym e' ∙ e)) q))

-- The write of a block: its range is mapped on the physical one and all else as before, and a walk
-- past the block passes as before.
abbrev pub BlockMapped : ℕ → ℕ → ℕ → Attributes → Ptp → Ptp → Type 0
BlockMapped size va pa attr t t' =
    ((other old : ℕ)
      → other < 2 ^ 48
      → translation t' other old ≡ (
          if inside va size other then some (pa + (other - va), attr) else translation t other old))
    × ((other : ℕ)
        → other < 2 ^ 48
        → inside va size other ≡ false
        → passes_walk true other t ≡ true
        → passes_walk true other t' ≡ true)

-- What a write function for blocks of one size promises.
abbrev pub Writes : ℕ → (ℕ → Page → Ptp → ℕ → Run (Ptp × ℕ)) → Type 0
Writes h write =
    (va pa : ℕ) (attr : Attributes) (t : Ptp) (pages : ℕ)
    → va % entry_size h ≡ 0
    → pa % entry_size h ≡ 0
    → va + entry_size h ≤ 2 ^ 48
    → pa + entry_size h ≤ 2 ^ 48
    → passes_walk true va t ≡ true
    → 2 ≤ pages
    → (t' : Ptp) × (left : ℕ) × (write va (record { pfn = pfn_of h pa; attr = attr }) t pages
        ≡ ok (t', left))
      × ((pages ≤ left + 2) × BlockMapped (entry_size h) va pa attr t t')

passes_1g :
    (va : ℕ) (t : Ptp)
    → passes_walk true va t ≡ true
    → passes (Nest 2 PageTable3) true 2 1 va t ≡ true
passes_1g va t h = elim (Entry-cases (t (index 3 va))) [
  | inl e ↦ ground (arith, e)
  | inr (inl (child, e)) ↦ ground (arith, e)
  | inr (inr (page, e)) ↦ ground (arith, e, h)
]

passes_2m :
    (va : ℕ) (t : Ptp)
    → passes_walk true va t ≡ true
    → passes (Nest 1 PageTable3) true 1 2 va t ≡ true
passes_2m va t h = elim (Entry-cases (t (index 3 va))) [
  | inl e ↦ ground (arith, e)
  | inr (inl (child, e)) ↦ elim (Entry-cases (child (index 2 va))) [
    | inl e' ↦ ground (arith, e, e')
    | inr (inl (child', e')) ↦ ground (arith, e, e')
    | inr (inr (page, e')) ↦ ground (arith, e, e', h)
  ]
  | inr (inr (page, e)) ↦ ground (arith, e, h)
]

pub write_block_2m-Writes : Writes 1 write_block_2m
unfolding query_in_pgtbl
write_block_2m-Writes va pa attr t pages va_aligned pa_aligned below pa_below pass more =
    let (t', left, run, ((fewer, pages_lem), (fewer', blocks_lem))) =
      both (write_block_2m va (record { pfn = pfn_of 1 pa; attr = attr }) t pages) _ _
        (walk-block_2m query_level3 query-zeroed3 va (record { pfn = pfn_of 1 pa; attr = attr }) t
          pages (passes_2m va t pass) more (omega arith))
        (walk-block_2m no_pages (λ other old. refl) va (record { pfn = pfn_of 1 pa; attr = attr }) t
          pages (passes_2m va t pass) more (omega arith)) in
    (
      t',
      left,
      run,
      (
        fewer,
        (
          λ other old lt. ground (arith, pages_lem other old lt),
          λ other lt out before.
              passes-no_pages 3 other 0 t'
                (ground (arith, blocks_lem other 0 lt, no_pages-passes 3 other 0 t before)),
        ),
      ),
    )

pub write_block_1g-Writes : Writes 2 write_block_1g
unfolding query_in_pgtbl
write_block_1g-Writes va pa attr t pages va_aligned pa_aligned below pa_below pass more =
    let (t', left, run, ((fewer, pages_lem), (fewer', blocks_lem))) =
      both (write_block_1g va (record { pfn = pfn_of 2 pa; attr = attr }) t pages) _ _
        (walk-block_1g query_level3 query-zeroed3 va (record { pfn = pfn_of 2 pa; attr = attr }) t
          pages (passes_1g va t pass) (omega arith) (omega arith))
        (walk-block_1g no_pages (λ other old. refl) va (record { pfn = pfn_of 2 pa; attr = attr }) t
          pages (passes_1g va t pass) (omega arith) (omega arith)) in
    (
      t',
      left,
      run,
      (
        omega (arith, fewer),
        (
          λ other old lt. ground (arith, pages_lem other old lt),
          λ other lt out before.
              passes-no_pages 3 other 0 t'
                (ground (arith, blocks_lem other 0 lt, no_pages-passes 3 other 0 t before)),
        ),
      ),
    )
