-- ===== src/PageTable/Map.antt =====
-- `map_range_in_pgtbl` and what `query_in_pgtbl` finds after it.
use chcore.Common.{
  Bool, Bool-cases, Run, arith, false, if◌then◌else◌, inl, inr, leb, ltb, ok, pos, refl, some, suc,
  sym, true, zero, ℕ, ℤ, ◌%◌, ◌&&◌, ◌*◌, ◌+◌, ◌-◌, ◌/◌, ◌<◌, ◌^◌, ◌≡◌, ◌≤◌,
}
use chcore.PageTable.{
  Attributes, Page, Ptp, block_pa, map_pages, map_range_in_pgtbl, pfn_of, set_page, set_pte_flags,
  user_pte, walk, zeroed3,
}
use chcore.PageTable.Walk.{same_path}
use chcore.PageTable.Write.{PageWritten, passes_walk, path_page, translation, walk-page}
use native.Mathlib.Nat.{mod-eq_of_lt}
use mathlib.Core.Path.{subst}

abbrev pub page_at : ℕ → Attributes → Page
page_at pa attr = record { pfn = pfn_of 0 pa; attr = attr }

page_at-pa :
    (pa va old : ℕ) (attr : Attributes)
    → pa < 2 ^ 48
    → pa % 4096 ≡ 0
    → block_pa 0 (page_at pa attr) va old ≡ pa + va % 4096
page_at-pa pa va old attr lt aligned = omega arith

-- Whether an address is in a range.
abbrev pub inside : ℕ → ℕ → ℕ → Bool
inside start size va = leb start va && ltb va (start + size)

translation-PageWritten :
    (va pa : ℕ) (attr : Attributes) (t t' : Ptp) (other old : ℕ)
    → PageWritten va (some (page_at pa attr)) t t'
    → pa < 2 ^ 48
    → pa % 4096 ≡ 0
    → other < 2 ^ 48
    → va % 4096 ≡ 0
    → translation t' other old
      ≡ (if inside va 4096 other then some (pa + (other - va), attr) else translation t other old)
translation-PageWritten va pa attr t t' other old (query, pass) lt aligned lt' aligned' =
    ground (arith, query other old lt', page_at-pa pa other old attr lt aligned)

-- The ranges of a mapping and where its pages may be mapped.
abbrev pub Mappable : ℕ → ℕ → ℕ → Ptp → Type 0
Mappable va pa size t =
    (va % 4096 ≡ 0)
    × (pa % 4096 ≡ 0)
    × (va + size ≤ 2 ^ 48)
    × (pa + size ≤ 2 ^ 48)
    × ((other : ℕ) → inside va size other ≡ true → passes_walk true other t ≡ true)

-- What a mapping leaves: the range is mapped on the physical one, all else as before; the tables
-- that were there are there, and those of the range.
abbrev pub Mapped : ℕ → ℕ → ℕ → Attributes → Ptp → Ptp → Type 0
Mapped va pa size attr t t' =
    ((other old : ℕ)
      → other < 2 ^ 48
      → translation t' other old ≡ (
          if inside va size other then some (pa + (other - va), attr) else translation t other old))
    × ((other : ℕ) (alloc : Bool)
        → other < 2 ^ 48
        → passes_walk alloc other t ≡ true
        → passes_walk alloc other t' ≡ true)
    × ((other : ℕ) → inside va size other ≡ true → passes_walk false other t' ≡ true)

same_page-path :
    (va other : ℕ)
    → va < 2 ^ 48
    → inside va 4096 other ≡ true
    → va % 4096 ≡ 0
    → other < 2 ^ 48
    → same_path 0 3 va other ≡ true
same_page-path va other lt i aligned lt' = ground (arith, path_page va other lt lt')

Mapped-PageWritten :
    (va pa : ℕ) (attr : Attributes) (t t' : Ptp)
    → Mappable va pa 4096 t
    → PageWritten va (some (page_at pa attr)) t t'
    → Mapped va pa 4096 attr t t'
Mapped-PageWritten va pa attr t t' (va_aligned, pa_aligned, va_below, pa_below, pass) written = (
  λ other old lt.
      translation-PageWritten va pa attr t t' other old written (omega arith) pa_aligned lt
        va_aligned,
  λ other alloc lt before. ground (arith, written.1 other alloc, before),
  λ other i. ground (
    arith,
    written.1 other false,
    same_page-path va other (omega arith) i va_aligned (ground (arith, i)),
  ),
)

Mapped-append :
    (va pa size more : ℕ) (attr : Attributes) (t t' t'' : Ptp)
    → va + size + more ≤ 2 ^ 48
    → Mapped va pa size attr t t'
    → Mapped (va + size) (pa + size) more attr t' t''
    → Mapped va pa (size + more) attr t t''
Mapped-append va pa size more attr t t' t'' below (query, pass, made) (query', pass', made') = (
  λ other old lt. ground (arith, query other old lt, query' other old lt),
  λ other alloc lt before. pass' other alloc lt (pass other alloc lt before),
  λ other i. elim (Bool-cases (inside va size other)) [
    | inl first ↦ pass' other false (ground (arith, i)) (made other first)
    | inr later ↦ made' other (ground (arith, i, later))
  ],
)

Mappable-rest :
    (va pa size more : ℕ) (attr : Attributes) (t t' : Ptp)
    → size % 4096 ≡ 0
    → Mappable va pa (size + more) t
    → Mapped va pa size attr t t'
    → Mappable (va + size) (pa + size) more t'
Mappable-rest va pa size more attr t t' whole (va_aligned, pa_aligned, va_below, pa_below, pass)
      (query, pass', made) =
    (
      omega arith,
      omega arith,
      omega arith,
      omega arith,
      λ other i. pass' other true (ground (arith, i)) (pass other (ground (arith, i))),
    )

Mappable-first :
    (va pa size more : ℕ) (t : Ptp) → Mappable va pa (size + more) t → Mappable va pa size t
Mappable-first va pa size more t (va_aligned, pa_aligned, va_below, pa_below, pass) =
    (va_aligned, pa_aligned, omega arith, omega arith, λ other i. pass other (ground (arith, i)))

abbrev pub MapRun : Run (ℤ × Ptp × ℕ) → ℕ → ℕ → ℕ → Attributes → Ptp → ℕ → ℕ → Type 0
MapRun run va pa size attr t pages cost =
    (t' : Ptp) × (left : ℕ) × (run ≡ ok (pos 0, t', left))
    × ((pages ≤ left + cost) × Mapped va pa size attr t t')

-- The bytes of so many pages.
abbrev pub bytes : ℕ → ℕ
bytes zero = 0
bytes (suc n) = 4096 + bytes n

pub bytes_lem : (n : ℕ) → bytes n ≡ 4096 * n
bytes_lem zero = refl
bytes_lem (suc n) = omega (arith, bytes_lem n)

map_pages-round :
    (fuel : ℕ) (t t' : Ptp) (va pa cursor len : ℕ) (attr : Attributes) (pages left : ℕ)
    (r : Run (ℤ × Ptp × ℕ))
    → cursor < len
    → va + 4096 < 2 ^ 64
    → pa + 4096 < 2 ^ 64
    → cursor + 4096 < 2 ^ 64
    → (walk zeroed3 true 0 3 va (set_page va (some (page_at pa attr))) t pages ≡ ok (t', left))
    → map_pages fuel t' (va + 4096) (pa + 4096) (cursor + 4096) len attr left ≡ r
    → map_pages (suc fuel) t va pa cursor len attr pages ≡ r
unfolding map_pages
map_pages-round fuel t t' va pa cursor len attr pages left r lt va_below pa_below below run rest =
    ground (arith, run, rest, mod-eq_of_lt va_below, mod-eq_of_lt pa_below, mod-eq_of_lt below)

map_pages_lem :
    (n fuel : ℕ) (t : Ptp) (va pa cursor len : ℕ) (attr : Attributes) (pages : ℕ)
    → n < fuel
    → len ≤ cursor + bytes n
    → cursor + bytes n < len + 4096
    → cursor + bytes n < 2 ^ 63
    → 3 * n ≤ pages
    → Mappable va pa (bytes n) t
    → MapRun (map_pages fuel t va pa cursor len attr pages) va pa (bytes n) attr t pages (3 * n)
unfolding map_pages
map_pages_lem n zero t va pa cursor len attr pages enough le gt small more range =
    absurd (omega arith)
map_pages_lem zero (suc fuel) t va pa cursor len attr pages enough le gt small more range = (
  t,
  pages,
  ground arith,
  (
    omega arith,
    (
      λ other old lt. ground arith,
      λ other alloc lt before. before,
      λ other i. absurd (ground (arith, i)),
    ),
  ),
)
map_pages_lem (suc n) (suc fuel) t va pa cursor len attr pages enough le gt small more range =
    let first = Mappable-first va pa 4096 (bytes n) t range in
    let (t', left, run, (fewer, written)) =
      walk-page true va (some (page_at pa attr)) t pages (first.4 va (ground arith))
        (inr (omega arith)) (omega (arith, first.2)) in
    let mapped = Mapped-PageWritten va pa attr t t' first written in
    let (t'', left', run', (fewer', mapped')) =
      map_pages_lem n fuel t' (va + 4096) (pa + 4096) (cursor + 4096) len attr left (omega arith)
        (omega arith) (omega arith) (omega arith) (omega arith)
        (Mappable-rest va pa 4096 (bytes n) attr t t' refl range mapped) in
    (
      t'',
      left',
      map_pages-round fuel t t' va pa cursor len attr pages left (ok (pos 0, t'', left'))
          (omega arith) (omega (arith, range.2)) (omega (arith, range.3)) (omega arith) run run',
      (
        omega arith,
        Mapped-append va pa 4096 (bytes n) attr t t' t'' (omega (arith, range.2)) mapped mapped',
      ),
    )

MapRun-eq :
    (run run' : Run (ℤ × Ptp × ℕ)) (va pa size size' : ℕ) (attr : Attributes) (t : Ptp)
    (pages cost : ℕ)
    → run ≡ run'
    → size ≡ size'
    → MapRun run va pa size attr t pages cost
    → MapRun run' va pa size' attr t pages cost
MapRun-eq run run' va pa size size' attr t pages cost e e' m =
    subst (λ r. MapRun r va pa size' attr t pages cost) e
      (subst (λ z. MapRun run va pa z attr t pages cost) e' m)

pub map_range_in_pgtbl-map_pages :
    (t : Ptp) (va pa len flags pages : ℕ) (attr : Attributes)
    → set_pte_flags flags user_pte ≡ ok attr
    → map_pages (2 + len / 4096) t va pa 0 len attr pages
      ≡ map_range_in_pgtbl t va pa len flags pages
unfolding map_range_in_pgtbl
map_range_in_pgtbl-map_pages t va pa len flags pages attr set = rw set refl

-- Every value of `flags` gives attributes.
pub set_pte_flags_total :
    (flags : ℕ) → (attr : Attributes) × (set_pte_flags flags user_pte ≡ ok attr)
unfolding set_pte_flags
set_pte_flags_total flags = (_, refl)

pub whole_pages : (len : ℕ) → len % 4096 ≡ 0 → bytes (len / 4096) ≡ len
whole_pages len whole = omega (arith, bytes_lem (len / 4096))

-- Let a range of whole pages and its physical range begin at a page and end below 2^48, let no
-- block stand in the way of its pages, and let three tables be had for each page.
-- map_range_in_pgtbl returns 0; every address of 48 bits in the range translates to its place in
-- the physical range with the attributes of the flags, every other one as before; every table is
-- still there, and those for the range are; at most three tables a page are taken.
pub map_range_in_pgtbl-Mapped :
    (t : Ptp) (va pa len flags pages : ℕ) (attr : Attributes)
    → len % 4096 ≡ 0
    → set_pte_flags flags user_pte ≡ ok attr
    → Mappable va pa len t
    → 3 * (len / 4096) ≤ pages
    → MapRun (map_range_in_pgtbl t va pa len flags pages) va pa len attr t pages (3 * (len / 4096))
map_range_in_pgtbl-Mapped t va pa len flags pages attr whole set range more =
    MapRun-eq (map_pages (2 + len / 4096) t va pa 0 len attr pages)
      (map_range_in_pgtbl t va pa len flags pages) va pa (bytes (len / 4096)) len attr t pages
      (3 * (len / 4096)) (map_range_in_pgtbl-map_pages t va pa len flags pages attr set)
      (whole_pages len whole)
      (map_pages_lem (len / 4096) (2 + len / 4096) t va pa 0 len attr pages (omega arith)
        (omega (arith, whole_pages len whole)) (omega (arith, whole_pages len whole))
        (omega (arith, whole_pages len whole, range.2)) more
        (subst (λ z. Mappable va pa z t) (sym (whole_pages len whole)) range))
