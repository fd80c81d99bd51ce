-- ===== src/PageTable/Unmap.antt =====
-- `unmap_range_in_pgtbl` and what `query_in_pgtbl` finds after it.
use chcore.Common.{
  Bool, Option, Run, arith, false, if◌then◌else◌, inl, none, ok, pos, refl, some, suc, sym, true,
  zero, ℕ, ℤ, ◌%◌, ◌*◌, ◌+◌, ◌-◌, ◌/◌, ◌<◌, ◌^◌, ◌∙◌, ◌≡◌, ◌≤◌,
}
use chcore.PageTable.{
  Ptp, map_range_in_pgtbl, set_page, unmap_pages, unmap_range_in_pgtbl, walk, zeroed3,
}
use chcore.PageTable.Write.{PageWritten, passes_walk, translation, walk-page}
use chcore.PageTable.Map.{
  Mappable, bytes, inside, map_range_in_pgtbl-Mapped, set_pte_flags_total, whole_pages,
}
use native.Mathlib.Nat.{mod-eq_of_lt}
use mathlib.Core.Path.{subst}

-- What the unmapping of a range leaves: nothing is mapped there, all else as before, and the tables
-- are there as before.
abbrev pub Unmapped : ℕ → ℕ → Ptp → Ptp → Type 0
Unmapped va size t t' =
    ((other old : ℕ)
      → other < 2 ^ 48
      → translation t' other old ≡ (if inside va size other then none else translation t other old))
    × ((other : ℕ) (alloc : Bool)
        → passes_walk alloc other t ≡ true
        → passes_walk alloc other t' ≡ true)

-- A range of whole pages whose tables are there.
abbrev pub HasTables : ℕ → ℕ → Ptp → Type 0
HasTables va size t =
    (va % 4096 ≡ 0)
    × (va + size ≤ 2 ^ 48)
    × ((other : ℕ) → inside va size other ≡ true → passes_walk false other t ≡ true)

Unmapped-PageWritten :
    (va : ℕ) (t t' : Ptp) → va % 4096 ≡ 0 → PageWritten va none t t' → Unmapped va 4096 t t'
Unmapped-PageWritten va t t' aligned (query, pass) = (
  λ other old lt. ground (arith, query other old lt),
  λ other alloc before. ground (arith, pass other alloc, before),
)

Unmapped-append :
    (va size more : ℕ) (t t' t'' : Ptp)
    → Unmapped va size t t'
    → Unmapped (va + size) more t' t''
    → Unmapped va (size + more) t t''
Unmapped-append va size more t t' t'' (query, pass) (query', pass') = (
  λ other old lt. ground (arith, query other old lt, query' other old lt),
  λ other alloc before. pass' other alloc (pass other alloc before),
)

HasTables-rest :
    (va size : ℕ) (t t' : Ptp)
    → HasTables va (4096 + size) t
    → Unmapped va 4096 t t'
    → HasTables (va + 4096) size t'
HasTables-rest va size t t' (aligned, below, pass) (query, pass') =
    (omega arith, omega arith, λ other i. pass' other false (pass other (ground (arith, i))))

abbrev pub UnmapRun : Run (ℤ × Ptp × ℕ) → ℕ → ℕ → Ptp → ℕ → Type 0
UnmapRun run va size t pages =
    (t' : Ptp) × (left : ℕ) × (run ≡ ok (pos 0, t', left)) × Unmapped va size t t'

unmap_pages-round :
    (fuel : ℕ) (t t' : Ptp) (va cursor len pages left : ℕ) (r : Run (ℤ × Ptp × ℕ))
    → cursor < len
    → va + 4096 < 2 ^ 64
    → cursor + 4096 < 2 ^ 64
    → (walk zeroed3 false 0 3 va (set_page va none) t pages ≡ ok (t', left))
    → unmap_pages fuel t' (va + 4096) (cursor + 4096) len left ≡ r
    → unmap_pages (suc fuel) t va cursor len pages ≡ r
unfolding unmap_pages
unmap_pages-round fuel t t' va cursor len pages left r lt va_below below run rest =
    ground (arith, run, rest, mod-eq_of_lt va_below, mod-eq_of_lt below)

unmap_pages_lem :
    (n fuel : ℕ) (t : Ptp) (va cursor len pages : ℕ)
    → n < fuel
    → len ≤ cursor + bytes n
    → cursor + bytes n < len + 4096
    → cursor + bytes n < 2 ^ 63
    → HasTables va (bytes n) t
    → UnmapRun (unmap_pages fuel t va cursor len pages) va (bytes n) t pages
unfolding unmap_pages
unmap_pages_lem n zero t va cursor len pages enough le gt small range = absurd (omega arith)
unmap_pages_lem zero (suc fuel) t va cursor len pages enough le gt small range =
    (t, pages, ground arith, (λ other old lt. ground arith, λ other alloc before. before))
unmap_pages_lem (suc n) (suc fuel) t va cursor len pages enough le gt small range =
    let (t', left, run, (fewer, written)) =
      walk-page false va none t pages (range.2 va (ground arith)) (inl refl)
        (omega (arith, range.1)) in
    let unmapped = Unmapped-PageWritten va t t' range.0 written in
    let (t'', left', run', unmapped') =
      unmap_pages_lem n fuel t' (va + 4096) (cursor + 4096) len left (omega arith) (omega arith)
        (omega arith) (omega arith) (HasTables-rest va (bytes n) t t' range unmapped) in
    (
      t'',
      left',
      unmap_pages-round fuel t t' va cursor len pages left (ok (pos 0, t'', left')) (omega arith)
          (omega (arith, range.1)) (omega arith) run run',
      Unmapped-append va 4096 (bytes n) t t' t'' unmapped unmapped',
    )

UnmapRun-eq :
    (run run' : Run (ℤ × Ptp × ℕ)) (va size size' : ℕ) (t : Ptp) (pages : ℕ)
    → run ≡ run'
    → size ≡ size'
    → UnmapRun run va size t pages
    → UnmapRun run' va size' t pages
UnmapRun-eq run run' va size size' t pages e e' m =
    subst (λ r. UnmapRun r va size' t pages) e (subst (λ z. UnmapRun run va z t pages) e' m)

-- For a range of whole pages below 2^48 that begins at a page and whose tables are there,
-- unmap_range_in_pgtbl returns 0, nothing is mapped in the range, every other address of 48 bits
-- translates as before, and every table is still there.
pub unmap_range_in_pgtbl-Unmapped :
    (t : Ptp) (va len pages : ℕ)
    → len % 4096 ≡ 0
    → HasTables va len t
    → UnmapRun (unmap_range_in_pgtbl t va len pages) va len t pages
unfolding unmap_range_in_pgtbl
unmap_range_in_pgtbl-Unmapped t va len pages whole range =
    UnmapRun-eq (unmap_pages (2 + len / 4096) t va 0 len pages)
      (unmap_range_in_pgtbl t va len pages) va (bytes (len / 4096)) len t pages refl
      (whole_pages len whole)
      (unmap_pages_lem (len / 4096) (2 + len / 4096) t va 0 len pages (omega arith)
        (omega (arith, whole_pages len whole)) (omega (arith, whole_pages len whole))
        (omega (arith, whole_pages len whole, range.1))
        (subst (λ z. HasTables va z t) (sym (whole_pages len whole)) range))

-- A mapping and its unmapping, and what they leave.
abbrev pub MappedUnmapped : Ptp → ℕ → ℕ → ℕ → ℕ → ℕ → Type 0
MappedUnmapped t va pa len flags pages =
    (t' : Ptp) × (left : ℕ) × (t'' : Ptp) × (left' : ℕ) × (map_range_in_pgtbl t va pa len flags
        pages
      ≡ ok (pos 0, t', left))
    × (unmap_range_in_pgtbl t' va len left ≡ ok (pos 0, t'', left'))
    × ((other old : ℕ) → other < 2 ^ 48 → translation t'' other old ≡ translation t other old)

-- For a range as map_range_in_pgtbl needs it, in which nothing is mapped, mapping it and unmapping
-- it both return 0, and every address of 48 bits has the translation that it had.
pub unmap_range_in_pgtbl-map_range_in_pgtbl :
    (t : Ptp) (va pa len flags pages : ℕ)
    → len % 4096 ≡ 0
    → Mappable va pa len t
    → 3 * (len / 4096) ≤ pages
    → ((other old : ℕ) → inside va len other ≡ true → translation t other old ≡ none)
    → MappedUnmapped t va pa len flags pages
unmap_range_in_pgtbl-map_range_in_pgtbl t va pa len flags pages whole range more free =
    let (attr, set) = set_pte_flags_total flags in
    let (t', left, run, (fewer, (query, pass, made))) =
      map_range_in_pgtbl-Mapped t va pa len flags pages attr whole set range more in
    let (t'', left', run', (query', pass')) =
      unmap_range_in_pgtbl-Unmapped t' va len left whole (range.0, range.2, made) in
    (
      t',
      left,
      t'',
      left',
      run,
      run',
      λ other old lt.
          back_again (some (pa + (other - va), attr)) (inside va len other) (query' other old lt)
            (query other old lt) (free other old),
    )
  where
    back_again :
        {A : Type 0} {a b c : Option A} (d : Option A) (hit : Bool)
        → c ≡ (if hit then none else b)
        → b ≡ (if hit then d else a)
        → (hit ≡ true → a ≡ none)
        → c ≡ a
    back_again d true e e' e'' = e ∙ sym (e'' refl)
    back_again d false e e' e'' = e ∙ e'
