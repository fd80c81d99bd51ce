-- ===== src/PageTable/Huge/Equal.antt =====
-- `map_range_in_pgtbl_huge` maps what `map_range_in_pgtbl` maps.
use chcore.Common.{
  Run, arith, if◌then◌else◌, ok, pos, some, sym, ℕ, ℤ, ◌%◌, ◌*◌, ◌+◌, ◌-◌, ◌/◌, ◌<◌, ◌^◌, ◌∙◌, ◌≡◌,
  ◌≤◌,
}
use chcore.PageTable.{Attributes, Ptp, map_range_in_pgtbl, set_pte_flags, user_pte}
use chcore.PageTable.Write.{translation}
use chcore.PageTable.Map.{Mappable, inside, map_range_in_pgtbl-Mapped, set_pte_flags_total}
use chcore.PageTable.Huge.{
  Cursor, map_blocks, map_range_in_pgtbl_huge, write_block_1g, write_block_2m,
}
use chcore.PageTable.Huge.Writes.{BlockMapped}
use chcore.PageTable.Huge.Loops.{HugeRange, map_1g_lem, map_2m_lem, total, total_1g, total_2m}

-- The range that the loop over 1GB leaves for the loop over 2MB, and its pages.
after_1g :
    (va pa len : ℕ) (attr : Attributes) (t : Ptp) (pages : ℕ) (c : Cursor)
    → HugeRange va pa len t
    → 3 * (len / 4096) ≤ pages
    → c.cur_va ≡ va + total (2 ^ 30) (len / 2 ^ 30)
    → c.cur_pa ≡ pa + total (2 ^ 30) (len / 2 ^ 30)
    → c.len ≡ len % 2 ^ 30
    → pages ≤ c.pages + 2 * (len / 2 ^ 30)
    → BlockMapped (total (2 ^ 30) (len / 2 ^ 30)) va pa attr t c.pgtbl
    → HugeRange c.cur_va c.cur_pa c.len c.pgtbl × (3 * (c.len / 4096) ≤ c.pages)
after_1g va pa len attr t pages c (align, align', (va_aligned, pa_aligned, below, pa_below, pass))
      more va' pa' len' fewer mapped =
    (
      (
        λ le. absurd (omega (arith, le)),
        λ le. (
          omega (arith, (align' (omega (arith, le))).0, total_1g (len / 2 ^ 30)),
          omega (arith, (align' (omega (arith, le))).1, total_1g (len / 2 ^ 30)),
        ),
        (
          omega (arith, total_1g (len / 2 ^ 30)),
          omega (arith, total_1g (len / 2 ^ 30)),
          omega (arith, total_1g (len / 2 ^ 30)),
          omega (arith, total_1g (len / 2 ^ 30)),
          λ other i.
              mapped.1 other (ground (arith, i, total_1g (len / 2 ^ 30)))
                (ground (arith, i, total_1g (len / 2 ^ 30)))
                (pass other (ground (arith, i, total_1g (len / 2 ^ 30)))),
        ),
      ),
      omega arith,
    )

-- The range that the loop over 2MB leaves for pages of 4KB.
after_2m :
    (va pa len : ℕ) (attr : Attributes) (t : Ptp) (pages : ℕ) (c : Cursor)
    → HugeRange va pa len t
    → 3 * (len / 4096) ≤ pages
    → c.cur_va ≡ va + total (2 ^ 21) (len / 2 ^ 21)
    → c.cur_pa ≡ pa + total (2 ^ 21) (len / 2 ^ 21)
    → c.len ≡ len % 2 ^ 21
    → pages ≤ c.pages + 2 * (len / 2 ^ 21)
    → BlockMapped (total (2 ^ 21) (len / 2 ^ 21)) va pa attr t c.pgtbl
    → Mappable c.cur_va c.cur_pa c.len c.pgtbl × (3 * (c.len / 4096) ≤ c.pages)
after_2m va pa len attr t pages c (align, align', (va_aligned, pa_aligned, below, pa_below, pass))
      more va' pa' len' fewer mapped =
    (
      (
        omega (arith, total_2m (len / 2 ^ 21)),
        omega (arith, total_2m (len / 2 ^ 21)),
        omega (arith, total_2m (len / 2 ^ 21)),
        omega (arith, total_2m (len / 2 ^ 21)),
        λ other i.
            mapped.1 other (ground (arith, i, total_2m (len / 2 ^ 21)))
              (ground (arith, i, total_2m (len / 2 ^ 21)))
              (pass other (ground (arith, i, total_2m (len / 2 ^ 21)))),
      ),
      omega arith,
    )

-- A range is mapped on the physical one, and every other address of 48 bits as before.
abbrev pub Translated : ℕ → ℕ → ℕ → Attributes → Ptp → Ptp → Type 0
Translated va pa size attr t t' =
    (other old : ℕ)
    → other < 2 ^ 48
    → translation t' other old
      ≡ (if inside va size other then some (pa + (other - va), attr) else translation t other old)

Translated-append :
    (va pa size more va' pa' whole : ℕ) (attr : Attributes) (t t' t'' : Ptp)
    → va' ≡ va + size
    → pa' ≡ pa + size
    → whole ≡ size + more
    → Translated va pa size attr t t'
    → Translated va' pa' more attr t' t''
    → Translated va pa whole attr t t''
Translated-append va pa size more va' pa' whole attr t t' t'' e e' e'' first rest other old lt =
    ground (arith, e, e', e'', first other old lt, rest other old lt)

abbrev pub TranslatedRun : Run (ℤ × Ptp × ℕ) → ℕ → ℕ → ℕ → Attributes → Ptp → Type 0
TranslatedRun run va pa len attr t =
    (t' : Ptp) × (left : ℕ) × (run ≡ ok (pos 0, t', left)) × Translated va pa len attr t t'

map_range_in_pgtbl_huge-runs :
    (t t' : Ptp) (va pa len flags pages left : ℕ) (attr : Attributes) (c c' : Cursor)
    → set_pte_flags flags user_pte ≡ ok attr
    → (map_blocks 2 write_block_1g
          (1 + len / 2 ^ 30)
          attr
          (record { pgtbl = t; cur_va = va; cur_pa = pa; len = len; pages = pages })
        ≡ ok c)
    → (map_blocks 1 write_block_2m (1 + c.len / 2 ^ 21) attr c ≡ ok c')
    → (map_range_in_pgtbl c'.pgtbl c'.cur_va c'.cur_pa c'.len flags c'.pages ≡ ok (pos 0, t', left))
    → map_range_in_pgtbl_huge t va pa len flags pages ≡ ok (pos 0, t', left)
unfolding map_range_in_pgtbl_huge
map_range_in_pgtbl_huge-runs t t' va pa len flags pages left attr c c' set run run' run'' =
    rw set rw run rw run' run''

still_whole :
    (len len' len'' : ℕ)
    → len % 4096 ≡ 0
    → len' ≡ len % 2 ^ 30
    → len'' ≡ len' % 2 ^ 21
    → len'' % 4096 ≡ 0
still_whole len len' len'' whole e e' = omega arith

split_1g : (len len' : ℕ) → len' ≡ len % 2 ^ 30 → len ≡ total (2 ^ 30) (len / 2 ^ 30) + len'
split_1g len len' e = omega (arith, total_1g (len / 2 ^ 30))

split_2m : (len len' : ℕ) → len' ≡ len % 2 ^ 21 → len ≡ total (2 ^ 21) (len / 2 ^ 21) + len'
split_2m len len' e = omega (arith, total_2m (len / 2 ^ 21))

pub map_range_in_pgtbl_huge-Translated :
    (t : Ptp) (va pa len flags pages : ℕ) (attr : Attributes)
    → len % 4096 ≡ 0
    → set_pte_flags flags user_pte ≡ ok attr
    → HugeRange va pa len t
    → 3 * (len / 4096) ≤ pages
    → TranslatedRun (map_range_in_pgtbl_huge t va pa len flags pages) va pa len attr t
map_range_in_pgtbl_huge-Translated t va pa len flags pages attr whole set range more =
    let (c, run, (va1, pa1, len1, fewer1, mapped1)) =
      map_1g_lem attr (record { pgtbl = t; cur_va = va; cur_pa = pa; len = len; pages = pages })
        range more in
    let (range1, more1) =
      after_1g va pa len attr t pages c range more va1 pa1 len1 fewer1 mapped1 in
    let (c', run', (va2, pa2, len2, fewer2, mapped2)) = map_2m_lem attr c range1 more1 in
    let (range2, more2) =
      after_2m c.cur_va c.cur_pa c.len attr c.pgtbl c.pages c' range1 more1 va2 pa2 len2 fewer2
        mapped2 in
    let (t', left, run'', (fewer3, mapped3)) =
      map_range_in_pgtbl-Mapped c'.pgtbl c'.cur_va c'.cur_pa c'.len flags c'.pages attr
        (still_whole len c.len c'.len whole len1 len2) set range2 more2 in
    (
      t',
      left,
      map_range_in_pgtbl_huge-runs t t' va pa len flags pages left attr c c' set run run' run'',
      Translated-append va pa (total (2 ^ 30) (len / 2 ^ 30)) c.len c.cur_va c.cur_pa len attr t
          c.pgtbl t' va1 pa1 (split_1g len c.len len1) mapped1.0
          (Translated-append c.cur_va c.cur_pa (total (2 ^ 21) (c.len / 2 ^ 21)) c'.len c'.cur_va
            c'.cur_pa c.len attr c.pgtbl c'.pgtbl t' va2 pa2 (split_2m c.len c'.len len2) mapped2.0
            mapped3.0),
    )

-- What two mappings of one range do has the same answers.
abbrev pub SameTranslations : Run (ℤ × Ptp × ℕ) → Run (ℤ × Ptp × ℕ) → Type 0
SameTranslations run run' =
    (t : Ptp) × (left : ℕ) × (t' : Ptp) × (left' : ℕ) × (run ≡ ok (pos 0, t, left))
    × (run' ≡ ok (pos 0, t', left'))
    × ((other old : ℕ) → other < 2 ^ 48 → translation t other old ≡ translation t' other old)

-- Let a range and its physical range be as map_range_in_pgtbl needs them, and begin at a multiple
-- of each block size that the length reaches. map_range_in_pgtbl_huge and map_range_in_pgtbl both
-- return 0 and leave tables in which every address of 48 bits has the same translation.
pub map_range_in_pgtbl_huge-map_range_in_pgtbl :
    (t : Ptp) (va pa len flags pages : ℕ)
    → len % 4096 ≡ 0
    → HugeRange va pa len t
    → 3 * (len / 4096) ≤ pages
    → SameTranslations
        (map_range_in_pgtbl_huge t va pa len flags pages)
        (map_range_in_pgtbl t va pa len flags pages)
map_range_in_pgtbl_huge-map_range_in_pgtbl t va pa len flags pages whole range more =
    let (attr, set) = set_pte_flags_total flags in
    let (t', left, run, same) =
      map_range_in_pgtbl_huge-Translated t va pa len flags pages attr whole set range more in
    let (t'', left', run', (fewer, mapped)) =
      map_range_in_pgtbl-Mapped t va pa len flags pages attr whole set range.2 more in
    (
      t',
      left,
      t'',
      left',
      run,
      run',
      λ other old lt. same other old lt ∙ sym (mapped.0 other old lt),
    )
