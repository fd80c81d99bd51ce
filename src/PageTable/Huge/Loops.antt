-- ===== src/PageTable/Huge/Loops.antt =====
-- The loops of `map_range_in_pgtbl_huge`, and its equivalence with `map_range_in_pgtbl`.
use chcore.Common.{
  Run, arith, ok, refl, suc, true, zero, ℕ, ◌%◌, ◌*◌, ◌+◌, ◌-◌, ◌/◌, ◌<◌, ◌^◌, ◌≡◌, ◌≤◌,
}
use chcore.PageTable.{Attributes, Page, Ptp, entry_size, pfn_of}
use chcore.PageTable.Write.{passes_walk}
use chcore.PageTable.Map.{Mappable, inside}
use chcore.PageTable.Huge.{Cursor, map_blocks, write_block_1g, write_block_2m}
use chcore.PageTable.Huge.Writes.{BlockMapped, Writes, write_block_1g-Writes, write_block_2m-Writes}
use native.Mathlib.Nat.{mod-eq_of_lt}

-- So many blocks of one size.
abbrev pub total : ℕ → ℕ → ℕ
total size zero = 0
total size (suc n) = size + total size n

BlockMapped-append :
    (va pa size more : ℕ) (attr : Attributes) (t t' t'' : Ptp)
    → BlockMapped size va pa attr t t'
    → BlockMapped more (va + size) (pa + size) attr t' t''
    → BlockMapped (size + more) va pa attr t t''
BlockMapped-append va pa size more attr t t' t'' (query, pass) (query', pass') = (
  λ other old lt. ground (arith, query other old lt, query' other old lt),
  λ other lt out before.
      pass' other lt (ground (arith, out)) (pass other lt (ground (arith, out)) before),
)

BlockMapped-none : (va pa : ℕ) (attr : Attributes) (t : Ptp) → BlockMapped 0 va pa attr t t
BlockMapped-none va pa attr t = (λ other old lt. ground arith, λ other lt out before. before)

-- A loop may start: aligned addresses of 48 bits, no block in the range, and `n` rounds to go.
abbrev BlockRange : ℕ → ℕ → Cursor → ℕ → Type 0
BlockRange h n c rest =
    (0 < n → (c.cur_va % entry_size h ≡ 0) × (c.cur_pa % entry_size h ≡ 0))
    × (c.len ≡ total (entry_size h) n + rest)
    × (c.cur_va + total (entry_size h) n ≤ 2 ^ 48)
    × (c.cur_pa + total (entry_size h) n ≤ 2 ^ 48)
    × (2 * n ≤ c.pages)
    × ((other : ℕ)
        → inside c.cur_va (total (entry_size h) n) other ≡ true
        → passes_walk true other c.pgtbl ≡ true)

abbrev pub BlocksRun : ℕ → Run Cursor → ℕ → Attributes → Cursor → ℕ → Type 0
BlocksRun h run n attr c rest =
    (c' : Cursor) × (run ≡ ok c')
    × ((c'.cur_va ≡ c.cur_va + total (entry_size h) n)
        × (c'.cur_pa ≡ c.cur_pa + total (entry_size h) n)
        × (c'.len ≡ rest)
        × (c.pages ≤ c'.pages + 2 * n)
        × BlockMapped (total (entry_size h) n) c.cur_va c.cur_pa attr c.pgtbl c'.pgtbl)

abbrev next_cursor : ℕ → Cursor → Ptp → ℕ → Cursor
next_cursor h c t left = record {
  pgtbl = t;
  cur_va = c.cur_va + entry_size h;
  cur_pa = c.cur_pa + entry_size h;
  len = c.len - entry_size h;
  pages = left;
}

module _ (h : ℕ) (write : ℕ → Page → Ptp → ℕ → Run (Ptp × ℕ)) (writes : Writes h write)
    (positive : 0 < entry_size h) (small : entry_size h ≤ 2 ^ 40)
    (next_aligned : (x : ℕ) → x % entry_size h ≡ 0 → (x + entry_size h) % entry_size h ≡ 0) where
  map_blocks-round :
      (fuel : ℕ) (attr : Attributes) (c : Cursor) (t : Ptp) (left : ℕ) (r : Run Cursor)
      → entry_size h ≤ c.len
      → c.cur_va + entry_size h < 2 ^ 64
      → c.cur_pa + entry_size h < 2 ^ 64
      → (write c.cur_va (record { pfn = pfn_of h c.cur_pa; attr = attr }) c.pgtbl c.pages
          ≡ ok (t, left))
      → map_blocks h write fuel attr (next_cursor h c t left) ≡ r
      → map_blocks h write (suc fuel) attr c ≡ r
  unfolding map_blocks
  map_blocks-round fuel attr c t left r le va_below pa_below run rest =
      ground (arith, run, rest, mod-eq_of_lt va_below, mod-eq_of_lt pa_below)

  map_blocks_lem :
      (n fuel : ℕ) (attr : Attributes) (c : Cursor) (rest : ℕ)
      → n < fuel
      → rest < entry_size h
      → BlockRange h n c rest
      → BlocksRun h (map_blocks h write fuel attr c) n attr c rest
  unfolding map_blocks
  map_blocks_lem n zero attr c rest enough lt range = absurd (omega arith)
  map_blocks_lem zero (suc fuel) attr c rest enough lt (aligned, len, below, pa_below, more, pass) =
      (
        c,
        ground (arith, len),
        (
          omega arith,
          omega arith,
          omega (arith, len),
          omega arith,
          BlockMapped-none c.cur_va c.cur_pa attr c.pgtbl,
        ),
      )
  map_blocks_lem (suc n) (suc fuel) attr c rest enough lt
        (aligned, len, below, pa_below, more, pass) =
      let (t, left, run, (fewer, mapped)) =
        writes c.cur_va c.cur_pa attr c.pgtbl c.pages (aligned (omega arith)).0
          (aligned (omega arith)).1 (omega arith) (omega arith)
          (pass c.cur_va (ground (arith, positive))) (omega arith) in
      let (c', run', (va', pa', len', fewer', mapped')) =
        map_blocks_lem n fuel attr (next_cursor h c t left) rest (omega arith) lt (
          λ more. (
            next_aligned c.cur_va (aligned (omega arith)).0,
            next_aligned c.cur_pa (aligned (omega arith)).1,
          ),
          omega (arith, len),
          omega arith,
          omega arith,
          omega (arith, fewer, more),
          λ other i.
              mapped.1 other (ground (arith, i)) (ground (arith, i))
                (pass other (ground (arith, i))),
        ) in
      (
        c',
        map_blocks-round fuel attr c t left (ok c') (omega (arith, len)) (omega arith) (omega arith)
            run run',
        (
          omega (arith, va'),
          omega (arith, pa'),
          len',
          omega (arith, fewer, fewer'),
          BlockMapped-append c.cur_va c.cur_pa (entry_size h) (total (entry_size h) n) attr c.pgtbl
              t c'.pgtbl mapped mapped',
        ),
      )

pub total_2m : (n : ℕ) → total (2 ^ 21) n ≡ 2 ^ 21 * n
total_2m zero = refl
total_2m (suc n) = omega (arith, total_2m n)

pub total_1g : (n : ℕ) → total (2 ^ 30) n ≡ 2 ^ 30 * n
total_1g zero = refl
total_1g (suc n) = omega (arith, total_1g n)

-- A range for blocks: where the length allows a block the addresses are aligned to it.
abbrev pub HugeRange : ℕ → ℕ → ℕ → Ptp → Type 0
HugeRange va pa len t =
    (2 ^ 30 ≤ len → (va % 2 ^ 30 ≡ 0) × (pa % 2 ^ 30 ≡ 0))
    × (2 ^ 21 ≤ len → (va % 2 ^ 21 ≡ 0) × (pa % 2 ^ 21 ≡ 0))
    × Mappable va pa len t

pub map_1g_lem :
    (attr : Attributes) (c : Cursor)
    → HugeRange c.cur_va c.cur_pa c.len c.pgtbl
    → 3 * (c.len / 4096) ≤ c.pages
    → BlocksRun 2
        (map_blocks 2 write_block_1g (1 + c.len / 2 ^ 30) attr c)
        (c.len / 2 ^ 30)
        attr
        c
        (c.len % 2 ^ 30)
map_1g_lem attr c (align, align', (va_aligned, pa_aligned, below, pa_below, pass)) more =
    map_blocks_lem 2 write_block_1g write_block_1g-Writes (omega arith) (omega arith)
      (λ x e. omega arith) (c.len / 2 ^ 30) (1 + c.len / 2 ^ 30) attr c (c.len % 2 ^ 30)
      (omega arith) (omega arith)
      (
        λ some. align (omega arith),
        omega (arith, total_1g (c.len / 2 ^ 30)),
        omega (arith, total_1g (c.len / 2 ^ 30)),
        omega (arith, total_1g (c.len / 2 ^ 30)),
        omega arith,
        λ other i. pass other (ground (arith, i, total_1g (c.len / 2 ^ 30))),
      )

pub map_2m_lem :
    (attr : Attributes) (c : Cursor)
    → HugeRange c.cur_va c.cur_pa c.len c.pgtbl
    → 3 * (c.len / 4096) ≤ c.pages
    → BlocksRun 1
        (map_blocks 1 write_block_2m (1 + c.len / 2 ^ 21) attr c)
        (c.len / 2 ^ 21)
        attr
        c
        (c.len % 2 ^ 21)
map_2m_lem attr c (align, align', (va_aligned, pa_aligned, below, pa_below, pass)) more =
    map_blocks_lem 1 write_block_2m write_block_2m-Writes (omega arith) (omega arith)
      (λ x e. omega arith) (c.len / 2 ^ 21) (1 + c.len / 2 ^ 21) attr c (c.len % 2 ^ 21)
      (omega arith) (omega arith)
      (
        λ some. align' (omega arith),
        omega (arith, total_2m (c.len / 2 ^ 21)),
        omega (arith, total_2m (c.len / 2 ^ 21)),
        omega (arith, total_2m (c.len / 2 ^ 21)),
        omega arith,
        λ other i. pass other (ground (arith, i, total_2m (c.len / 2 ^ 21))),
      )
