-- ===== src/PageTable/Free.antt =====
-- `free_page_table` of kernel/arch/aarch64/mm/page_table.c, and that mapping loses no page.
use chcore.Common.{
  Bool, Bool-cases, Run, Run-cases, arith, bug, false, inl, inr, ltb, none, ok, pos, refl, some,
  suc, sym, true, update, zero, ℕ, ℕ_discrete, ℤ, ◌%◌, ◌+◌, ◌/◌, ◌<◌, ◌^◌, ◌∙◌, ◌≡◌, ◌≤◌, ◌⊎◌,
}
use chcore.PageTable.{
  Attributes, Entry, Nest, PageTable3, Ptp, block, get_next_ptp, index, invalid, map_pages,
  map_range_in_pgtbl, no_mapping, normal_ptp, set_page, table, unmap_pages, unmap_range_in_pgtbl,
  walk, zeroed3, zeroed_nest,
}
use chcore.PageTable.Walk.{Entry-cases}
use chcore.PageTable.Map.{map_range_in_pgtbl-map_pages, page_at, set_pte_flags_total}
use mathlib.Core.Path.{subst}

pub sum_below : ℕ → (ℕ → ℕ) → ℕ
sum_below zero f = 0
sum_below (suc n) f = f n + sum_below n f

-- The calls of `free_pages` for an entry: none unless it is valid and a table.
abbrev freed_entry : {T : Type 0} → (T → ℕ) → Entry T → ℕ
freed_entry freed invalid = 0
freed_entry freed (table t) = freed t
freed_entry freed (block page) = 0

-- The calls of `free_pages` for a table and those below it: the loop over its entries, then itself.
pub freed_tables : (n : ℕ) → Nest n PageTable3 → ℕ
freed_tables zero t = 1
freed_tables (suc n) t = sum_below 512 (λ i. freed_entry (freed_tables n) (t i)) + 1

-- The pages that can be had after the tables were freed.
pub free_page_table : Ptp → ℕ → ℕ
free_page_table pgtbl pages = pages + freed_tables 3 pgtbl

sum-update_above : (n i a : ℕ) (f : ℕ → ℕ) → n ≤ i → sum_below n (update f i a) ≡ sum_below n f
unfolding sum_below
sum-update_above zero i a f le = refl
sum-update_above (suc n) i a f le = ground (arith, sum-update_above n i a f (omega arith))

sum-update : (n i a : ℕ) (f : ℕ → ℕ) → i < n → sum_below n (update f i a) + f i ≡ sum_below n f + a
unfolding sum_below
sum-update zero i a f lt = absurd (omega arith)
sum-update (suc n) i a f lt = elim (ℕ_discrete n i) [
  | yes e ↦ ground (arith, e, sum-update_above n i a f (omega arith))
  | no ne ↦ ground (arith, sum-update n i a f (omega arith))
]

sum_zero : (n : ℕ) → sum_below n (λ i. 0) ≡ 0
unfolding sum_below
sum_zero zero = refl
sum_zero (suc n) = omega (arith, sum_zero n)

freed-zeroed_nest : (n : ℕ) → freed_tables n (zeroed_nest zeroed3 n) ≡ 1
unfolding freed_tables
freed-zeroed_nest zero = refl
freed-zeroed_nest (suc n) = omega (arith, sum_zero 512)

sum_ext : (n : ℕ) (f g : ℕ → ℕ) → ((i : ℕ) → f i ≡ g i) → sum_below n f ≡ sum_below n g
unfolding sum_below
sum_ext zero f g same = refl
sum_ext (suc n) f g same = omega (arith, same n, sum_ext n f g same)

-- The entry written with a table.
freed-update :
    (n i : ℕ) (t : Nest (suc n) PageTable3) (child : Nest n PageTable3)
    → i < 512
    → freed_tables (suc n) (update t i (table child)) + freed_entry (freed_tables n) (t i)
      ≡ freed_tables (suc n) t + freed_tables n child
unfolding freed_tables
freed-update n i t child lt = omega (
  arith,
  sum-update 512 i (freed_tables n child) (λ j. freed_entry (freed_tables n) (t j)) lt,
  sum_ext 512 (λ j. freed_entry (freed_tables n) (update t i (table child) j))
      (update (λ j. freed_entry (freed_tables n) (t j)) i (freed_tables n child))
      (λ j. ground arith),
)

-- A run keeps the number of pages: those left and those that freeing its table gives back.
abbrev Kept : (n : ℕ) → ℕ → Run (Nest n PageTable3 × ℕ) → Type 0
Kept n sum bug = Unit
Kept n sum (ok (t, left)) = left + freed_tables n t ≡ sum

Kept-bug : (n sum : ℕ) (run : Run (Nest n PageTable3 × ℕ)) → run ≡ bug → Kept n sum run
Kept-bug n sum run e = subst (Kept n sum) (sym e) tt

Kept-ok :
    (n sum : ℕ) (run : Run (Nest n PageTable3 × ℕ)) (t : Nest n PageTable3) (left : ℕ)
    → run ≡ ok (t, left)
    → left + freed_tables n t ≡ sum
    → Kept n sum run
Kept-ok n sum run t left e kept = subst (Kept n sum) (sym e) kept

-- What `get_next_ptp` does with an invalid entry.
invalid-cases :
    {T : Type 0} (t : T) (alloc : Bool) (pages : ℕ)
    → ((get_next_ptp t invalid alloc pages ≡ bug)
        ⊎ (get_next_ptp t invalid alloc pages ≡ ok (no_mapping, pages)))
      ⊎ ((left : ℕ) × (get_next_ptp t invalid alloc pages ≡ ok (normal_ptp t, left))
          × (pages ≡ suc left))
unfolding get_next_ptp
invalid-cases t false pages = inl (inr refl)
invalid-cases t true zero = inl (inl refl)
invalid-cases t true (suc pages) = inr (pages, refl, refl)

-- What a walk below an entry keeps, the walk keeps.
Kept-below :
    (alloc : Bool) (h n va : ℕ) (set : PageTable3 → PageTable3) (t : Nest (suc n) PageTable3)
    (child : Nest n PageTable3) (pages left : ℕ)
    → (get_next_ptp (zeroed_nest zeroed3 n) (t (index (h + suc n) va)) alloc pages
        ≡ ok (normal_ptp child, left))
    → left + freed_tables n child ≡ pages + freed_entry (freed_tables n) (t (index (h + suc n) va))
    → Kept n (left + freed_tables n child) (walk zeroed3 alloc h n va set child left)
    → Kept (suc n) (pages + freed_tables (suc n) t) (walk zeroed3 alloc h (suc n) va set t pages)
unfolding walk
Kept-below alloc h n va set t child pages left next same kept =
    elim (Run-cases (walk zeroed3 alloc h n va set child left)) [
      | inl e ↦
          Kept-bug (suc n) (pages + freed_tables (suc n) t)
            (walk zeroed3 alloc h (suc n) va set t pages) (ground (arith, next, e))
      | inr ((child', left'), e) ↦
          Kept-ok (suc n) (pages + freed_tables (suc n) t)
            (walk zeroed3 alloc h (suc n) va set t pages)
            (update t (index (h + suc n) va) (table child')) left' (ground (arith, next, e))
            (omega (
              arith,
              subst (Kept n (left + freed_tables n child)) e kept,
              same,
              freed-update n (index (h + suc n) va) t child' (omega arith),
            ))
    ]

walk-Kept :
    (alloc : Bool) (h n va : ℕ) (set : PageTable3 → PageTable3) (t : Nest n PageTable3) (pages : ℕ)
    → Kept n (pages + freed_tables n t) (walk zeroed3 alloc h n va set t pages)
unfolding walk get_next_ptp freed_tables
walk-Kept alloc h zero va set t pages = refl
walk-Kept alloc h (suc n) va set t pages = elim (Entry-cases (t (index (h + suc n) va))) [
  | inr (inr (page, e)) ↦
      Kept-bug (suc n) (pages + freed_tables (suc n) t)
        (walk zeroed3 alloc h (suc n) va set t pages) (ground (arith, e))
  | inr (inl (child, e)) ↦
      Kept-below alloc h n va set t child pages pages (ground (arith, e)) (ground (arith, e))
        (walk-Kept alloc h n va set child pages)
  | inl e ↦ elim (invalid-cases (zeroed_nest zeroed3 n) alloc pages) [
    | inl (inl stop) ↦
        Kept-bug (suc n) (pages + freed_tables (suc n) t)
          (walk zeroed3 alloc h (suc n) va set t pages) (ground (arith, e, stop))
    | inl (inr stop) ↦
        Kept-bug (suc n) (pages + freed_tables (suc n) t)
          (walk zeroed3 alloc h (suc n) va set t pages) (ground (arith, e, stop))
    | inr (left, next, one) ↦
        Kept-below alloc h n va set t (zeroed_nest zeroed3 n) pages left (ground (arith, e, next))
          (ground (arith, e, one, freed-zeroed_nest n))
          (walk-Kept alloc h n va set (zeroed_nest zeroed3 n) left)
  ]
]

abbrev KeptRun : ℕ → Run (ℤ × Ptp × ℕ) → Type 0
KeptRun sum bug = Unit
KeptRun sum (ok (r, t, left)) = free_page_table t left ≡ sum

walk-free_page_table :
    (alloc : Bool) (va : ℕ) (set : PageTable3 → PageTable3) (t t' : Ptp) (pages left : ℕ)
    → walk zeroed3 alloc 0 3 va set t pages ≡ ok (t', left)
    → free_page_table t' left ≡ free_page_table t pages
unfolding free_page_table
walk-free_page_table alloc va set t t' pages left e =
    subst (Kept 3 (pages + freed_tables 3 t)) e (walk-Kept alloc 0 3 va set t pages)

KeptRun-eq :
    (sum sum' : ℕ) (run run' : Run (ℤ × Ptp × ℕ))
    → run ≡ run'
    → sum' ≡ sum
    → KeptRun sum' run'
    → KeptRun sum run
KeptRun-eq sum sum' run run' e e' kept =
    subst (KeptRun sum) (sym e) (subst (λ z. KeptRun z run') e' kept)

map_pages-Kept :
    (fuel : ℕ) (t : Ptp) (va pa cursor len : ℕ) (attr : Attributes) (pages : ℕ)
    → KeptRun (free_page_table t pages) (map_pages fuel t va pa cursor len attr pages)
unfolding map_pages
map_pages-Kept zero t va pa cursor len attr pages = tt
map_pages-Kept (suc fuel) t va pa cursor len attr pages = elim (Bool-cases (ltb cursor len)) [
  | inr e ↦
      KeptRun-eq _ _ (map_pages (suc fuel) t va pa cursor len attr pages) (ok (pos 0, t, pages))
        (ground (arith, e)) refl refl
  | inl e ↦
      elim (Run-cases (walk zeroed3 true 0 3 va (set_page va (some (page_at pa attr))) t pages)) [
        | inl stop ↦
            KeptRun-eq _ (free_page_table t pages)
              (map_pages (suc fuel) t va pa cursor len attr pages) bug (ground (arith, e, stop))
              refl tt
        | inr ((t', left), run) ↦
            KeptRun-eq _ _ (map_pages (suc fuel) t va pa cursor len attr pages)
              (map_pages fuel t' ((va + 4096) % 2 ^ 64) ((pa + 4096) % 2 ^ 64)
                ((cursor + 4096) % 2 ^ 64) len attr left)
              (ground (arith, e, run))
              (walk-free_page_table true va (set_page va (some (page_at pa attr))) t t' pages left
                run)
              (map_pages-Kept fuel t' ((va + 4096) % 2 ^ 64) ((pa + 4096) % 2 ^ 64)
                ((cursor + 4096) % 2 ^ 64) len attr left)
      ]
]

unmap_pages-Kept :
    (fuel : ℕ) (t : Ptp) (va cursor len pages : ℕ)
    → KeptRun (free_page_table t pages) (unmap_pages fuel t va cursor len pages)
unfolding unmap_pages
unmap_pages-Kept zero t va cursor len pages = tt
unmap_pages-Kept (suc fuel) t va cursor len pages = elim (Bool-cases (ltb cursor len)) [
  | inr e ↦
      KeptRun-eq _ _ (unmap_pages (suc fuel) t va cursor len pages) (ok (pos 0, t, pages))
        (ground (arith, e)) refl refl
  | inl e ↦ elim (Run-cases (walk zeroed3 false 0 3 va (set_page va none) t pages)) [
    | inl stop ↦
        KeptRun-eq _ (free_page_table t pages) (unmap_pages (suc fuel) t va cursor len pages) bug
          (ground (arith, e, stop)) refl tt
    | inr ((t', left), run) ↦
        KeptRun-eq _ _ (unmap_pages (suc fuel) t va cursor len pages)
          (unmap_pages fuel t' ((va + 4096) % 2 ^ 64) ((cursor + 4096) % 2 ^ 64) len left)
          (ground (arith, e, run))
          (walk-free_page_table false va (set_page va none) t t' pages left run)
          (unmap_pages-Kept fuel t' ((va + 4096) % 2 ^ 64) ((cursor + 4096) % 2 ^ 64) len left)
  ]
]

-- Whenever map_range_in_pgtbl returns, freeing the whole page table leaves as many pages to be had
-- as it would have before the mapping: no page that was taken for a table is lost.
pub free_page_table-map_range_in_pgtbl :
    (t t' : Ptp) (va pa len flags pages left : ℕ) (r : ℤ)
    → map_range_in_pgtbl t va pa len flags pages ≡ ok (r, t', left)
    → free_page_table t' left ≡ free_page_table t pages
unfolding map_range_in_pgtbl
free_page_table-map_range_in_pgtbl t t' va pa len flags pages left r e =
    let (attr, set) = set_pte_flags_total flags in
    subst (KeptRun (free_page_table t pages))
      (map_range_in_pgtbl-map_pages t va pa len flags pages attr set ∙ e)
      (map_pages-Kept (2 + len / 4096) t va pa 0 len attr pages)

pub free_page_table-unmap_range_in_pgtbl :
    (t t' : Ptp) (va len pages left : ℕ) (r : ℤ)
    → unmap_range_in_pgtbl t va len pages ≡ ok (r, t', left)
    → free_page_table t' left ≡ free_page_table t pages
unfolding unmap_range_in_pgtbl
free_page_table-unmap_range_in_pgtbl t t' va len pages left r e =
    subst (KeptRun (free_page_table t pages)) e (unmap_pages-Kept (2 + len / 4096) t va 0 len pages)
