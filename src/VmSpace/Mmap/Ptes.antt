-- ===== src/VmSpace/Mmap/Ptes.antt =====
-- The page table in `unmap_vmrs` of kernel/mm/vmregion.c.
use chcore.Common.{
  Bool-cases, arith, false, if◌then◌else◌, inl, inr, none, ok, refl, ℕ, ◌%◌, ◌+◌, ◌-◌, ◌<◌, ◌^◌,
  ◌∙◌, ◌≡◌, ◌≤◌,
}
use chcore.PageTable.{Ptp}
use chcore.PageTable.Write.{translation}
use chcore.PageTable.Map.{inside}
use chcore.PageTable.Unmap.{HasTables, Unmapped, unmap_range_in_pgtbl-Unmapped}
use chcore.VmSpace.{called, flush_tlbs, unmap_range}
use chcore.VmSpace.Mmap.{MmSpace, unmap_at}

-- Nothing new is mapped in the range, and nothing else is changed.
abbrev pub Within : ℕ → ℕ → Ptp → Ptp → Type 0
Within va len t t' =
    ((other old : ℕ)
      → other < 2 ^ 48
      → inside va len other ≡ false
      → translation t' other old ≡ translation t other old)
    × ((other old : ℕ)
        → other < 2 ^ 48
        → translation t other old ≡ none
        → translation t' other old ≡ none)

pub Within-refl : (va len : ℕ) (t : Ptp) → Within va len t t
Within-refl va len t = (λ other old lt out. refl, λ other old lt free. free)

pub Unmapped-Within : (va len : ℕ) (t t' : Ptp) → Unmapped va len t t' → Within va len t t'
Unmapped-Within va len t t' (query, pass) = (
  λ other old lt out. ground (arith, query other old lt, out),
  λ other old lt free. ground (arith, query other old lt, free),
)

-- A rest of the range is unmapped as far as the code goes.
pub Unmapped-rest :
    (va len size : ℕ) (t t' t'' : Ptp)
    → size ≤ len
    → Unmapped va len t t'
    → Within (va + size) (len - size) t' t''
    → ((other old : ℕ)
        → other < 2 ^ 48
        → translation t'' other old
          ≡ (if inside va len other then none else translation t other old))
Unmapped-rest va len size t t' t'' le (query, pass) (kept, gone) other old lt =
    elim (Bool-cases (inside va len other)) [
      | inl i ↦ gone other old lt (ground (arith, query other old lt, i)) ∙ ground (arith, i)
      | inr out ↦ kept other old lt (smaller out) ∙ query other old lt
    ]
  where
    smaller : inside va len other ≡ false → inside (va + size) (len - size) other ≡ false
    smaller out = ground (arith, out, le)

pub HasTables-later :
    (va len size : ℕ) (t t' : Ptp)
    → size ≤ len
    → size % 4096 ≡ 0
    → HasTables va len t
    → Unmapped va len t t'
    → HasTables (va + size) (len - size) t'
HasTables-later va len size t t' le whole (aligned, below, pass) (query, pass') =
    (omega arith, omega arith, λ other i. pass' other false (pass other (ground (arith, i, le))))

-- What the page table and the regions are after `unmap_at`.
abbrev pub UnmappedAt : ℕ → ℕ → MmSpace → Type 0
UnmappedAt va len st =
    (t' : Ptp) × (left : ℕ) × (unmap_at va len st
      ≡ ok (record {
        vmspace = called (flush_tlbs va len) (called (unmap_range va len) st.vmspace);
        pgtbl = t';
        pages = left;
      }))
    × Unmapped va len st.pgtbl t'

pub unmap_at-UnmappedAt :
    (va len : ℕ) (st : MmSpace) → len % 4096 ≡ 0 → HasTables va len st.pgtbl → UnmappedAt va len st
unfolding unmap_at
unmap_at-UnmappedAt va len st whole tables =
    let (t', left, run, un) = unmap_range_in_pgtbl-Unmapped st.pgtbl va len st.pages whole tables in
    (t', left, ground (arith, run), un)

-- What the page table translates after the range is unmapped.
abbrev pub PagesGone : ℕ → ℕ → Ptp → Ptp → Type 0
PagesGone va len t t' =
    (other old : ℕ)
    → other < 2 ^ 48
    → translation t' other old ≡ (if inside va len other then none else translation t other old)

pub PagesGone-Within : (va len : ℕ) (t t' : Ptp) → PagesGone va len t t' → Within va len t t'
PagesGone-Within va len t t' gone = (
  λ other old lt out. ground (arith, gone other old lt, out),
  λ other old lt free. ground (arith, gone other old lt, free),
)
