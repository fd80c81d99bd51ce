-- ===== src/PageFault/Resolve.antt =====
-- Faults that `handle_trans_fault` of kernel/mm/pgfault_handler.c resolves.
use chcore.Common.{
  Bool, ap, arith, false, if◌then◌else◌, inl, inr, not, ok, pos, refl, some, suc, true, update, ℕ,
  ◌%◌, ◌&&◌, ◌+◌, ◌-◌, ◌/◌, ◌<◌, ◌==◌, ◌^◌, ◌||◌, ◌≡◌, ◌≤◌, ◌⊎◌,
}
use chcore.Radix.{Radix, index}
use chcore.VmSpace.{VmRegion, find_vmr_for_va, pmo_anonym, pmo_shm, u64}
use chcore.PageTable.{Attributes, set_pte_flags, user_pte, vmr_exec}
use chcore.PageTable.Write.{passes_walk, translation}
use chcore.PageTable.Map.{Mappable, inside, map_range_in_pgtbl-Mapped, set_pte_flags_total}
use chcore.PageFault.{
  FaultState, commit_page_to_pmo, get_page_from_pmo, handle_in_vmr, handle_trans_fault, map_page_of,
  page_of,
}

-- The page at `addr` is mapped on `pa`, and every other address of 48 bits as before; the regions are
-- the same.
abbrev pub PageMapped : ℕ → ℕ → ℕ → FaultState → FaultState → Type 0
PageMapped addr pa perm st st' =
    (attr : Attributes) × (set_pte_flags perm user_pte ≡ ok attr)
    × (st'.vmspace ≡ st.vmspace)
    × ((other old : ℕ)
        → other < 2 ^ 48
        → translation st'.pgtbl other old ≡ (
            if inside addr 4096 other
            then some (pa + (other - addr), attr)
            else translation st.pgtbl other old))
    × ((other : ℕ)
        → other < 2 ^ 48
        → passes_walk true other st.pgtbl ≡ true
        → passes_walk true other st'.pgtbl ≡ true)

pub made_on_demand :
    (type : ℕ)
    → (type ≡ pmo_anonym) ⊎ (type ≡ pmo_shm)
    → ((type == pmo_anonym) || (type == pmo_shm)) ≡ true
made_on_demand type (inl e) = ground (arith, e)
made_on_demand type (inr e) = ground (arith, e)

-- A page frame that can be mapped.
abbrev pub GoodFrame : ℕ → Type 0
GoodFrame pa = (0 < pa) × (pa % 4096 ≡ 0) × (pa + 4096 ≤ 2 ^ 48)

module _ (frame : ℕ → ℕ) (own : Bool) where
  -- A page that the object has.
  pub map_page_of-committed :
      (v : VmRegion) (i addr pa : ℕ) (st : FaultState)
      → get_page_from_pmo (st.radix v.pmo) i ≡ pa
      → 0 < pa
      → Mappable addr pa 4096 st.pgtbl
      → 3 ≤ st.pages
      → (st' : FaultState) × (map_page_of frame own v i addr st ≡ ok st')
        × ((st'.radix ≡ st.radix) × ((st.pages ≤ st'.pages + 3) × PageMapped addr pa v.perm st st'))
  unfolding map_page_of
  map_page_of-committed v i addr pa st e more range enough =
      let (attr, set) = set_pte_flags_total v.perm in
      let (t', left, run, (fewer, (query, pass, made))) =
        map_range_in_pgtbl-Mapped st.pgtbl addr pa 4096 v.perm st.pages attr refl set range
          (omega arith) in
      (
        record st { pgtbl = t'; pages = left },
        ground (arith, e, run),
        (refl, (omega arith, (attr, set, refl, query, λ other lt h. pass other true lt h))),
      )

  -- A page that the object has not: the next one is committed and mapped.
  pub map_page_of-fresh :
      (v : VmRegion) (i addr left : ℕ) (st : FaultState) (radix' : Radix)
      → get_page_from_pmo (st.radix v.pmo) i ≡ 0
      → st.pages ≡ suc left
      → (commit_page_to_pmo (st.vmspace.pmobject v.pmo) (st.radix v.pmo) i (frame (suc left))
          ≡ ok radix')
      → Mappable addr (frame (suc left)) 4096 st.pgtbl
      → 3 ≤ left
      → (st' : FaultState) × (map_page_of frame own v i addr st ≡ ok st')
        × ((st'.radix ≡ update st.radix v.pmo radix')
            × ((left ≤ st'.pages + 3) × PageMapped addr (frame (suc left)) v.perm st st'))
  unfolding map_page_of
  map_page_of-fresh v i addr left st radix' e pages commit range enough =
      let (attr, set) = set_pte_flags_total v.perm in
      let (t', left', run, (fewer, (query, pass, made))) =
        map_range_in_pgtbl-Mapped st.pgtbl addr (frame (suc left)) 4096 v.perm left attr refl set
          range (omega arith) in
      (
        record st { radix = update st.radix v.pmo radix'; pgtbl = t'; pages = left' },
        ground (arith, e, pages, commit, run),
        (refl, (omega arith, (attr, set, refl, query, λ other lt h. pass other true lt h))),
      )

  -- A fault in a region of an object whose pages are made on demand: `i` is the page's index.
  abbrev pub Faulting : VmRegion → ℕ → ℕ → FaultState → Type 0
  Faulting v addr i st =
      (find_vmr_for_va st.vmspace addr ≡ some v)
      × (((st.vmspace.pmobject v.pmo).type ≡ pmo_anonym)
          ⊎ ((st.vmspace.pmobject v.pmo).type ≡ pmo_shm))
      × (v.start ≤ page_of addr)
      × (page_of addr - v.start < (st.vmspace.pmobject v.pmo).size)
      × (page_of addr + 4096 ≤ 2 ^ 48)
      × (i ≡ (page_of addr - v.start) / 4096)
      × ((vmr_exec v.perm && not own) ≡ false)
      × ((other : ℕ)
          → inside (page_of addr) 4096 other ≡ true
          → passes_walk true other st.pgtbl ≡ true)

  pub handle_trans_fault-map_page_of :
      (v : VmRegion) (addr i : ℕ) (st st' : FaultState)
      → Faulting v addr i st
      → map_page_of frame own v i (page_of addr) st ≡ ok st'
      → handle_trans_fault frame own addr st ≡ ok (pos 0, st')
  unfolding handle_trans_fault handle_in_vmr
  handle_trans_fault-map_page_of v addr i st st'
        (found, type, start, size, below, index, mine, pass) run =
      ground (
        arith,
        found,
        made_on_demand (st.vmspace.pmobject v.pmo).type type,
        ap (λ n. map_page_of frame own v n (page_of addr) st) (at_index start below index),
        run,
        mine,
        offset_eq start below,
      )
    where
      offset_eq :
          v.start ≤ page_of addr
          → page_of addr + 4096 ≤ 2 ^ 48
          → u64 (page_of addr + 2 ^ 64 - v.start) ≡ page_of addr - v.start
      offset_eq le lt = omega arith

      at_index :
          v.start ≤ page_of addr
          → page_of addr + 4096 ≤ 2 ^ 48
          → i ≡ (page_of addr - v.start) / 4096
          → u64 (page_of addr + 2 ^ 64 - v.start) / 4096 ≡ i
      at_index le lt e = omega arith

  pub Faulting-Mappable :
      (v : VmRegion) (addr i pa : ℕ) (st : FaultState)
      → Faulting v addr i st
      → GoodFrame pa
      → Mappable (page_of addr) pa 4096 st.pgtbl
  Faulting-Mappable v addr i pa st (found, type, start, size, below, index, mine, pass)
        (more, aligned, pa_below) =
      (omega arith, aligned, below, pa_below, pass)
