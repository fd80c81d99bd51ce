-- ===== src/VmSpace/Mmap/Munmap.antt =====
-- `vmspace_munmap_with_addr` of kernel/mm/vmregion.c, over the regions and the page table.
use chcore.Common.{
  Bool-cases, List, Option-cases, ap, arith, false, if◌then◌else◌, inl, inr, length, ltb, none, ok,
  pos, some, suc, zero, ℕ, ℕ_discrete, ◌*◌, ◌+◌, ◌-◌, ◌<◌, ◌^◌, ◌∙◌, ◌≡◌, ◌≢◌, ◌≤◌,
}
use chcore.PageTable.{Ptp}
use chcore.PageTable.Unmap.{HasTables}
use chcore.VmSpace.{VmRegion, covers, del_vmr_from_vmspace, find_in, find_vmr_for_va, u64}
use chcore.VmSpace.Regions.{AreValid}
use chcore.VmSpace.Mmap.{MmSpace, unmap_at, unmap_loop, vmspace_munmap_with_addr}
use chcore.VmSpace.Mmap.Shrink.{found-Fits, gains}
use chcore.VmSpace.Mmap.Ptes.{
  HasTables-later, PagesGone, PagesGone-Within, Unmapped-Within, Unmapped-rest, Within-refl,
}
use chcore.VmSpace.Mmap.Round.{
  AllAnonymous, LoopLeft, RegionsLeft, RoundLeft, after_round, anonymous_del, gains-none,
  gains_trans, round_lem, shrink_vmr-RegionsLeft, shrink_vmr-apart,
}
use mathlib.Core.Path.{ap₂}

gains-covered :
    (v : VmRegion) (vs vs' : List VmRegion)
    → ((addr : ℕ) → find_in vs' addr ≡ (if covers v addr then none else find_in vs addr))
    → (addr : ℕ) → gains vs vs' addr ≡ false
gains-covered v vs vs' lost = gains-none vs vs' λ addr h. ground (arith, lost addr, h)

-- The range is unmapped: its pages in the region are in no region, and no page of it is mapped.
abbrev pub RangeUnmapped : (VmRegion → ℕ) → ℕ → ℕ → VmRegion → MmSpace → Type 0
RangeUnmapped size_after_free va len v st =
    (st' : MmSpace) × (vmspace_munmap_with_addr size_after_free va len st ≡ ok (pos 0, st'))
    × RegionsLeft va len v st.vmspace st'.vmspace
    × PagesGone va len st.pgtbl st'.pgtbl

module _ (size_after_free : VmRegion → ℕ) (kept : (v : VmRegion) → size_after_free v ≡ v.size) where
  unmap_loop-round :
      (f va len left : ℕ) (v : VmRegion) (t : Ptp) (st : MmSpace)
      → len ≢ 0
      → find_in st.vmspace.vmr_list va ≡ some v
      → ltb len v.size ≡ false
      → va + v.size < 2 ^ 64
      → len < 2 ^ 64
      → unmap_at va len (record st { vmspace = del_vmr_from_vmspace v.vmr st.vmspace })
        ≡ ok (after_round va len v t left st)
      → unmap_loop size_after_free (suc f) va len st
        ≡ unmap_loop size_after_free f (va + v.size) (len - v.size) (after_round va len v t left st)
  unfolding unmap_loop find_vmr_for_va
  unmap_loop-round f va len left v t st ne here ge below small run =
      let next : u64 (va + size_after_free v) ≡ va + v.size =
        ap (λ z. u64 (va + z)) (kept v) ∙ omega arith in
      let less : u64 (len + 2 ^ 64 - size_after_free v) ≡ len - v.size =
        ap (λ z. u64 (len + 2 ^ 64 - z)) (kept v) ∙ ground (arith, ge) in
      ground (arith, here, ne, ge, run)
      ∙ ap₂ (λ a b. unmap_loop size_after_free f a b (after_round va len v t left st)) next less

  -- A round and the rest.
  LoopLeft-round :
      (f va len left : ℕ) (v : VmRegion) (t : Ptp) (st : MmSpace)
      → len ≢ 0
      → find_in st.vmspace.vmr_list va ≡ some v
      → ltb len v.size ≡ false
      → va + v.size < 2 ^ 64
      → len < 2 ^ 64
      → RoundLeft va len v t left st
      → LoopLeft
          (va + v.size)
          (len - v.size)
          (unmap_loop size_after_free f
            (va + v.size)
            (len - v.size)
            (after_round va len v t left st))
          (after_round va len v t left st)
      → (st' : MmSpace) × (unmap_loop size_after_free (suc f) va len st ≡ ok (pos 0, st'))
        × RegionsLeft va len v st.vmspace st'.vmspace
        × PagesGone va len st.pgtbl st'.pgtbl
  LoopLeft-round f va len left v t st ne here ge below small (run, un, valid, lost, fewer)
        (st', rest, valid', gained, within) =
      (
        st',
        unmap_loop-round f va len left v t st ne here ge below small run ∙ rest,
        (
          valid',
          gains_trans st.vmspace.vmr_list (after_round va len v t left st).vmspace.vmr_list
              st'.vmspace.vmr_list
              (gains-covered v st.vmspace.vmr_list (after_round va len v t left st).vmspace.vmr_list
                lost)
              gained,
          λ addr on i. ground (arith, gained addr, lost addr, on),
        ),
        Unmapped-rest va len v.size st.pgtbl t st'.pgtbl (ground (arith, ge)) un within,
      )

  unmap_loop-LoopLeft :
      (f va len n : ℕ) (st : MmSpace)
      → AreValid st.vmspace.vmr_list
      → AllAnonymous st.vmspace
      → len ≡ 4096 * n
      → HasTables va len st.pgtbl
      → length st.vmspace.vmr_list < f
      → LoopLeft va len (unmap_loop size_after_free f va len st) st
  unfolding unmap_loop find_vmr_for_va
  unmap_loop-LoopLeft zero va len n st valid lazy whole tables fuel = absurd (omega arith)
  unmap_loop-LoopLeft (suc f) va len n st valid lazy whole tables fuel = elim (ℕ_discrete len 0) [
    | yes e ↦ (st, ground (arith, e), valid, λ addr. ground arith, Within-refl va len st.pgtbl)
    | no ne ↦ elim (Option-cases (find_in st.vmspace.vmr_list va)) [
      | inl e ↦
          (st, ground (arith, e, ne), valid, λ addr. ground arith, Within-refl va len st.pgtbl)
      | inr (v, e) ↦ elim (Bool-cases (ltb len v.size)) [
        | inl lt ↦ elim (ℕ_discrete va v.start) [
          | no apart ↦ (
            st,
            ground (arith, e, ne, lt, shrink_vmr-apart va len v st apart),
            valid,
            λ addr. ground arith,
            Within-refl va len st.pgtbl,
          )
          | yes at ↦
              let (st', run, (valid', gained, left), un) =
                shrink_vmr-RegionsLeft va len n v st valid whole e lazy at tables
                  (ground (arith, lt)) in
              (
                st',
                ground (arith, e, ne, lt, run),
                valid',
                gained,
                Unmapped-Within va len st.pgtbl st'.pgtbl un,
              )
        ]
        | inr ge ↦
            let (t, left, r) = round_lem va len v st valid e (omega (arith, whole)) tables in
            let g = found-Fits st.vmspace.vmr_list va v valid e in
            let (st', run, (valid', gained, gone), pages) =
              LoopLeft-round f va len left v t st ne e ge (omega (arith, tables.1, ge_of ge))
                (omega (arith, tables.1)) r
                (unmap_loop-LoopLeft f (va + v.size) (len - v.size) (n - g.pages)
                  (after_round va len v t left st) r.2 (lazy_after v t left lazy)
                  (omega (arith, whole, g.whole))
                  (HasTables-later va len v.size st.pgtbl t (ge_of ge) (omega (arith, g.whole))
                    tables r.1)
                  (omega (arith, r.4))) in
            (st', run, valid', gained, PagesGone-Within va len st.pgtbl st'.pgtbl pages)
      ]
    ]
  ]
    where
      ge_of : {a b : ℕ} → ltb a b ≡ false → b ≤ a
      ge_of e = ground (arith, e)

      lazy_after :
          (v : VmRegion) (t : Ptp) (left : ℕ)
          → AllAnonymous st.vmspace
          → AllAnonymous (after_round va len v t left st).vmspace
      lazy_after v t left h = anonymous_del v.vmr st.vmspace h

  -- In a space of valid regions whose objects are all anonymous, let a range of whole pages, not
  -- empty and below 2^48, begin where a region begins, let the tables of its pages be there, and
  -- let the size of a freed region still be read as it was. Unmapping it returns 0; the regions
  -- stay valid, no address of the range in that region leads to a region, and none gains one.
  -- Nothing in the range is mapped, and every other address of 48 bits translates as before.
  pub vmspace_munmap_with_addr-RegionsLeft :
      (va len n : ℕ) (v : VmRegion) (st : MmSpace)
      → AreValid st.vmspace.vmr_list
      → AllAnonymous st.vmspace
      → len ≡ 4096 * n
      → 0 < len
      → HasTables va len st.pgtbl
      → find_in st.vmspace.vmr_list va ≡ some v
      → va ≡ v.start
      → RangeUnmapped size_after_free va len v st
  unfolding vmspace_munmap_with_addr unmap_loop find_vmr_for_va
  vmspace_munmap_with_addr-RegionsLeft va len n v st valid lazy whole more tables e at =
      elim (Bool-cases (ltb len v.size)) [
        | inl lt ↦
            let (st', run, regions, un) =
              shrink_vmr-RegionsLeft va len n v st valid whole e lazy at tables
                (ground (arith, lt)) in
            (st', ground (arith, e, more, lt, run), regions, un.0)
        | inr ge ↦
            let (t, left, r) = round_lem va len v st valid e (omega (arith, whole)) tables in
            let g = found-Fits st.vmspace.vmr_list va v valid e in
            LoopLeft-round (length st.vmspace.vmr_list) va len left v t st (omega (arith, more)) e
              ge (omega (arith, tables.1, ge_of ge)) (omega (arith, tables.1)) r
              (unmap_loop-LoopLeft (length st.vmspace.vmr_list) (va + v.size) (len - v.size)
                (n - g.pages) (after_round va len v t left st) r.2
                (anonymous_del v.vmr st.vmspace lazy) (omega (arith, whole, g.whole))
                (HasTables-later va len v.size st.pgtbl t (ge_of ge) (omega (arith, g.whole)) tables
                  r.1)
                (omega (arith, r.4)))
      ]
    where
      ge_of : {a b : ℕ} → ltb a b ≡ false → b ≤ a
      ge_of e = ground (arith, e)
