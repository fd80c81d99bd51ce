-- ===== src/VmSpace/Mmap/Round.antt =====
-- One round of `unmap_vmrs` in kernel/mm/vmregion.c.
use chcore.Common.{
  Bool-cases, List, Run, arith, false, if◌then◌else◌, inl, inr, length, none, ok, pos, refl, some,
  suc, true, ℕ, ℤ, ◌%◌, ◌*◌, ◌<◌, ◌≡◌, ◌≢◌,
}
use chcore.PageTable.{Ptp}
use chcore.PageTable.Map.{inside}
use chcore.PageTable.Unmap.{HasTables, Unmapped}
use chcore.VmSpace.{
  VmRegion, VmSpace, called, covers, del_vmr_from_vmspace, find_in, flush_tlbs, is_vmr_in,
  pmo_anonym, unmap_range,
}
use chcore.VmSpace.Regions.{AreValid, Fits, find_in-unlink_vmr, found_in, unlink_vmr-AreValid}
use chcore.VmSpace.Mmap.{MmSpace, shrink_vmr, shrunk, unmap_at, write_vmr}
use chcore.VmSpace.Mmap.Shrink.{
  covers-shrunk, find_in-write_vmr, find_in-write_vmr_left, found-Fits, gains, length-unlink_vmr,
  shrunk-Fits, write_vmr-AreValid,
}
use chcore.VmSpace.Mmap.Ptes.{Within, unmap_at-UnmappedAt}

pub gains-none :
    (vs vs' : List VmRegion)
    → ((addr : ℕ) → find_in vs addr ≡ none → find_in vs' addr ≡ none)
    → (addr : ℕ) → gains vs vs' addr ≡ false
gains-none vs vs' h addr = ground (arith, h addr)

pub gains_trans :
    (u v w : List VmRegion)
    → ((addr : ℕ) → gains u v addr ≡ false)
    → ((addr : ℕ) → gains v w addr ≡ false)
    → (addr : ℕ) → gains u w addr ≡ false
gains_trans u v w h k addr = ground (arith, h addr, k addr)

-- The objects of all regions are anonymous.
abbrev pub AllAnonymous : VmSpace → Type 0
AllAnonymous s = (p : ℕ) → (s.pmobject p).type ≡ pmo_anonym

-- What a region of its first pages leaves: those pages are in no region.
abbrev pub RegionsLeft : ℕ → ℕ → VmRegion → VmSpace → VmSpace → Type 0
RegionsLeft va len v s s' =
    AreValid s'.vmr_list
    × ((addr : ℕ) → gains s.vmr_list s'.vmr_list addr ≡ false)
    × ((addr : ℕ)
        → covers v addr ≡ true
        → inside va len addr ≡ true
        → find_in s'.vmr_list addr ≡ none)

module _ (va len n : ℕ) (v : VmRegion) (st : MmSpace) (valid : AreValid st.vmspace.vmr_list)
    (whole : len ≡ 4096 * n) (here : find_in st.vmspace.vmr_list va ≡ some v)
    (lazy : AllAnonymous st.vmspace) (at : va ≡ v.start) (tables : HasTables va len st.pgtbl) where
  pub shrink_vmr-RegionsLeft :
      len < v.size
      → (st' : MmSpace) × (shrink_vmr va len v st ≡ ok (pos 0, st'))
        × RegionsLeft va len v st.vmspace st'.vmspace
        × Unmapped va len st.pgtbl st'.pgtbl
  unfolding shrink_vmr
  shrink_vmr-RegionsLeft lt =
      let vs = st.vmspace.vmr_list in
      let f = found-Fits vs va v valid here in
      let less = covers-shrunk v f len n whole lt in
      let (t', left, run, un) =
        unmap_at-UnmappedAt va len
          (record st {
            vmspace = record st.vmspace { vmr_list = write_vmr v.vmr (shrunk len v) vs };
          })
          (omega (arith, whole)) tables in
      (
        record {
          vmspace = called (flush_tlbs va len) (
              called (unmap_range va len)
                (record st.vmspace { vmr_list = write_vmr v.vmr (shrunk len v) vs }));
          pgtbl = t';
          pages = left;
        },
        ground (arith, at, lazy v.pmo, run),
        (
          write_vmr-AreValid v (shrunk len v) va refl less vs valid here
              (shrunk-Fits v f len n whole lt),
          gains-none vs (write_vmr v.vmr (shrunk len v) vs)
              (find_in-write_vmr v (shrunk len v) va refl less vs valid here),
          λ addr on i.
              find_in-write_vmr_left v (shrunk len v) va less vs valid here addr on
                (not_shrunk f addr i),
        ),
        un,
      )
    where
      not_shrunk :
          Fits v → (addr : ℕ) → inside va len addr ≡ true → covers (shrunk len v) addr ≡ false
      not_shrunk f addr i = ground (arith, f.below, at, i, lt)

-- A larger region that does not start at the range is left alone.
pub shrink_vmr-apart :
    (va len : ℕ) (v : VmRegion) (st : MmSpace)
    → va ≢ v.start
    → shrink_vmr va len v st ≡ ok (pos 0, st)
unfolding shrink_vmr
shrink_vmr-apart va len v st ne = ground (arith, ne)

pub anonymous_del : (r : ℕ) (s : VmSpace) → AllAnonymous s → AllAnonymous (del_vmr_from_vmspace r s)
unfolding del_vmr_from_vmspace
anonymous_del r s h p = elim (Bool-cases (is_vmr_in r s.vmr_list)) [
  | inl listed ↦ rw listed (h p)
  | inr not_listed ↦ rw not_listed (h p)
]

-- What the loop leaves of the regions and of the page table.
abbrev pub LoopLeft : ℕ → ℕ → Run (ℤ × MmSpace) → MmSpace → Type 0
LoopLeft va len run st =
    (st' : MmSpace) × (run ≡ ok (pos 0, st'))
    × AreValid st'.vmspace.vmr_list
    × ((addr : ℕ) → gains st.vmspace.vmr_list st'.vmspace.vmr_list addr ≡ false)
    × Within va len st.pgtbl st'.pgtbl

-- The state after a round that deletes a region.
abbrev pub after_round : ℕ → ℕ → VmRegion → Ptp → ℕ → MmSpace → MmSpace
after_round va len v t left st = record {
  vmspace =
      called (flush_tlbs va len)
        (called (unmap_range va len) (del_vmr_from_vmspace v.vmr st.vmspace));
  pgtbl = t;
  pages = left;
}

-- Regions and page table after a round.
abbrev pub RoundLeft : ℕ → ℕ → VmRegion → Ptp → ℕ → MmSpace → Type 0
RoundLeft va len v t left st =
    (unmap_at va len (record st { vmspace = del_vmr_from_vmspace v.vmr st.vmspace })
      ≡ ok (after_round va len v t left st))
    × Unmapped va len st.pgtbl t
    × AreValid (after_round va len v t left st).vmspace.vmr_list
    × ((addr : ℕ)
        → find_in (after_round va len v t left st).vmspace.vmr_list addr
          ≡ (if covers v addr then none else find_in st.vmspace.vmr_list addr))
    × (suc (length (after_round va len v t left st).vmspace.vmr_list) ≡ length st.vmspace.vmr_list)

pub round_lem :
    (va len : ℕ) (v : VmRegion) (st : MmSpace)
    → AreValid st.vmspace.vmr_list
    → find_in st.vmspace.vmr_list va ≡ some v
    → len % 4096 ≡ 0
    → HasTables va len st.pgtbl
    → (t : Ptp) × (left : ℕ) × RoundLeft va len v t left st
unfolding del_vmr_from_vmspace
round_lem va len v st valid here whole tables =
    let listed = found_in st.vmspace.vmr_list va v here in
    let (t, left, run, un) =
      unmap_at-UnmappedAt va len (record st { vmspace = del_vmr_from_vmspace v.vmr st.vmspace })
        whole tables in
    (
      t,
      left,
      (
        run,
        un,
        rw listed (unlink_vmr-AreValid st.vmspace.vmr_list va v valid here),
        λ addr. rw listed (find_in-unlink_vmr st.vmspace.vmr_list va v valid here addr),
        rw listed (length-unlink_vmr v.vmr st.vmspace.vmr_list listed),
      ),
    )
