-- ===== src/VmSpace/Ranges.antt =====
-- `vmspace_map_range` and `vmspace_unmap_range` of kernel/mm/vmregion.c.
use chcore.Common.{
  Bool-cases, arith, false, granted, if◌then◌else◌, inl, inr, later_grants, ltb, none, ok, pos,
  refl, some, true, ℕ, ◌∷◌, ◌≡◌, ◌≢◌,
}
use chcore.VmSpace.{
  VmRegion, VmSpace, add_vmr_to_vmspace, check_vmr_intersect, covers, del_vmr_from_vmspace,
  fill_page_table, find_in, find_vmr_for_va, flush_tlbs, is_mapped_early, is_supported, is_vmr_in,
  page_size, perm_of, round_down, unlink_vmr, unmap_range, vmspace_map_range, vmspace_unmap_range,
}
use chcore.VmSpace.Regions.{
  AreValid, Fits, check-Clear, find_in-unlink_vmr, found_covers, found_in, unlink_vmr-AreValid,
}

-- The region that `vmspace_map_range` makes.
abbrev pub region : ℕ → ℕ → ℕ → ℕ → ℕ → VmSpace → VmRegion
region r va len flags pmo s = record {
  vmr = r;
  start = round_down va;
  size = if ltb len page_size then page_size else len;
  perm = perm_of (s.pmobject pmo).type flags;
  pmo = pmo;
}

-- Where a lookup leads once the region is added.
abbrev pub AddsRegion : VmRegion → VmSpace → VmSpace → Type 0
AddsRegion v s s' =
    (addr : ℕ)
    → find_vmr_for_va s' addr ≡ (if covers v addr then some v else find_vmr_for_va s addr)

-- Let the regions be valid (whole pages, no overlap), the number of the new one be fresh, the
-- object's type be supported and the heap serve the request. If the new region is of whole pages
-- below 2^64 and check_vmr_intersect finds nothing, mapping it returns 0: the regions stay valid,
-- and exactly the addresses of the new one lead to it.
pub vmspace_map_range-AreValid :
    (r va len flags pmo : ℕ) (s : VmSpace)
    → AreValid s.vmr_list
    → is_vmr_in r s.vmr_list ≡ false
    → Fits (region r va len flags pmo s)
    → is_supported (s.pmobject pmo).type ≡ true
    → granted s.grants ≡ true
    → check_vmr_intersect s.vmr_list (region r va len flags pmo s) ≡ false
    → (s' : VmSpace) × (vmspace_map_range r va len flags pmo s ≡ ok (pos 0, s'))
      × AreValid s'.vmr_list
      × AddsRegion (region r va len flags pmo s) s s'
unfolding vmspace_map_range add_vmr_to_vmspace find_vmr_for_va find_in fill_page_table
vmspace_map_range-AreValid r va len flags pmo s valid fresh f supported more apart =
    let v = region r va len flags pmo s in
    let clear = check-Clear v s.vmr_list f valid apart in
    let s1 : VmSpace = record s { vmr_list = v ∷ s.vmr_list; grants = later_grants s.grants } in
    elim (Bool-cases (is_mapped_early (s.pmobject pmo).type)) [
      | inl early ↦ (
        fill_page_table v s1,
        ground (arith, supported, more, apart, early),
        (f, fresh, clear, valid),
        λ addr. refl,
      )
      | inr late ↦
          (s1, ground (arith, supported, more, apart, late), (f, fresh, clear, valid), λ addr. refl)
    ]

-- In a space of valid regions, unmapping a whole region from its start returns 0: exactly its
-- addresses lead to no region any more, the regions stay valid, and the last two calls clear page
-- table and TLB over the range.
pub vmspace_unmap_range-AreValid :
    (va : ℕ) (v : VmRegion) (s : VmSpace)
    → AreValid s.vmr_list
    → find_vmr_for_va s va ≡ some v
    → va ≡ v.start
    → (s' : VmSpace) × (vmspace_unmap_range va v.size s ≡ ok (pos 0, s'))
      × AreValid s'.vmr_list
      × ((addr : ℕ)
          → find_vmr_for_va s' addr ≡ (if covers v addr then none else find_vmr_for_va s addr))
      × (s'.calls ≡ flush_tlbs va v.size ∷ unmap_range va v.size ∷ s.calls)
unfolding vmspace_unmap_range find_vmr_for_va del_vmr_from_vmspace
vmspace_unmap_range-AreValid va v s valid h at =
    let listed = found_in s.vmr_list va v h in
    let some_size : v.size ≢ 0 = λ e. ground (arith, found_covers s.vmr_list va v h, at) in
    (
      record s {
        vmr_list = unlink_vmr v.vmr s.vmr_list;
        calls = flush_tlbs va v.size ∷ unmap_range va v.size ∷ s.calls;
      },
      ground (arith, h, listed, at, some_size),
      unlink_vmr-AreValid s.vmr_list va v valid h,
      find_in-unlink_vmr s.vmr_list va v valid h,
      refl,
    )
