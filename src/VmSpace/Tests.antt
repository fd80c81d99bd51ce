-- ===== src/VmSpace/Tests.antt =====
-- Tests of kernel/mm/vmregion.c on a space with one region of two pages.
use chcore.Common.{[], arith, enoent, false, neg, ok, pos, refl, true, ◌∷◌, ◌≡◌}
use chcore.VmSpace.{
  VmRegion, VmSpace, check_vmr_intersect, find_in, find_pmo, is_vmr_in, meets_one,
  unmap_pmo_in_vmspace, vmspace_map_range,
}
use chcore.VmSpace.Regions.{AreValid, Fits}
use chcore.VmSpace.Ranges.{AddsRegion, region, vmspace_map_range-AreValid}

abbrev code : VmRegion
code = record { vmr = 1; start = 0x10000; size = 0x2000; perm = 5; pmo = 0 }

abbrev one_region : VmSpace
one_region = record {
  vmr_list = code ∷ [];
  user_current_mmap_addr = 0x700000000000;
  pmobject = λ p. record { start = 0x80000; size = 0x2000; type = 1 };
  calls = [];
  grants = true ∷ [];
}

code-Fits : Fits code
code-Fits = record { first_page = 16; pages = 2; aligned = refl; whole = refl; below = omega arith }

one_region-AreValid : AreValid one_region.vmr_list
unfolding is_vmr_in find_in
one_region-AreValid = (code-Fits, refl, (λ addr c. refl), tt)

-- A region of one page right behind the first.
data_page-Fits : Fits (region 2 0x12345 10 3 0 one_region)
data_page-Fits = record {
  first_page = 18;
  pages = 1;
  aligned = refl;
  whole = refl;
  below = omega arith;
}

vmspace_map_range-AreValid_example :
    (s' : VmSpace) × (vmspace_map_range 2 0x12345 10 3 0 one_region ≡ ok (pos 0, s'))
    × AreValid s'.vmr_list
    × AddsRegion (region 2 0x12345 10 3 0 one_region) one_region s'
unfolding is_vmr_in check_vmr_intersect meets_one
vmspace_map_range-AreValid_example =
    vmspace_map_range-AreValid 2 0x12345 10 3 0 one_region one_region-AreValid refl data_page-Fits
      refl refl refl

-- The last byte of a new region may be the first of an old one.
overlap_test :
    check_vmr_intersect
      (code ∷ [])
      (record { vmr = 2; start = 0xf000; size = 0x1001; perm = 3; pmo = 0 })
    ≡ false
unfolding check_vmr_intersect meets_one
overlap_test = refl

unmap_pmo_test : (unmap_pmo_in_vmspace 0 one_region).0 ≡ pos 0
unfolding unmap_pmo_in_vmspace find_pmo
unmap_pmo_test = refl

unmap_pmo_none_test : unmap_pmo_in_vmspace 3 one_region ≡ (neg enoent, one_region)
unfolding unmap_pmo_in_vmspace find_pmo
unmap_pmo_none_test = refl
