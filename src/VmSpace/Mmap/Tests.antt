-- ===== src/VmSpace/Mmap/Tests.antt =====
-- Tests of the calls behind mmap and munmap, on a space with one region of two anonymous pages.
use chcore.Common.{[], arith, einval, neg, none, ok, refl, some, true, ◌∷◌, ◌≡◌}
use chcore.PageTable.{table}
use chcore.VmSpace.{VmRegion, VmSpace, find_in, find_vmr_for_va, is_vmr_in}
use chcore.VmSpace.Regions.{AreValid, Fits}
use chcore.VmSpace.Ranges.{AddsRegion}
use chcore.VmSpace.Mmap.{MmSpace, init_heap_vmr, vmspace_mmap_with_pmo, vmspace_unmap_shm_vmr}
use chcore.VmSpace.Mmap.Grow.{Under, mmapped, vmspace_mmap_with_pmo-AreValid}
use chcore.VmSpace.Mmap.Munmap.{RangeUnmapped, vmspace_munmap_with_addr-RegionsLeft}

abbrev heap_page : VmRegion
heap_page = record { vmr = 1; start = 0x10000; size = 0x2000; perm = 3; pmo = 0 }

abbrev anonymous : VmSpace
anonymous = record {
  vmr_list = heap_page ∷ [];
  user_current_mmap_addr = 0x700000000000;
  pmobject = λ p. record { start = 0; size = 0x2000; type = 0 };
  calls = [];
  grants = true ∷ [];
}

heap_page-Fits : Fits heap_page
heap_page-Fits = record {
  first_page = 16;
  pages = 2;
  aligned = refl;
  whole = refl;
  below = omega arith;
}

anonymous-AreValid : AreValid anonymous.vmr_list
unfolding is_vmr_in find_in
anonymous-AreValid = (heap_page-Fits, refl, (λ addr c. refl), tt)

mmapped-Fits : Fits (mmapped 2 0 0x3000 3 anonymous)
mmapped-Fits = record {
  first_page = 0x700000000;
  pages = 3;
  aligned = refl;
  whole = refl;
  below = omega arith;
}

vmspace_mmap_with_pmo-AreValid_example :
    (s' : VmSpace) × (vmspace_mmap_with_pmo 2 0 0x3000 3 anonymous ≡ ok (0x700000000000, s'))
    × AreValid s'.vmr_list
    × AddsRegion (mmapped 2 0 0x3000 3 anonymous) anonymous s'
    × (s'.user_current_mmap_addr ≡ 0x700000003000)
    × Under s'.user_current_mmap_addr s'.vmr_list
unfolding is_vmr_in
vmspace_mmap_with_pmo-AreValid_example =
    vmspace_mmap_with_pmo-AreValid 2 0 0x3000 3 anonymous anonymous-AreValid refl mmapped-Fits
      (omega arith, tt) refl refl

-- Every page of 48 bits is mapped on page 7.
abbrev all_mapped : MmSpace
all_mapped = record {
  vmspace = anonymous;
  pgtbl = λ i. table (λ j. table (λ k. table (λ l. some (record {
    pfn = 7;
    attr = record { ap = 1; uxn = 1; pxn = 1; af = 1; ng = 1; sh = 3; attr_index = 0 };
  }))));
  pages = 0;
}

-- The whole region goes, and with it a page behind it.
vmspace_munmap_with_addr-RegionsLeft_example :
    RangeUnmapped (λ v. v.size) 0x10000 0x3000 heap_page all_mapped
unfolding find_in
vmspace_munmap_with_addr-RegionsLeft_example =
    vmspace_munmap_with_addr-RegionsLeft (λ v. v.size) (λ v. refl) 0x10000 0x3000 3 heap_page
      all_mapped anonymous-AreValid (λ p. refl) refl (omega arith)
      (refl, omega arith, λ other i. refl) refl refl

init_heap_test :
    init_heap_vmr 2 0x600000000000 0 (record anonymous { grants = [] })
    ≡ ok (none, record anonymous { grants = [] })
unfolding init_heap_vmr
init_heap_test = refl

unmap_shm_test : vmspace_unmap_shm_vmr 0x9000 anonymous ≡ ok (neg einval, anonymous)
unfolding vmspace_unmap_shm_vmr find_vmr_for_va find_in
unmap_shm_test = refl
