-- ===== src/VmSpace/Mmap/Grow.antt =====
-- `vmspace_mmap_with_pmo` of kernel/mm/vmregion.c takes its regions one behind the other.
use chcore.Common.{
  List, [], arith, false, granted, later_grants, ok, refl, true, ℕ, ◌+◌, ◌<◌, ◌^◌, ◌∷◌, ◌≡◌, ◌≤◌,
}
use chcore.VmSpace.{
  VmRegion, VmSpace, add_vmr_to_vmspace, check_vmr_intersect, find_in, find_vmr_for_va, is_vmr_in,
  meets_one, u64,
}
use chcore.VmSpace.Regions.{AreValid, Fits, check-Clear}
use chcore.VmSpace.Ranges.{AddsRegion}
use chcore.VmSpace.Mmap.{is_lazy, vmspace_mmap_with_pmo}

-- All regions end below the address.
abbrev pub Under : ℕ → List VmRegion → Type 0
Under addr [] = Unit
Under addr (v ∷ vs) = (v.start + v.size ≤ addr) × Under addr vs

Under-meets_one :
    (new : VmRegion) (vs : List VmRegion)
    → new.start < 2 ^ 64
    → Under new.start vs
    → meets_one new vs ≡ false
unfolding meets_one
Under-meets_one new [] small u = refl
Under-meets_one new (v ∷ vs) small u =
    let rest = Under-meets_one new vs small u.1 in ground (arith, rest, u.0)

Under-mono : (a b : ℕ) (vs : List VmRegion) → a ≤ b → Under a vs → Under b vs
Under-mono a b [] le u = tt
Under-mono a b (v ∷ vs) le u = (omega (arith, u.0), Under-mono a b vs le u.1)

-- The region that a call makes.
abbrev pub mmapped : (r pmo len perm : ℕ) → VmSpace → VmRegion
mmapped r pmo len perm s = record {
  vmr = r;
  start = s.user_current_mmap_addr;
  size = len;
  perm = perm;
  pmo = pmo;
}

-- Let the regions be valid and end below the mmap address, the new number be fresh, the object be
-- anonymous or shared and the heap serve the request. Asking for whole pages below 2^64 returns the
-- mmap address: the regions stay valid, exactly the addresses of the new one lead to it, the mmap
-- address grows by the length, and all regions end below it.
pub vmspace_mmap_with_pmo-AreValid :
    (r pmo len perm : ℕ) (s : VmSpace)
    → AreValid s.vmr_list
    → is_vmr_in r s.vmr_list ≡ false
    → Fits (mmapped r pmo len perm s)
    → Under s.user_current_mmap_addr s.vmr_list
    → granted s.grants ≡ true
    → is_lazy (s.pmobject pmo).type ≡ true
    → (s' : VmSpace) × (vmspace_mmap_with_pmo r pmo len perm s ≡ ok (s.user_current_mmap_addr, s'))
      × AreValid s'.vmr_list
      × AddsRegion (mmapped r pmo len perm s) s s'
      × (s'.user_current_mmap_addr ≡ s.user_current_mmap_addr + len)
      × Under s'.user_current_mmap_addr s'.vmr_list
unfolding vmspace_mmap_with_pmo add_vmr_to_vmspace check_vmr_intersect find_vmr_for_va find_in
vmspace_mmap_with_pmo-AreValid r pmo len perm s valid fresh f under more lazy =
    let v = mmapped r pmo len perm s in
    let va = s.user_current_mmap_addr in
    let apart = Under-meets_one v s.vmr_list (omega (arith, f.below)) under in
    let check : check_vmr_intersect s.vmr_list v ≡ false = ground (arith, apart) in
    let clear = check-Clear v s.vmr_list f valid check in
    let next : u64 (va + len) ≡ va + len = omega (arith, f.below) in
    (
      record s {
        vmr_list = v ∷ s.vmr_list;
        user_current_mmap_addr = u64 (va + len);
        grants = later_grants s.grants;
      },
      ground (arith, more, lazy, apart, f.whole),
      (f, fresh, clear, valid),
      λ addr. refl,
      next,
      (omega arith, Under-mono va (u64 (va + len)) s.vmr_list (omega arith) under),
    )
