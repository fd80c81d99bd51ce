-- ===== src/VmSpace.antt =====
-- The regions of an address space: kernel/mm/vmregion.c. Regions and memory objects are named by
-- numbers, as pointers are.
pub mod Regions
pub mod Ranges
pub mod Mmap
pub mod Tests
use chcore.Common.{
  Bool, List, Option, Run, [], bug, enoent, enomem, false, granted, if◌then◌else◌, later_grants,
  leb, ltb, neg, negsuc, none, not, ok, pos, some, true, ℕ, ℤ, ◌%◌, ◌&&◌, ◌*◌, ◌+◌, ◌-◌, ◌/◌, ◌==◌,
  ◌>>=◌, ◌^◌, ◌||◌, ◌∷◌,
}
use Prim.Native.Nat.{bit_or}

pub record VmRegion : Type 0 where
  pub vmr : ℕ
  pub start : ℕ
  pub size : ℕ
  pub perm : ℕ
  pub pmo : ℕ

-- `start` is a physical address, `type` one of the numbers below.
pub record PmObject : Type 0 where
  pub start : ℕ
  pub size : ℕ
  pub type : ℕ

-- The calls into the page table and the TLB.
pub data PgtblCall : Type 0 where
  map_range : (va pa len perm : ℕ) → PgtblCall
  unmap_range : (va len : ℕ) → PgtblCall
  flush_tlbs : (va len : ℕ) → PgtblCall

-- `calls` lists the calls so far, the last one first; `grants` the answers of the heap to come.
pub record VmSpace : Type 0 where
  pub vmr_list : List VmRegion
  pub user_current_mmap_addr : ℕ
  pub pmobject : ℕ → PmObject
  pub calls : List PgtblCall
  pub grants : List Bool

abbrev pub page_size : ℕ
page_size = 0x1000

abbrev pub pmo_anonym : ℕ
pmo_anonym = 0

abbrev pub pmo_data : ℕ
pmo_data = 1

abbrev pub pmo_shm : ℕ
pmo_shm = 3

abbrev pub pmo_device : ℕ
pmo_device = 5

abbrev pub pmo_data_nocache : ℕ
pmo_data_nocache = 6

abbrev pub pmo_forbid : ℕ
pmo_forbid = 10

abbrev pub vmr_device : ℕ
vmr_device = 8

abbrev pub vmr_nocache : ℕ
vmr_nocache = 16

abbrev pub u64 : ℕ → ℕ
u64 n = n % 2 ^ 64

-- `!((new_start >= end) || (new_end <= start))`, where `new_end` is the new region's last byte.
abbrev pub meets : VmRegion → VmRegion → Bool
meets new v = not (
    leb (u64 (v.start + v.size)) new.start
    || leb (u64 (u64 (new.start + new.size) + 2 ^ 64 - 1)) v.start)

-- The loop of `check_vmr_intersect`.
pub meets_one : VmRegion → List VmRegion → Bool
meets_one new [] = false
meets_one new (v ∷ vs) = if meets new v then true else meets_one new vs

pub check_vmr_intersect : List VmRegion → VmRegion → Bool
check_vmr_intersect vs new = if new.size == 0 then false else meets_one new vs

-- `is_vmr_in_vmspace`
pub is_vmr_in : ℕ → List VmRegion → Bool
is_vmr_in r [] = false
is_vmr_in r (v ∷ vs) = if v.vmr == r then true else is_vmr_in r vs

pub add_vmr_to_vmspace : VmRegion → VmSpace → Run VmSpace
add_vmr_to_vmspace new s =
    if check_vmr_intersect s.vmr_list new
    then bug
    else ok (record s { vmr_list = new ∷ s.vmr_list })

abbrev pub unlink_vmr : ℕ → List VmRegion → List VmRegion
unlink_vmr r [] = []
unlink_vmr r (v ∷ vs) = if v.vmr == r then vs else v ∷ unlink_vmr r vs

pub del_vmr_from_vmspace : ℕ → VmSpace → VmSpace
del_vmr_from_vmspace r s =
    if is_vmr_in r s.vmr_list then record s { vmr_list = unlink_vmr r s.vmr_list } else s

-- `addr >= start && addr < end`
abbrev pub covers : VmRegion → ℕ → Bool
covers v addr = leb v.start addr && ltb addr (u64 (v.start + v.size))

unfoldable pub find_in : List VmRegion → ℕ → Option VmRegion
find_in [] addr = none
find_in (v ∷ vs) addr = if covers v addr then some v else find_in vs addr

unfoldable pub find_vmr_for_va : VmSpace → ℕ → Option VmRegion
find_vmr_for_va s addr = find_in s.vmr_list addr

abbrev pub called : PgtblCall → VmSpace → VmSpace
called call s = record s { calls = call ∷ s.calls }

pub fill_page_table : VmRegion → VmSpace → VmSpace
fill_page_table v s =
    let pmo : PmObject = s.pmobject v.pmo in called (map_range v.start pmo.start pmo.size v.perm) s

abbrev pub is_supported : ℕ → Bool
is_supported type =
    (type == pmo_data)
    || (type == pmo_data_nocache)
    || (type == pmo_anonym)
    || (type == pmo_device)
    || (type == pmo_shm)
    || (type == pmo_forbid)

abbrev pub is_mapped_early : ℕ → Bool
is_mapped_early type = (type == pmo_data) || (type == pmo_data_nocache) || (type == pmo_device)

-- `ROUND_DOWN(va, PAGE_SIZE)`
abbrev pub round_down : ℕ → ℕ
round_down va = va / page_size * page_size

abbrev pub perm_of : ℕ → ℕ → ℕ
perm_of type flags =
    if type == pmo_device
    then bit_or flags vmr_device
    else if type == pmo_data_nocache
    then bit_or flags vmr_nocache
    else flags

-- The region that the heap places at the number given.
pub vmspace_map_range : ℕ → ℕ → ℕ → ℕ → ℕ → VmSpace → Run (ℤ × VmSpace)
unfolding add_vmr_to_vmspace fill_page_table
vmspace_map_range r va len flags pmo s =
    let type : ℕ = (s.pmobject pmo).type in
    let v : VmRegion = record {
      vmr = r;
      start = round_down va;
      size = if ltb len page_size then page_size else len;
      perm = perm_of type flags;
      pmo = pmo;
    } in
    let s0 : VmSpace = record s { grants = later_grants s.grants } in
    if not (is_supported type)
    then bug
    else if not (granted s.grants)
    then ok (neg enomem, s0)
    else (do
      s1 ← add_vmr_to_vmspace v s0
      ok (pos 0, if is_mapped_early type then fill_page_table v s1 else s1))

-- Only a whole region is unmapped; `vmr->pmo` is read after the region is freed. Every region has an
-- object, so the return for a NULL one has no case.
pub vmspace_unmap_range : ℕ → ℕ → VmSpace → Run (ℤ × VmSpace)
unfolding find_vmr_for_va del_vmr_from_vmspace
vmspace_unmap_range va len s = elim (find_vmr_for_va s va) [
  | none ↦ ok (negsuc 0, s)
  | some v ↦
      let s1 : VmSpace = del_vmr_from_vmspace v.vmr s in
      if not ((va == v.start) && (len == v.size)) && not (len == 0)
      then bug
      else ok (
        pos 0,
        if len == 0 then s1 else called (flush_tlbs va len) (called (unmap_range va len) s1),
      )
]

-- The search of `unmap_pmo_in_vmspace`.
pub find_pmo : ℕ → List VmRegion → Option VmRegion
find_pmo pmo [] = none
find_pmo pmo (v ∷ vs) = if v.pmo == pmo then some v else find_pmo pmo vs

pub unmap_pmo_in_vmspace : ℕ → VmSpace → ℤ × VmSpace
unfolding find_pmo del_vmr_from_vmspace
unmap_pmo_in_vmspace pmo s = elim (find_pmo pmo s.vmr_list) [
  | none ↦ (neg enoent, s)
  | some v ↦ (
    pos 0,
    called (flush_tlbs v.start v.size)
        (called (unmap_range v.start v.size) (del_vmr_from_vmspace v.vmr s)),
  )
]
