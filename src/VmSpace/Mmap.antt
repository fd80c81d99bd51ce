-- ===== src/VmSpace/Mmap.antt =====
-- The calls of kernel/mm/vmregion.c behind mmap, munmap, shmdt and the heap.
pub mod Grow
pub mod Shrink
pub mod Ptes
pub mod Round
pub mod Munmap
pub mod Tests
use chcore.Common.{
  Bool, List, Option, Run, [], bug, einval, false, granted, if◌then◌else◌, later_grants, length,
  ltb, neg, none, not, ok, pos, some, suc, true, zero, ℕ, ℤ, ◌%◌, ◌+◌, ◌-◌, ◌==◌, ◌>>=◌, ◌^◌, ◌||◌,
  ◌∷◌,
}
use chcore.PageTable.{Ptp, unmap_range_in_pgtbl}
use chcore.VmSpace.{
  VmRegion, VmSpace, add_vmr_to_vmspace, called, del_vmr_from_vmspace, find_vmr_for_va, flush_tlbs,
  page_size, pmo_anonym, pmo_shm, u64, unmap_range,
}

abbrev pub vmr_read_write : ℕ
vmr_read_write = 3

-- `(u64)-1L`
abbrev pub map_failed : ℕ
map_failed = 2 ^ 64 - 1

pub init_heap_vmr : ℕ → ℕ → ℕ → VmSpace → Run (Option VmRegion × VmSpace)
unfolding add_vmr_to_vmspace
init_heap_vmr r va pmo s =
    let v : VmRegion = record { vmr = r; start = va; size = 0; perm = vmr_read_write; pmo = pmo } in
    let s0 : VmSpace = record s { grants = later_grants s.grants } in
    if granted s.grants then (do s1 ← add_vmr_to_vmspace v s0; ok (some v, s1)) else ok (none, s0)

abbrev pub is_lazy : ℕ → Bool
is_lazy type = (type == pmo_anonym) || (type == pmo_shm)

-- The address returned is that of the region.
pub vmspace_mmap_with_pmo : ℕ → ℕ → ℕ → ℕ → VmSpace → Run (ℕ × VmSpace)
unfolding add_vmr_to_vmspace
vmspace_mmap_with_pmo r pmo len perm s =
    let va : ℕ = s.user_current_mmap_addr in
    let v : VmRegion = record { vmr = r; start = va; size = len; perm = perm; pmo = pmo } in
    let s0 : VmSpace = record s { grants = later_grants s.grants } in
    if not (granted s.grants)
    then ok (map_failed, s0)
    else if not (len % page_size == 0)
    then bug
    else if not (is_lazy (s.pmobject pmo).type)
    then bug
    else (do
      s1 ← add_vmr_to_vmspace v (record s0 { user_current_mmap_addr = u64 (va + len) })
      ok (va, s1))

-- `vmr->size -= len; vmr->start += len`
abbrev pub shrunk : ℕ → VmRegion → VmRegion
shrunk len v = record v { start = u64 (v.start + len); size = v.size - len }

-- The write to a region of the list.
abbrev pub write_vmr : ℕ → VmRegion → List VmRegion → List VmRegion
write_vmr r new [] = []
write_vmr r new (v ∷ vs) = if v.vmr == r then new ∷ vs else v ∷ write_vmr r new vs

-- An address space with its page table, and how often `get_pages(0)` will still succeed.
pub record MmSpace : Type 0 where
  pub vmspace : VmSpace
  pub pgtbl : Ptp
  pub pages : ℕ

-- `unmap_range_in_pgtbl` and the flush of the TLBs.
pub unmap_at : ℕ → ℕ → MmSpace → Run MmSpace
unmap_at va len st = do
  (r, pgtbl', left) ← unmap_range_in_pgtbl st.pgtbl va len st.pages
  ok (record {
    vmspace = called (flush_tlbs va len) (called (unmap_range va len) st.vmspace);
    pgtbl = pgtbl';
    pages = left;
  })

-- A region larger than the range: only its first part can go.
pub shrink_vmr : ℕ → ℕ → VmRegion → MmSpace → Run (ℤ × MmSpace)
unfolding unmap_at
shrink_vmr va len v st =
    let s : VmSpace = st.vmspace in
    if not (va == v.start)
    then ok (pos 0, st)
    else if not ((s.pmobject v.pmo).type == pmo_anonym)
    then bug
    else (do
      st' ← unmap_at va len (record st {
        vmspace = record s { vmr_list = write_vmr v.vmr (shrunk len v) s.vmr_list };
      })
      ok (pos 0, st'))

-- `size_after_free` is what is read as the size of a region once it is freed.
module _ (size_after_free : VmRegion → ℕ) where
  -- `unmap_vmrs`; each round but the last removes a region.
  pub unmap_loop : ℕ → ℕ → ℕ → MmSpace → Run (ℤ × MmSpace)
  unfolding find_vmr_for_va shrink_vmr del_vmr_from_vmspace
  unmap_loop zero va len st = bug
  unmap_loop (suc f) va len st = elim (len == 0) [
    | true ↦ ok (pos 0, st)
    | false ↦ elim (find_vmr_for_va st.vmspace va) [
      | none ↦ ok (pos 0, st)
      | some v ↦ elim (ltb len v.size) [
        | true ↦ shrink_vmr va len v st
        | false ↦ do
          st' ← unmap_at va len (record st { vmspace = del_vmr_from_vmspace v.vmr st.vmspace })
          unmap_loop f (u64 (va + size_after_free v)) (u64 (len + 2 ^ 64 - size_after_free v)) st'
      ]
    ]
  ]

  pub vmspace_munmap_with_addr : ℕ → ℕ → MmSpace → Run (ℤ × MmSpace)
  unfolding unmap_loop
  vmspace_munmap_with_addr va len st = unmap_loop (suc (length st.vmspace.vmr_list)) va len st

pub vmspace_unmap_shm_vmr : ℕ → VmSpace → Run (ℤ × VmSpace)
unfolding find_vmr_for_va del_vmr_from_vmspace
vmspace_unmap_shm_vmr va s = elim (find_vmr_for_va s va) [
  | none ↦ ok (neg einval, s)
  | some v ↦
      if not ((s.pmobject v.pmo).type == pmo_shm)
      then bug
      else if not (va == v.start)
      then bug
      else ok (
        pos 0,
        called (flush_tlbs v.start v.size)
            (del_vmr_from_vmspace v.vmr (called (unmap_range v.start v.size) s)),
      )
]
