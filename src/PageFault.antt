-- ===== src/PageFault.antt =====
-- `handle_trans_fault` of kernel/mm/pgfault_handler.c, over the regions of VmSpace, the trees of
-- Radix and the tables of PageTable. Messages and the flush of the cache are left out.
pub mod Resolve
pub mod Twice
pub mod Tests
use chcore.Common.{
  Bool, Run, bug, bug_on, false, is_zero, leb, neg, none, not, ok, pos, some, suc, true, update,
  zero, ℕ, ℤ, ◌%◌, ◌&&◌, ◌+◌, ◌-◌, ◌/◌, ◌==◌, ◌>>=◌, ◌^◌, ◌||◌,
}
use chcore.Radix.{Radix, radix_add, radix_get}
use chcore.VmSpace.{PmObject, VmRegion, VmSpace, find_vmr_for_va, pmo_anonym, pmo_shm, u64}
use chcore.PageTable.{Ptp, map_range_in_pgtbl}

-- The pages of each memory object by its number, the page table of the address space, and how often
-- `get_pages(0)` will still succeed.
pub record FaultState : Type 0 where
  pub vmspace : VmSpace
  pub radix : ℕ → Radix
  pub pgtbl : Ptp
  pub pages : ℕ

abbrev pub enomapping : ℕ
enomapping = 203

abbrev pub vmr_exec : ℕ → Bool
vmr_exec perm = perm / 4 % 2 == 1

-- `ROUND_DOWN(addr, PAGE_SIZE)`
abbrev pub page_of : ℕ → ℕ
page_of addr = addr - addr % 4096

-- The page of an object, 0 if there is none.
pub get_page_from_pmo : Radix → ℕ → ℕ
get_page_from_pmo radix i = elim (radix_get i radix) [ none ↦ 0 | some pa ↦ pa ]

pub commit_page_to_pmo : PmObject → Radix → ℕ → ℕ → Run Radix
commit_page_to_pmo pmo radix i pa =
    bug_on (not ((pmo.type == pmo_anonym) || (pmo.type == pmo_shm)))
      (do (r, radix') ← radix_add i (some pa) radix; bug_on (not (is_zero r)) (ok radix'))

-- `frame n` is the physical address of the page that `get_pages` hands out when it can hand out `n`;
-- `own` says whether the current thread runs in the address space.
module _ (frame : ℕ → ℕ) (own : Bool) where
  -- The page of the object, committed if it was not, and mapped.
  pub map_page_of : VmRegion → ℕ → ℕ → FaultState → Run FaultState
  map_page_of v i addr st = elim (get_page_from_pmo (st.radix v.pmo) i == 0) [
    | true ↦ elim st.pages [
      | zero ↦ bug
      | suc left ↦ do
        radix' ←
            commit_page_to_pmo (st.vmspace.pmobject v.pmo) (st.radix v.pmo) i (frame (suc left))
        (r, pgtbl', left') ← map_range_in_pgtbl st.pgtbl addr (frame (suc left)) 4096 v.perm left
        ok (record st { radix = update st.radix v.pmo radix'; pgtbl = pgtbl'; pages = left' })
    ]
    | false ↦ do
      (r, pgtbl', left') ←
          map_range_in_pgtbl st.pgtbl addr (get_page_from_pmo (st.radix v.pmo) i) 4096 v.perm
            st.pages
      ok (record st { pgtbl = pgtbl'; pages = left' })
  ]

  -- Objects of the other types stop the kernel.
  pub handle_in_vmr : VmRegion → ℕ → FaultState → Run (ℤ × FaultState)
  handle_in_vmr v fault_addr st =
      let pmo : PmObject = st.vmspace.pmobject v.pmo in
      let offset : ℕ = u64 (page_of fault_addr + 2 ^ 64 - v.start) in
      bug_on (not ((pmo.type == pmo_anonym) || (pmo.type == pmo_shm))) (
        bug_on (leb pmo.size offset) (do
          st' ← map_page_of v (offset / 4096) (page_of fault_addr) st
          bug_on (vmr_exec v.perm && not own) (ok (pos 0, st'))))

  pub handle_trans_fault : ℕ → FaultState → Run (ℤ × FaultState)
  handle_trans_fault fault_addr st = elim (find_vmr_for_va st.vmspace fault_addr) [
    | none ↦ ok (neg enomapping, st)
    | some v ↦ handle_in_vmr v fault_addr st
  ]
