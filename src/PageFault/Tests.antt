-- ===== src/PageFault/Tests.antt =====
-- Tests of kernel/mm/pgfault_handler.c.
use chcore.Common.{Run, [], arith, bug, inl, ok, refl, some, true, ℕ, ℤ, ◌*◌, ◌∷◌}
use chcore.Radix.{Radix, add_below, empty_node, get_below, radix_add, radix_get}
use chcore.VmSpace.{VmRegion, find_in, find_vmr_for_va}
use chcore.PageTable.{invalid}
use chcore.PageFault.{FaultState}
use chcore.PageFault.Twice.{FaultedTwice, handle_trans_fault_twice}

-- Two pages at 4MB of an anonymous object.
abbrev heap : VmRegion
heap = record { vmr = 1; start = 4194304; size = 8192; perm = 3; pmo = 0 }

abbrev granting : Radix
granting = record {
  root = some (empty_node 15);
  grants =
      true ∷ true ∷ true ∷ true ∷ true ∷ true ∷ true ∷ true ∷ true ∷ true ∷ true ∷ true ∷ true
      ∷ true ∷ true ∷ [];
}

abbrev frame_at : ℕ → ℕ
frame_at n = 4096 * n

abbrev untouched : FaultState
untouched = record {
  vmspace = record {
    vmr_list = heap ∷ [];
    user_current_mmap_addr = 8388608;
    pmobject = λ p. record { start = 0; size = 8192; type = 0 };
    calls = [];
    grants = [];
  };
  radix = λ p. granting;
  pgtbl = λ i. invalid;
  pages = 10;
}

abbrev added : Run (ℤ × Radix) → Radix
added (ok r) = r.1
added bug = granting

handle_trans_fault_twice_example : FaultedTwice frame_at true heap 4198500 1 40960 untouched
unfolding find_vmr_for_va find_in radix_add add_below radix_get get_below
handle_trans_fault_twice_example =
    handle_trans_fault_twice frame_at true heap 4198500 1 9 untouched
      (added (radix_add 1 (some 40960) granting))
      (refl, inl refl, omega arith, omega arith, omega arith, refl, refl, λ other i. refl) refl
      (omega arith) (omega arith, refl, omega arith) refl refl
