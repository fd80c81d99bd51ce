-- ===== src/Radix/Tests.antt =====
-- Tests of kernel/lib/radix.c.
use chcore.Common.{[], arith, ok, refl, some, true, ℤ, ◌∷◌, ◌≡◌}
use chcore.Radix.{Radix, empty_node, get_below, radix_add, radix_get}
use chcore.Radix.Add.{Stored, radix_add-Stored}

abbrev new_tree : Radix
new_tree = record {
  root = some (empty_node 15);
  grants =
      true ∷ true ∷ true ∷ true ∷ true ∷ true ∷ true ∷ true ∷ true ∷ true ∷ true ∷ true ∷ true
      ∷ true ∷ true ∷ [];
}

radix_add-Stored_example :
    (r : ℤ) × (radix' : Radix) × (radix_add 4660 (some 7) new_tree ≡ ok (r, radix'))
    × Stored 4660 (some 7) new_tree r radix'
unfolding radix_get get_below
radix_add-Stored_example = radix_add-Stored 4660 (some 7) new_tree (omega arith) refl
