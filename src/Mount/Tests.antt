-- ===== src/Mount/Tests.antt =====
-- Tests of userland/servers/fsm/mount_info.c.
use chcore.Common.{List, [], arith, get_elem?, refl, some, suc, zero, ℕ, ◌∷◌, ◌≡◌}
use chcore.Mount.{MountPoint}
use chcore.Mount.Above.{FromRoot}
use chcore.Mount.Longest.{FoundLongest, get_mount_point-FoundLongest}
use mathlib.Core.Path.{subst}

-- "/" and "/fake".
abbrev root : MountPoint
root = record { path = 47 ∷ []; path_len = 1; fs_cap = 5 }

abbrev fake : MountPoint
fake = record { path = 47 ∷ 102 ∷ 97 ∷ 107 ∷ 101 ∷ []; path_len = 5; fs_cap = 7 }

abbrev two_points : List MountPoint
two_points = fake ∷ root ∷ []

two_points-FromRoot : (j : ℕ) (mp : MountPoint) → get_elem? two_points j ≡ some mp → FromRoot mp
two_points-FromRoot zero mp e =
    subst FromRoot {x = fake} {y = mp} (ground (arith, e)) (refl, (102 ∷ 97 ∷ 107 ∷ 101 ∷ [], refl))
two_points-FromRoot (suc zero) mp e =
    subst FromRoot {x = root} {y = mp} (ground (arith, e)) (refl, ([], refl))
two_points-FromRoot (suc (suc j)) mp e = absurd (ground (arith, e))

get_mount_point-FoundLongest_example :
    FoundLongest (47 ∷ 102 ∷ 97 ∷ 107 ∷ 101 ∷ 47 ∷ 97 ∷ []) two_points
get_mount_point-FoundLongest_example =
    get_mount_point-FoundLongest (102 ∷ 97 ∷ 107 ∷ 101 ∷ 47 ∷ 97 ∷ []) two_points 1 root
      two_points-FromRoot refl refl
