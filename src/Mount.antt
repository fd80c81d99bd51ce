-- ===== src/Mount.antt =====
-- The mount points of userland/servers/fsm/mount_info.c: the list of them, the newest first. A path
-- is the list of its characters before the NUL. The heap grants a node.
pub mod Above
pub mod Longest
pub mod Tests
use chcore.Common.{
  Bool, List, Option, Run, [], bug, bug_on, false, if◌then◌else◌, leb, length, ltb, neg, none, ok,
  pos, some, suc, take, true, zero, ℕ, ℤ, ◌&&◌, ◌==◌, ◌||◌, ◌∷◌,
}

pub record MountPoint : Type 0 where
  pub path : List ℕ
  pub path_len : ℕ
  pub fs_cap : ℕ

abbrev pub slash : ℕ
slash = 47

abbrev pub max_mount_point_len : ℕ
max_mount_point_len = 255

pub set_mount_point : List ℕ → ℕ → ℕ → List MountPoint → Run (List MountPoint)
set_mount_point path path_len fs_cap mps =
    bug_on (ltb max_mount_point_len path_len)
      (ok (record { path = take path_len path; path_len = path_len; fs_cap = fs_cap } ∷ mps))

-- `strncmp(s, path, n) == 0`
abbrev pub same_first : ℕ → List ℕ → List ℕ → Bool
same_first zero s path = true
same_first (suc n) [] [] = true
same_first (suc n) [] (d ∷ ds) = false
same_first (suc n) (c ∷ cs) [] = false
same_first (suc n) (c ∷ cs) (d ∷ ds) = (c == d) && same_first n cs ds

-- The character of the path at the place, NUL after its end.
abbrev pub char_at : ℕ → List ℕ → ℕ
char_at i [] = 0
char_at zero (c ∷ cs) = c
char_at (suc i) (c ∷ cs) = char_at i cs

pub mount_point_match : MountPoint → List ℕ → Bool
mount_point_match mp path =
    if (mp.path_len == 1) && (char_at 0 path == slash)
    then true
    else (same_first mp.path_len mp.path path
        && ((length path == mp.path_len) || (char_at mp.path_len path == slash)))

-- The test in the loop of `get_mount_point`, but for the length so far.
pub eligible : MountPoint → List ℕ → Bool
eligible mp path = leb mp.path_len (length path) && mount_point_match mp path

-- The loop from `matched_fs` and `match_len_max` on.
pub longest : List MountPoint → List ℕ → Option MountPoint → ℕ → Option MountPoint
longest [] path matched_fs len_max = matched_fs
longest (mp ∷ mps) path matched_fs len_max =
    if ltb len_max mp.path_len && eligible mp path
    then longest mps path (some mp) mp.path_len
    else longest mps path matched_fs len_max

pub get_mount_point : List ℕ → List MountPoint → Run MountPoint
get_mount_point path mps = elim (longest mps path none 0) [ none ↦ bug | some mp ↦ ok mp ]

-- `strcmp(s, t) == 0`
abbrev pub same_path : List ℕ → List ℕ → Bool
same_path [] [] = true
same_path [] (d ∷ ds) = false
same_path (c ∷ cs) [] = false
same_path (c ∷ cs) (d ∷ ds) = (c == d) && same_path cs ds

-- The result, and the list.
pub remove_mount_point : List ℕ → List MountPoint → ℤ × List MountPoint
remove_mount_point path [] = (neg 1, [])
remove_mount_point path (mp ∷ mps) =
    if same_path mp.path path
    then (pos 0, mps)
    else (let r : ℤ × List MountPoint = remove_mount_point path mps in (r.0, mp ∷ r.1))
