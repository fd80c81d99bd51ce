-- ===== src/Mount/Longest.antt =====
-- `get_mount_point` of userland/servers/fsm/mount_info.c finds the longest mount point of a path.
use chcore.Common.{
  Bool-cases, List, Option, [], ap, arith, get_elem?, inl, inr, length, ltb, none, ok, refl, some,
  suc, true, zero, ℕ, ◌&&◌, ◌<◌, ◌∷◌, ◌≡◌, ◌≤◌, ◌⊎◌,
}
use chcore.Mount.{MountPoint, eligible, get_mount_point, longest, slash}
use chcore.Mount.Above.{FromRoot, IsAbove, IsAbove-eligible, eligible-IsAbove}

-- No mount point of the list that the path is below is longer than `n`.
abbrev pub NoneLonger : List ℕ → ℕ → List MountPoint → Type 0
NoneLonger path n mps =
    (i : ℕ) (mp : MountPoint)
    → get_elem? mps i ≡ some mp
    → eligible mp path ≡ true
    → mp.path_len ≤ n

-- What the loop finds: what it had, if nothing is longer, or the longest of the list.
abbrev LongestOf : List MountPoint → List ℕ → Option MountPoint → ℕ → Option MountPoint → Type 0
LongestOf mps path matched_fs len_max r =
    ((r ≡ matched_fs) × NoneLonger path len_max mps)
    ⊎ ((mp : MountPoint) × (i : ℕ) × (r ≡ some mp)
        × (get_elem? mps i ≡ some mp)
        × (eligible mp path ≡ true)
        × (len_max < mp.path_len)
        × NoneLonger path (mp.path_len) mps)

NoneLonger-cons :
    (path : List ℕ) (n : ℕ) (mp : MountPoint) (mps : List MountPoint)
    → (eligible mp path ≡ true → mp.path_len ≤ n)
    → NoneLonger path n mps
    → NoneLonger path n (mp ∷ mps)
NoneLonger-cons path n mp mps first rest zero mp' e h = ground (arith, e, h, first)
NoneLonger-cons path n mp mps first rest (suc i) mp' e h = rest i mp' e h

longest_lem :
    (mps : List MountPoint) (path : List ℕ) (matched_fs : Option MountPoint) (len_max : ℕ)
    → LongestOf mps path matched_fs len_max (longest mps path matched_fs len_max)
unfolding longest
longest_lem [] path matched_fs len_max = inl (refl, λ i mp e h. absurd (ground (arith, e)))
longest_lem (mp ∷ mps) path matched_fs len_max =
    elim (Bool-cases (ltb len_max (mp.path_len) && eligible mp path)) [
      | inl better ↦ elim (longest_lem mps path (some mp) (mp.path_len)) [
        | inl (e, longer) ↦ inr (
          mp,
          0,
          ground (arith, better, e),
          refl,
          ground (arith, better),
          ground (arith, better),
          NoneLonger-cons path (mp.path_len) mp mps (λ h. omega arith) longer,
        )
        | inr (mp', i, e, at, h, lt, longer) ↦ inr (
          mp',
          suc i,
          ground (arith, better, e),
          at,
          h,
          ground (arith, better, lt),
          NoneLonger-cons path (mp'.path_len) mp mps (λ h. omega (arith, lt)) longer,
        )
      ]
      | inr worse ↦ elim (longest_lem mps path matched_fs len_max) [
        | inl (e, longer) ↦ inl (
          ground (arith, worse, e),
          NoneLonger-cons path len_max mp mps (λ h. ground (arith, worse, h)) longer,
        )
        | inr (mp', i, e, at, h, lt, longer) ↦ inr (
          mp',
          suc i,
          ground (arith, worse, e),
          at,
          h,
          lt,
          NoneLonger-cons path (mp'.path_len) mp mps (λ h. ground (arith, worse, h, lt)) longer,
        )
      ]
    ]

-- The mount point found: in the list, above the path, and the longest such.
abbrev pub FoundLongest : List ℕ → List MountPoint → Type 0
FoundLongest path mps =
    (mp : MountPoint) × (i : ℕ) × (get_mount_point path mps ≡ ok mp)
    × (get_elem? mps i ≡ some mp)
    × IsAbove mp.path path
    × ((j : ℕ) (other : MountPoint)
        → get_elem? mps j ≡ some other
        → IsAbove other.path path
        → length other.path ≤ length mp.path)

-- In a list of mount points that begin with a slash and whose lengths are right, and that has the
-- root, get_mount_point of a path that begins with a slash finds a mount point of the list above
-- the path: the root, the path itself, or what the path continues with a slash. No mount point of
-- the list above the path is longer.
pub get_mount_point-FoundLongest :
    (cs : List ℕ) (mps : List MountPoint) (i : ℕ) (root : MountPoint)
    → ((j : ℕ) (mp : MountPoint) → get_elem? mps j ≡ some mp → FromRoot mp)
    → get_elem? mps i ≡ some root
    → root.path ≡ slash ∷ []
    → FoundLongest (slash ∷ cs) mps
unfolding get_mount_point
get_mount_point-FoundLongest cs mps i root good at_root e =
    elim (longest_lem mps (slash ∷ cs) none 0) [
      | inl (none_found, longer) ↦ absurd (
          omega (
            arith,
            longer i root at_root (IsAbove-eligible root cs (good i root at_root) (inl e)),
            (good i root at_root).0,
            ap length e,
          ))
      | inr (mp, j, found, at, h, lt, longer) ↦ (
        mp,
        j,
        ground (arith, found),
        at,
        eligible-IsAbove mp cs (good j mp at) h,
        λ k other there above. omega (
          arith,
          longer k other there (IsAbove-eligible other cs (good k other there) above),
          (good k other there).0,
          (good j mp at).0,
        ),
      )
    ]
