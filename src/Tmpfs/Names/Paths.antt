-- ===== src/Tmpfs/Names/Paths.antt =====
-- Paths of userland/servers/tmpfs/tmpfs_ops.c.
use chcore.Common.{
  Bool, List, [], ap, arith, drop, false, length, none, ok, pos, some, suc, true, ℕ, ℕ_discrete,
  ◌*◌, ◌+◌, ◌<◌, ◌∷◌, ◌≡◌,
}
use chcore.Tmpfs.Names.{
  Fs, Table, after_slash, fs_creat, namex_loop, new_reg, on_leaf, reg, slash, tfs_lookup, tfs_mknod,
  tfs_namex, tfs_open_path, tmpfs_root,
}
use chcore.Tmpfs.Names.Lookup.{IsDir, lookup, same_name_self, tfs_mknod-Created}

namex_loop-last :
    (fuel dirat : ℕ) (name : List ℕ) (mkdir_p : Bool) (fs : Fs)
    → after_slash name ≡ none
    → namex_loop (suc fuel) dirat name mkdir_p fs ≡ ok (pos 0, dirat, name, fs)
unfolding namex_loop
namex_loop-last fuel dirat name mkdir_p fs e = ground (arith, e)

-- A path of one name leads to the root and the name.
tfs_namex_one :
    (c : ℕ) (cs : List ℕ) (mkdir_p : Bool) (fs : Fs)
    → after_slash (c ∷ cs) ≡ none
    → tfs_namex (slash ∷ c ∷ cs) mkdir_p fs ≡ ok (pos 0, tmpfs_root, c ∷ cs, fs)
unfolding tfs_namex
tfs_namex_one c cs mkdir_p fs e = elim (ℕ_discrete c slash) [
  | yes is_slash ↦ absurd (ground (arith, e, is_slash))
  | no other ↦ ground (
    arith,
    other,
    ap (λ n. namex_loop n tmpfs_root (c ∷ cs) mkdir_p fs) (rounds (length cs)),
    namex_loop-last (2 * suc (suc (length cs))) tmpfs_root (c ∷ cs) mkdir_p fs e,
  )
]
  where
    rounds : (n : ℕ) → 2 * suc (suc n) + 1 ≡ suc (2 * suc (suc n))
    rounds n = omega arith

-- A file that is created and opened.
abbrev pub CreatedAndOpened : List ℕ → Fs → Type 0
CreatedAndOpened path fs =
    (fs' : Fs) × (fs_creat path fs ≡ ok (pos 0, fs'))
    × (tfs_open_path path fs' ≡ ok (some fs.next, fs'))
    × (fs'.inode_at fs.next ≡ reg (record new_reg { size = length (drop 1 path) }))

-- For a path that is a slash and a name without slash, fs_creat on a file system whose root is a
-- directory returns 0, and tfs_open_path of the same path then finds the new inode, a regular file
-- without pages whose size is the length of the name.
pub tfs_open_path-fs_creat :
    (size : ℕ) (table : Table) (c : ℕ) (cs : List ℕ) (fs : Fs)
    → IsDir tmpfs_root size table fs
    → 0 < fs.next
    → after_slash (c ∷ cs) ≡ none
    → CreatedAndOpened (slash ∷ c ∷ cs) fs
unfolding on_leaf tfs_open_path tfs_lookup
tfs_open_path-fs_creat size table c cs fs e more one =
    let (fs', run, (size', table', table'', e', e'', found, new, others)) =
      tfs_mknod-Created tmpfs_root size table c cs false fs e more in
    (
      fs',
      ground (arith, tfs_namex_one c cs true fs one, run),
      ground
          (arith, tfs_namex_one c cs false fs' one, e'', found (c ∷ cs), same_name_self (c ∷ cs)),
      new,
    )

-- Where a path continues with an empty component in a directory that has no entry with the empty
-- name, a round of the loop of tfs_namex in the mode that makes directories leads to the same loop
-- with nothing changed, so that it does not end.
pub namex_loop_stuck :
    (fuel d size : ℕ) (table : Table) (rest : List ℕ) (fs : Fs)
    → IsDir d size table fs
    → lookup table [] ≡ none
    → namex_loop (suc fuel) d (slash ∷ rest) true fs ≡ namex_loop fuel d (slash ∷ rest) true fs
unfolding namex_loop tfs_lookup tfs_mknod
namex_loop_stuck fuel d size table rest fs e missing = ground (arith, e, missing)
