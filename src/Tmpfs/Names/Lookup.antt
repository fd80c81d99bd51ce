-- ===== src/Tmpfs/Names/Lookup.antt =====
-- Lookups after changes of a directory of userland/servers/tmpfs/tmpfs.c.
use chcore.Common.{
  Bool, Bool-cases, List, Option, [], ap, arith, false, if◌then◌else◌, inl, inr, length, ok, pos,
  refl, some, suc, true, update, zero, ℕ, ℕ_discrete, ◌<◌, ◌∷◌, ◌≡◌, ◌≢◌,
}
use chcore.Tmpfs.Names.{
  Dentry, Fs, Table, bucket, del_dentry, dir, empty_below, find_dentry, htable_add, htable_empty,
  new_inode, same_name, tfs_mknod, tfs_remove, without,
}

pub same_name_self : (name : List ℕ) → same_name name name ≡ true
same_name_self [] = refl
same_name_self (c ∷ cs) = ground (arith, same_name_self cs)

pub same_name-eq : (a b : List ℕ) → same_name a b ≡ true → a ≡ b
same_name-eq [] [] h = refl
same_name-eq [] (b ∷ ys) h = absurd (ground (arith, h))
same_name-eq (a ∷ xs) [] h = absurd (ground (arith, h))
same_name-eq (a ∷ xs) (b ∷ ys) h = ground (arith, h, same_name-eq xs ys)

-- The directory `d` and its table.
abbrev pub IsDir : ℕ → ℕ → Table → Fs → Type 0
IsDir d size table fs = fs.inode_at d ≡ dir size table

-- What a lookup in a table finds.
abbrev pub lookup : Table → List ℕ → Option Dentry
lookup table name = find_dentry name (table (bucket name))

lookup-htable_add :
    (table : Table) (d : Dentry) (name : List ℕ)
    → lookup (htable_add table d) name
      ≡ (if same_name d.name name then some d else lookup table name)
lookup-htable_add table d name = elim (Bool-cases (same_name d.name name)) [
  | inl e ↦ ground (arith, e, ap bucket (same_name-eq d.name name e))
  | inr ne ↦ elim (ℕ_discrete (bucket name) (bucket d.name)) [
    | yes e ↦ ground (arith, ne, e)
    | no ne' ↦ ground (arith, ne)
  ]
]

-- What `tfs_mknod` leaves.
abbrev pub Created : ℕ → List ℕ → Bool → Fs → Fs → Type 0
Created d name mkdir fs fs' =
    (size : ℕ) × (table table' : Table) × IsDir d size table fs
    × IsDir d size table' fs'
    × ((other : List ℕ)
        → lookup table' other ≡ (
            if same_name name other
            then some (record { name = name; inode = fs.next })
            else lookup table other))
    × (fs'.inode_at fs.next ≡ new_inode mkdir (length name))
    × ((i : ℕ) → i ≢ d → i ≢ fs.next → fs'.inode_at i ≡ fs.inode_at i)

pub tfs_mknod-Created :
    (d size : ℕ) (table : Table) (c : ℕ) (cs : List ℕ) (mkdir : Bool) (fs : Fs)
    → IsDir d size table fs
    → d < fs.next
    → (fs' : Fs) × (tfs_mknod d (c ∷ cs) mkdir fs ≡ ok (pos 0, fs'))
      × Created d (c ∷ cs) mkdir fs fs'
unfolding tfs_mknod
tfs_mknod-Created d size table c cs mkdir fs e lt = (
  record {
    inode_at =
        update (update fs.inode_at fs.next (new_inode mkdir (length (c ∷ cs)))) d
          (dir size (htable_add table (record { name = c ∷ cs; inode = fs.next })));
    next = suc fs.next;
  },
  ground (arith, e),
  (
    size,
    table,
    htable_add table (record { name = c ∷ cs; inode = fs.next }),
    e,
    ground arith,
    lookup-htable_add table (record { name = c ∷ cs; inode = fs.next }),
    ground arith,
    λ i ne ne'. ground arith,
  ),
)

-- What creating a name and removing it leaves: the lookups of before, and no other inode changed.
abbrev pub CreatedAndRemoved : ℕ → ℕ → Table → List ℕ → Bool → Fs → Type 0
CreatedAndRemoved d size table name mkdir fs =
    (fs' fs'' : Fs) × (table'' : Table) × (tfs_mknod d name mkdir fs ≡ ok (pos 0, fs'))
    × (tfs_remove d name fs' ≡ ok (pos 0, fs''))
    × IsDir d size table'' fs''
    × ((other : List ℕ) → lookup table'' other ≡ lookup table other)
    × ((i : ℕ) → i ≢ d → i ≢ fs.next → fs''.inode_at i ≡ fs.inode_at i)

empty_below-new : (n : ℕ) → empty_below n (λ b. []) ≡ true
empty_below-new zero = refl
empty_below-new (suc n) = empty_below-new n

htable_empty-new : htable_empty (λ b. []) ≡ true
unfolding htable_empty
htable_empty-new = empty_below-new 1024

-- The entry of a new inode is removed.
tfs_remove-new :
    (d size : ℕ) (table : Table) (c : ℕ) (cs : List ℕ) (dent : Dentry) (mkdir : Bool) (len : ℕ)
    (fs : Fs)
    → IsDir d size table fs
    → lookup table (c ∷ cs) ≡ some dent
    → fs.inode_at dent.inode ≡ new_inode mkdir len
    → tfs_remove d (c ∷ cs) fs ≡ ok (pos 0, without d (c ∷ cs) size table fs)
unfolding tfs_remove
tfs_remove-new d size table c cs dent true len fs e found new =
    ground (arith, e, found, new, htable_empty-new)
tfs_remove-new d size table c cs dent false len fs e found new = ground (arith, e, found, new)

-- Creating a name that is not empty in a directory, as a file or a directory, and then removing it
-- both return 0. In the end every lookup in the directory finds what it found before, and every
-- other inode that there was is unchanged.
pub tfs_remove-tfs_mknod :
    (d size : ℕ) (table : Table) (c : ℕ) (cs : List ℕ) (mkdir : Bool) (fs : Fs)
    → IsDir d size table fs
    → d < fs.next
    → CreatedAndRemoved d size table (c ∷ cs) mkdir fs
unfolding tfs_mknod
tfs_remove-tfs_mknod d size table c cs mkdir fs e lt =
    let dent : Dentry = record { name = c ∷ cs; inode = fs.next } in
    let fs' : Fs = record {
      inode_at =
          update (update fs.inode_at fs.next (new_inode mkdir (length (c ∷ cs)))) d
            (dir size (htable_add table dent));
      next = suc fs.next;
    } in
    (
      fs',
      without d (c ∷ cs) size (htable_add table dent) fs',
      update (htable_add table dent) (bucket (c ∷ cs))
          (del_dentry (c ∷ cs) (htable_add table dent (bucket (c ∷ cs)))),
      ground (arith, e),
      tfs_remove-new d size (htable_add table dent) c cs dent mkdir (length (c ∷ cs)) fs'
          (ground arith)
          (ground (arith, lookup-htable_add table dent (c ∷ cs), same_name_self (c ∷ cs)))
          (ground arith),
      ground arith,
      λ other. elim (ℕ_discrete (bucket other) (bucket (c ∷ cs))) [
        | yes same ↦ ground (arith, same, same_name_self (c ∷ cs))
        | no ne ↦ ground arith
      ],
      λ i ne ne'. ground arith,
    )
