-- ===== src/Tmpfs/Names.antt =====
-- The directories of userland/servers/tmpfs/tmpfs.c and the calls on paths of tmpfs_ops.c. A path or
-- name is the list of its characters before the NUL, and each call gives the name's length as `len`.
-- An inode is a number; the heap grants every request, so that a new one is the next number. What
-- is freed is not reused and no entry leads to it.
pub mod Lookup
pub mod Paths
use chcore.Common.{
  Bool, List, Option, Run, [], bug, bug_on, einval, enoent, false, if◌then◌else◌, is_neg, is_zero,
  length, ltb, neg, none, ok, pos, some, suc, true, update, zero, ℕ, ℤ, ◌%◌, ◌&&◌, ◌*◌, ◌+◌, ◌==◌,
  ◌>>=◌, ◌^◌, ◌∷◌,
}
use chcore.Tmpfs.{Reg}

pub record Dentry : Type 0 where
  pub name : List ℕ
  pub inode : ℕ

-- The hash table of a directory: the list of entries of each bucket.
abbrev pub Table : Type 0
Table = ℕ → List Dentry

pub data Inode : Type 0 where
  dir : ℕ → Table → Inode
  reg : Reg → Inode

pub record Fs : Type 0 where
  pub inode_at : ℕ → Inode
  pub next : ℕ

abbrev pub tmpfs_root : ℕ
tmpfs_root = 0

abbrev pub slash : ℕ
slash = 47

abbrev pub max_filename_len : ℕ
max_filename_len = 255

abbrev pub enotempty : ℕ
enotempty = 39

abbrev pub hash_from : ℕ → List ℕ → ℕ
hash_from hash [] = hash
hash_from hash (c ∷ cs) = hash_from ((hash * 131 + c) % 2 ^ 64) cs

pub hash_chars : List ℕ → ℕ
hash_chars str = hash_from 0 str

-- The bucket of a name: the hash as a u32, modulo the size of the table.
abbrev pub bucket : List ℕ → ℕ
bucket name = hash_chars name % 2 ^ 32 % 1024

-- The test of an entry: equal lengths and strcmp 0.
abbrev pub same_name : List ℕ → List ℕ → Bool
same_name [] [] = true
same_name [] (b ∷ ys) = false
same_name (a ∷ xs) [] = false
same_name (a ∷ xs) (b ∷ ys) = (a == b) && same_name xs ys

abbrev pub find_dentry : List ℕ → List Dentry → Option Dentry
find_dentry name [] = none
find_dentry name (d ∷ ds) = if same_name d.name name then some d else find_dentry name ds

-- `htable_del` of the first entry of the name.
abbrev pub del_dentry : List ℕ → List Dentry → List Dentry
del_dentry name [] = []
del_dentry name (d ∷ ds) = if same_name d.name name then ds else d ∷ del_dentry name ds

-- The entry of a name in a directory. The type of the inode is not tested: the pages of a regular
-- file, which are no table, stop the model.
pub tfs_lookup : Inode → List ℕ → Run (Option Dentry)
tfs_lookup (dir size table) name = ok (find_dentry name (table (bucket name)))
tfs_lookup (reg f) name = bug

abbrev pub new_reg : Reg
new_reg = record { size = 0; pages = λ i. none }

abbrev pub new_dir : Inode
new_dir = dir 0 (λ b. [])

-- A new inode, its size set to the length of the name.
abbrev pub new_inode : Bool → ℕ → Inode
new_inode true len = dir len (λ b. [])
new_inode false len = reg (record new_reg { size = len })

abbrev pub htable_add : Table → Dentry → Table
htable_add table d = update table (bucket d.name) (d ∷ table (bucket d.name))

-- The directory must be one: the call uses its table.
pub tfs_mknod : ℕ → List ℕ → Bool → Fs → Run (ℤ × Fs)
tfs_mknod d [] mkdir fs = ok (neg enoent, fs)
tfs_mknod d (c ∷ cs) mkdir fs = elim (fs.inode_at d) [
  | reg f ↦ bug
  | dir size table ↦ ok (
    pos 0,
    record {
      inode_at =
          update (update fs.inode_at fs.next (new_inode mkdir (length (c ∷ cs)))) d
            (dir size (htable_add table (record { name = c ∷ cs; inode = fs.next })));
      next = suc fs.next;
    },
  )
]

abbrev pub tfs_mkdir : ℕ → List ℕ → Fs → Run (ℤ × Fs)
tfs_mkdir d name fs = tfs_mknod d name true fs

abbrev pub tfs_creat : ℕ → List ℕ → Fs → Run (ℤ × Fs)
tfs_creat d name fs = tfs_mknod d name false fs

abbrev pub empty_below : ℕ → Table → Bool
empty_below zero table = true
empty_below (suc n) table = elim (table n) [ [] ↦ empty_below n table | d ∷ ds ↦ false ]

pub htable_empty : Table → Bool
htable_empty table = empty_below 1024 table

abbrev pub without : ℕ → List ℕ → ℕ → Table → Fs → Fs
without d name size table fs = record fs {
  inode_at =
      update fs.inode_at d
        (dir size (update table (bucket name) (del_dentry name (table (bucket name)))));
}

pub tfs_remove : ℕ → List ℕ → Fs → Run (ℤ × Fs)
tfs_remove d [] fs = ok (neg enoent, fs)
tfs_remove d (c ∷ cs) fs = elim (fs.inode_at d) [
  | reg f ↦ bug
  | dir size table ↦ elim (find_dentry (c ∷ cs) (table (bucket (c ∷ cs)))) [
    | none ↦ ok (neg enoent, fs)
    | some target ↦ elim (fs.inode_at target.inode) [
      | reg f ↦ ok (pos 0, without d (c ∷ cs) size table fs)
      | dir size' table' ↦
          if htable_empty table'
          then ok (pos 0, without d (c ∷ cs) size table fs)
          else ok (neg enotempty, fs)
    ]
  ]
]

-- The characters before the first '/', and those after it if there is one.
abbrev pub component : List ℕ → List ℕ
component [] = []
component (c ∷ cs) = if c == slash then [] else c ∷ component cs

abbrev pub after_slash : List ℕ → Option (List ℕ)
after_slash [] = none
after_slash (c ∷ cs) = if c == slash then some cs else after_slash cs

-- The loop of `tfs_namex`: the result, `*dirat` and `*name`. A component longer than the buffer
-- is written past its end.
pub namex_loop : ℕ → ℕ → List ℕ → Bool → Fs → Run (ℤ × ℕ × List ℕ × Fs)
namex_loop zero dirat name mkdir_p fs = bug
namex_loop (suc fuel) dirat name mkdir_p fs = elim (after_slash name) [
  | none ↦ ok (pos 0, dirat, name, fs)
  | some rest ↦ bug_on (ltb max_filename_len (length (component name))) (do
    found ← tfs_lookup (fs.inode_at dirat) (component name)
    elim found [
      | some dent ↦ namex_loop fuel dent.inode rest mkdir_p fs
      | none ↦ elim mkdir_p [
        | false ↦ ok (neg enoent, dirat, name, fs)
        | true ↦ do
          (r, fs') ← tfs_mkdir dirat (component name) fs
          namex_loop fuel dirat name true fs'
      ]
    ])
]

abbrev pub skip_slashes : List ℕ → List ℕ
skip_slashes [] = []
skip_slashes (c ∷ cs) = if c == slash then skip_slashes cs else c ∷ cs

-- For a path that begins with '/', as all callers' do. Each component takes two rounds at most.
pub tfs_namex : List ℕ → Bool → Fs → Run (ℤ × ℕ × List ℕ × Fs)
tfs_namex path mkdir_p fs = elim (skip_slashes path) [
  | [] ↦ ok (neg einval, tmpfs_root, [], fs)
  | c ∷ cs ↦ namex_loop (2 * length path + 1) tmpfs_root (c ∷ cs) mkdir_p fs
]

abbrev pub inode_of : Option Dentry → Option ℕ
inode_of none = none
inode_of (some dent) = some dent.inode

-- The inode of a path, none for NULL.
pub tfs_open_path : List ℕ → Fs → Run (Option ℕ × Fs)
tfs_open_path [] fs = bug
tfs_open_path (c ∷ []) fs = ok (some tmpfs_root, fs)
tfs_open_path (c ∷ c' ∷ cs) fs = do
  (r, dirat, leaf, fs') ← tfs_namex (c ∷ c' ∷ cs) false fs
  found ← (if is_zero r then tfs_lookup (fs'.inode_at dirat) leaf else ok none)
  ok (inode_of found, fs')

-- A call on the directory and the last name of a path: `fs_creat`, `tmpfs_mkdir`, `tmpfs_unlink`.
pub on_leaf : (ℕ → List ℕ → Fs → Run (ℤ × Fs)) → Bool → List ℕ → Fs → Run (ℤ × Fs)
on_leaf op mkdir_p path fs = do
  (r, dirat, leaf, fs') ← tfs_namex path mkdir_p fs
  if is_neg r then ok (r, fs') else op dirat leaf fs'

abbrev pub fs_creat : List ℕ → Fs → Run (ℤ × Fs)
fs_creat path fs = on_leaf tfs_creat true path fs

abbrev pub tmpfs_mkdir : List ℕ → Fs → Run (ℤ × Fs)
tmpfs_mkdir path fs = on_leaf tfs_mkdir true path fs

abbrev pub tmpfs_unlink : List ℕ → Fs → Run (ℤ × Fs)
tmpfs_unlink path fs = on_leaf tfs_remove false path fs
