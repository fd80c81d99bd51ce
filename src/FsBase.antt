-- ===== src/FsBase.antt =====
-- The file descriptors of userland/servers/fs_base: fs_vnode.c, fs_wrapper_ops.c and the mapping of
-- fs_wrapper.c. A `struct fs_vnode *` is the identifier of its vnode: one is added only where
-- `fs_vnode_list` has none of its identifier. The heap grants entries, nodes and vnodes. Each server
-- sets `server_ops`; a buffer and its bytes belong to the server's state.
pub mod Refs
pub mod Open
pub mod Calls
pub mod Offset
pub mod Write
pub mod Tests
use chcore.Common.{
  Bool, List, Option, Run, [], bug, bug_on, enoent, false, if◌then◌else◌, is_zero, leb, ltb, neg,
  negsuc, none, not, ok, pos, some, suc, true, update, zero, ℕ, ℤ, ◌+◌, ◌-◌, ◌==◌, ◌>>=◌, ◌^◌, ◌∷◌,
}

pub data VnodeType : Type 0 where
  fs_node_reserved : VnodeType
  fs_node_reg : VnodeType
  fs_node_dir : VnodeType

pub record FsVnode : Type 0 where
  pub type : VnodeType
  pub refcnt : ℕ
  pub size : ℕ
  pub private : ℕ

pub record ServerEntry : Type 0 where
  pub flags : ℕ
  pub offset : ℕ
  pub path : List ℕ
  pub vnode : ℕ

pub record ServerEntryNode : Type 0 where
  pub client_badge : ℕ
  pub fd_to_fid : ℕ → ℤ

pub record FsState : Type 0 where
  pub server_entrys : ℕ → Option ServerEntry
  pub vnodes : ℕ → Option FsVnode
  pub mapping : List ServerEntryNode

-- What the server's own `open` fills in.
pub record Opened : Type 0 where
  pub vnode_id : ℕ
  pub vnode_type : VnodeType
  pub vnode_size : ℕ
  pub vnode_private : ℕ

pub data OpenResult : Type 0 where
  failed : ℤ → OpenResult
  opened : Opened → OpenResult

pub record ServerOps (S : Type 0) : Type 0 where
  pub op_open : List ℕ → ℕ → S → OpenResult × S
  pub op_close : ℕ → Bool → S → ℤ × S
  pub op_read : ℕ → ℕ → ℕ → S → ℤ × S
  pub op_write : ℕ → ℕ → ℕ → S → ℤ × S

abbrev pub max_server_entry_num : ℕ
max_server_entry_num = 1024

abbrev pub max_server_entry_per_client : ℕ
max_server_entry_per_client = 1024

abbrev pub emfile : ℕ
emfile = 24

-- The loop of `alloc_entry` from `i` on.
pub first_null : ℕ → ℕ → (ℕ → Option ServerEntry) → Option ℕ
first_null zero i entrys = none
first_null (suc n) i entrys = elim (entrys i) [
  | none ↦ some i
  | some e ↦ first_null n (suc i) entrys
]

pub alloc_entry : FsState → Option ℕ
alloc_entry st = first_null max_server_entry_num 0 st.server_entrys

abbrev pub free_entry : ℕ → FsState → FsState
free_entry i st = record st { server_entrys = update st.server_entrys i none }

-- `int refcnt`; one more than 2^31 - 1 is undefined.
abbrev pub may_add_ref : FsVnode → Bool
may_add_ref v = ltb (v.refcnt + 1) (2 ^ 31)

abbrev pub ref_added : FsVnode → FsVnode
ref_added v = record v { refcnt = v.refcnt + 1 }

-- A count that falls below 0 fails the assertion, which stops the server.
pub ref_dropped : FsVnode → Run FsVnode
ref_dropped v = bug_on (v.refcnt == 0) (ok (record v { refcnt = v.refcnt - 1 }))

-- `alloc_fs_vnode`
abbrev pub new_vnode : Opened → FsVnode
new_vnode r = record {
  type = r.vnode_type;
  refcnt = 1;
  size = r.vnode_size;
  private = r.vnode_private;
}

-- `get_fs_vnode_by_id`, and the vnode with one reference more.
pub vnode_for : Opened → FsState → FsVnode
vnode_for r st = elim (st.vnodes r.vnode_id) [ none ↦ new_vnode r | some v ↦ ref_added v ]

-- The vnode, if there is one, can have one reference more.
pub may_open : Opened → FsState → Bool
may_open r st = elim (st.vnodes r.vnode_id) [ none ↦ true | some v ↦ may_add_ref v ]

abbrev pub entry_mapped : ℕ → ℕ → ℤ → List ServerEntryNode → List ServerEntryNode
entry_mapped client_badge fd fid [] =
    record { client_badge = client_badge; fd_to_fid = update (λ i. neg 1) fd fid } ∷ []
entry_mapped client_badge fd fid (n ∷ ns) =
    if n.client_badge == client_badge
    then record n { fd_to_fid = update n.fd_to_fid fd fid } ∷ ns
    else n ∷ entry_mapped client_badge fd fid ns

-- The check lets the number of the array's places pass, which is an access past its end.
pub fs_wrapper_set_server_entry : ℕ → ℤ → ℤ → FsState → Run FsState
fs_wrapper_set_server_entry client_badge (negsuc fd) fid st = bug
fs_wrapper_set_server_entry client_badge (pos fd) fid st =
    if leb max_server_entry_per_client fd
    then bug
    else ok (record st { mapping = entry_mapped client_badge fd fid st.mapping })

abbrev pub is_reserved : VnodeType → Bool
is_reserved fs_node_reserved = true
is_reserved fs_node_reg = false
is_reserved fs_node_dir = false

abbrev pub is_dir : VnodeType → Bool
is_dir fs_node_reserved = false
is_dir fs_node_reg = false
is_dir fs_node_dir = true

-- The entry of a number that is in range and not NULL.
pub entry_at : ℤ → FsState → Option ServerEntry
entry_at (negsuc fd) st = none
entry_at (pos fd) st = if ltb fd max_server_entry_num then st.server_entrys fd else none

abbrev pub entry_number : ℤ → ℕ
entry_number (negsuc fd) = 0
entry_number (pos fd) = fd

-- The reference of an entry that was freed; the vnode goes with the last one.
pub vnode_put : ℕ → FsVnode → FsState → Run FsState
vnode_put id v st = do
  w ← ref_dropped v
  ok (
      if w.refcnt == 0
      then record st { vnodes = update st.vnodes id none }
      else record st { vnodes = update st.vnodes id (some w) })

-- `entry_off` is a variable that nothing sets: the number is what its place happens to hold.
pub entry_opened : ℕ → ℕ → List ℕ → ℕ → Opened → FsState → FsState
entry_opened i flags path entry_off r st = record st {
  server_entrys =
      update st.server_entrys i
        (some (record { flags = flags; offset = entry_off; path = path; vnode = r.vnode_id }));
  vnodes = update st.vnodes r.vnode_id (some (vnode_for r st));
}

module _ {S : Type 0} (ops : ServerOps S) where
  pub fs_wrapper_open : ℕ → ℤ → List ℕ → ℕ → ℕ → FsState → S → Run (ℤ × FsState × S)
  fs_wrapper_open client_badge new_fd path flags entry_off st s =
      elim ((ops.op_open path flags s).0) [
        | failed ret ↦ ok (ret, st, (ops.op_open path flags s).1)
        | opened r ↦ elim (alloc_entry st) [
          | none ↦ ok (
            neg emfile,
            st,
            (ops.op_close r.vnode_private (is_dir r.vnode_type) (ops.op_open path flags s).1).1,
          )
          | some i ↦ do
            st' ←
                fs_wrapper_set_server_entry client_badge new_fd (pos i)
                  (entry_opened i flags path entry_off r st)
            bug_on (not (may_open r st)) (ok (new_fd, st', (ops.op_open path flags s).1))
        ]
      ]

  pub fs_wrapper_close : ℤ → FsState → S → Run (ℤ × FsState × S)
  fs_wrapper_close fd st s = elim (entry_at fd st) [
    | none ↦ ok (neg enoent, st, s)
    | some e ↦ elim (st.vnodes e.vnode) [
      | none ↦ bug
      | some v ↦
          if is_reserved v.type
          then ok (neg enoent, st, s)
          else if is_zero ((ops.op_close v.private (is_dir v.type) s).0)
          then (do
            st' ← vnode_put e.vnode v (free_entry (entry_number fd) st)
            ok (pos 0, st', (ops.op_close v.private (is_dir v.type) s).1))
          else ok (
            (ops.op_close v.private (is_dir v.type) s).0,
            st,
            (ops.op_close v.private (is_dir v.type) s).1,
          )
    ]
  ]

-- `fs_wrapper_get_server_entry` for other numbers than AT_FDROOT.
abbrev pub fid_in : ℕ → ℕ → List ServerEntryNode → ℤ
fid_in client_badge fd [] = neg 1
fid_in client_badge fd (n ∷ ns) =
    if n.client_badge == client_badge then n.fd_to_fid fd else fid_in client_badge fd ns

pub fs_wrapper_get_server_entry : ℕ → ℤ → FsState → Run ℤ
fs_wrapper_get_server_entry client_badge (negsuc fd) st = if fd == 100 then ok (negsuc fd) else bug
fs_wrapper_get_server_entry client_badge (pos fd) st =
    if leb max_server_entry_per_client fd then bug else ok (fid_in client_badge fd st.mapping)
