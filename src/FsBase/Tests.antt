-- ===== src/FsBase/Tests.antt =====
-- Tests of userland/servers/fs_base.
use chcore.Common.{[], arith, none, pos, refl, suc, ℕ, ◌∷◌}
use chcore.FsBase.{
  FsState, Opened, ServerEntry, ServerOps, entry_opened, fs_node_reg, new_vnode, opened, vnode_for,
}
use chcore.FsBase.Refs.{RefsCounted, refs-none}
use chcore.FsBase.Open.{entry_opened-RefsCounted}
use chcore.FsBase.Calls.{
  CloseKeeps, OpenKeeps, fs_wrapper_close-RefsCounted, fs_wrapper_open-RefsCounted,
}
use chcore.FsBase.Write.{WriteKeeps, fs_wrapper_write-Advanced}

abbrev nothing_open : FsState
nothing_open = record { server_entrys = λ i. none; vnodes = λ id. none; mapping = [] }

nothing_open-RefsCounted : RefsCounted nothing_open
nothing_open-RefsCounted id = (omega (arith, refs-none 1024 id), λ v e. absurd (ground (arith, e)))

-- A file of 10 bytes.
abbrev file_7 : Opened
file_7 = record { vnode_id = 7; vnode_type = fs_node_reg; vnode_size = 10; vnode_private = 3 }

-- A server that has just that file and counts its calls.
abbrev one_file : ServerOps ℕ
one_file = record {
  op_open = λ path flags s. (opened file_7, suc s);
  op_close = λ v dir s. (pos 0, suc s);
  op_read = λ v off size s. (pos size, suc s);
  op_write = λ v off size s. (pos size, suc s);
}

abbrev file_open : FsState
file_open = entry_opened 0 0 [] 0 file_7 nothing_open

abbrev entry_7 : ServerEntry
entry_7 = record { flags = 0; offset = 0; path = []; vnode = 7 }

file_open-RefsCounted : RefsCounted file_open
file_open-RefsCounted =
    entry_opened-RefsCounted 0 0 0 [] file_7 nothing_open nothing_open-RefsCounted (omega arith)
      refl

fs_wrapper_open-RefsCounted_example : OpenKeeps one_file 1 3 (47 ∷ 97 ∷ []) 0 0 file_open 0
fs_wrapper_open-RefsCounted_example =
    fs_wrapper_open-RefsCounted one_file 1 3 (47 ∷ 97 ∷ []) 0 0 file_open 0 file_open-RefsCounted
      (omega arith)

fs_wrapper_close-RefsCounted_example : CloseKeeps one_file (pos 0) file_open 0
fs_wrapper_close-RefsCounted_example = fs_wrapper_close-RefsCounted one_file (pos 0) file_open 0 (
    entry_opened-RefsCounted 0 0 0 [] file_7 nothing_open nothing_open-RefsCounted (omega arith)
      refl)

fs_wrapper_write-Advanced_example :
    WriteKeeps one_file 0 entry_7 (new_vnode file_7) 20 20 file_open 0
unfolding entry_opened vnode_for
fs_wrapper_write-Advanced_example =
    fs_wrapper_write-Advanced one_file 0 entry_7 (new_vnode file_7) 20 20 file_open 0
      file_open-RefsCounted (omega arith) refl refl (omega arith) refl (omega arith)
