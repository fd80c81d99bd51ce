-- ===== src/FsBase/Offset.antt =====
-- `fs_wrapper_read`, `fs_wrapper_write` and `fs_wrapper_lseek` of
-- userland/servers/fs_base/fs_wrapper_ops.c, which move the offset of an entry.
use chcore.Common.{
  Run, bug, if◌then◌else◌, leb, ltb, negsuc, none, ok, pos, some, suc, update, ℕ, ℤ, ◌%◌, ◌+◌, ◌-◌,
  ◌==◌, ◌^◌,
}
use chcore.FsBase.{FsState, FsVnode, ServerEntry, ServerOps, entry_at, entry_number}

-- `size` cut at the end of the file.
abbrev pub read_size : ℕ → ℕ → ℕ → ℕ
read_size offset count size = if ltb size ((offset + count) % 2 ^ 64) then size - offset else count

-- `offset += ret`
abbrev pub added : ℕ → ℤ → ℕ
added offset (pos n) = (offset + n) % 2 ^ 64
added offset (negsuc n) = (offset + 2 ^ 64 - suc n) % 2 ^ 64

unfoldable pub moved : ℕ → ServerEntry → ℤ → FsState → FsState
moved i e ret st = record st {
  server_entrys = update st.server_entrys i (some (record e { offset = added e.offset ret }));
}

unfoldable pub grown : ℕ → FsVnode → ℕ → FsState → FsState
grown id v offset st =
    if ltb v.size offset
    then record st { vnodes = update st.vnodes id (some (record v { size = offset })) }
    else st

module _ {S : Type 0} (ops : ServerOps S) where
  -- The number is not tested, and NULL is read.
  pub fs_wrapper_read : ℤ → ℕ → FsState → S → Run (ℤ × FsState × S)
  fs_wrapper_read fd count st s = elim (entry_at fd st) [
    | none ↦ bug
    | some e ↦ elim (st.vnodes e.vnode) [
      | none ↦ bug
      | some v ↦
          if leb v.size e.offset
          then ok (pos 0, st, s)
          else (let r : ℤ × S =
                ops.op_read v.private e.offset (read_size e.offset count v.size) s in
              ok (r.0, moved (entry_number fd) e r.0 st, r.1))
    ]
  ]

  unfoldable pub fs_wrapper_write : ℤ → ℕ → FsState → S → Run (ℤ × FsState × S)
  fs_wrapper_write fd count st s = elim (entry_at fd st) [
    | none ↦ bug
    | some e ↦ elim (st.vnodes e.vnode) [
      | none ↦ bug
      | some v ↦
          if count == 0
          then ok (pos 0, st, s)
          else (let r : ℤ × S = ops.op_write v.private e.offset count s in
              ok
                (r.0, grown e.vnode v (added e.offset r.0) (moved (entry_number fd) e r.0 st), r.1))
    ]
  ]

pub data Whence : Type 0 where
  seek_set : Whence
  seek_cur : Whence
  seek_end : Whence
  seek_other : Whence

abbrev pub target_off : Whence → ℕ → ℕ → ℕ → ℕ
target_off seek_set here size off = off
target_off seek_cur here size off = (here + off) % 2 ^ 64
target_off seek_end here size off = (size + off) % 2 ^ 64
target_off seek_other here size off = 2 ^ 64 - 1

-- `target_off < 0` never holds of the unsigned number; the result is its value before the
-- conversion to an `int`.
pub fs_wrapper_lseek : ℤ → ℕ → Whence → FsState → Run (ℕ × FsState)
fs_wrapper_lseek fd off whence st = elim (entry_at fd st) [
  | none ↦ bug
  | some e ↦ elim (st.vnodes e.vnode) [
    | none ↦ bug
    | some v ↦ ok (
      target_off whence e.offset v.size off,
      record st {
        server_entrys =
            update st.server_entrys (entry_number fd)
              (some (record e { offset = target_off whence e.offset v.size off }));
      },
    )
  ]
]
