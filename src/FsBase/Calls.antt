-- ===== src/FsBase/Calls.antt =====
-- `fs_wrapper_open` and `fs_wrapper_close` of userland/servers/fs_base/fs_wrapper_ops.c.
use chcore.Common.{
  Bool-cases, List, Option-cases, arith, dec_lt, enoent, inl, inr, is_zero, neg, negsuc, ok, pos,
  refl, ℕ, ℤ, ◌<◌, ◌≡◌, ◌⊎◌,
}
use chcore.FsBase.{
  FsState, OpenResult, Opened, ServerOps, alloc_entry, emfile, entry_at, entry_mapped, entry_opened,
  failed, first_null, fs_wrapper_close, fs_wrapper_open, fs_wrapper_set_server_entry, is_dir,
  is_reserved, opened,
}
use chcore.FsBase.Refs.{RefsCounted, RefsCounted-may_open}
use chcore.FsBase.Open.{entry_opened-RefsCounted, first_null_lem, vnode-held, vnode_put-RefsCounted}

-- What an open that reached the server's files leaves.
mapped_lem :
    (client_badge fd i : ℕ) (st : FsState)
    → fd < 1024
    → fs_wrapper_set_server_entry client_badge (pos fd) (pos i) st
      ≡ ok (record st { mapping = entry_mapped client_badge fd (pos i) st.mapping })
unfolding fs_wrapper_set_server_entry
mapped_lem client_badge fd i st lt = ground arith

open_result-cases :
    (r : OpenResult) → ((ret : ℤ) × (r ≡ failed ret)) ⊎ ((x : Opened) × (r ≡ opened x))
open_result-cases (failed ret) = inl (ret, refl)
open_result-cases (opened x) = inr (x, refl)

module _ {S : Type 0} (ops : ServerOps S) where
  -- An open that ends, with the references counted.
  abbrev pub OpenKeeps : ℕ → ℕ → List ℕ → ℕ → ℕ → FsState → S → Type 0
  OpenKeeps client_badge fd path flags entry_off st s =
      (ret : ℤ) × (st' : FsState) × (s' : S) × (fs_wrapper_open ops client_badge (pos fd) path flags
          entry_off st s
        ≡ ok (ret, st', s'))
      × RefsCounted st'

  -- Where each vnode has as many references as open entries, and is there only with one at least,
  -- fs_wrapper_open with a descriptor below 1024 ends without a stop, for any operations of the
  -- server, also where they fail or no entry is left, and the same holds after it.
  pub fs_wrapper_open-RefsCounted :
      (client_badge fd : ℕ) (path : List ℕ) (flags entry_off : ℕ) (st : FsState) (s : S)
      → RefsCounted st
      → fd < 1024
      → OpenKeeps client_badge fd path flags entry_off st s
  unfolding fs_wrapper_open alloc_entry
  fs_wrapper_open-RefsCounted client_badge fd path flags entry_off st s counted lt =
      elim (open_result-cases (ops.op_open path flags s).0) [
        | inl (ret, e) ↦ (ret, st, (ops.op_open path flags s).1, ground (arith, e), counted)
        | inr (r, e) ↦ elim (Option-cases (first_null 1024 0 st.server_entrys)) [
          | inl full ↦ (
            neg emfile,
            st,
            (ops.op_close r.vnode_private (is_dir r.vnode_type) (ops.op_open path flags s).1).1,
            ground (arith, e, full),
            counted,
          )
          | inr (i, found) ↦
              let (below, null) = first_null_lem 1024 0 i st.server_entrys found in
              let mid = entry_opened i flags path entry_off r st in
              (
                pos fd,
                record mid { mapping = entry_mapped client_badge fd (pos i) mid.mapping },
                (ops.op_open path flags s).1,
                ground (
                  arith,
                  e,
                  found,
                  mapped_lem client_badge fd i mid lt,
                  RefsCounted-may_open r st counted,
                ),
                entry_opened-RefsCounted i flags entry_off path r st counted (omega arith) null,
              )
        ]
      ]

  abbrev pub CloseKeeps : ℤ → FsState → S → Type 0
  CloseKeeps fid st s =
      (ret : ℤ) × (st' : FsState) × (s' : S) × (fs_wrapper_close ops fid st s ≡ ok (ret, st', s'))
      × RefsCounted st'

  -- Where each vnode has as many references as open entries, and is there only with one at least,
  -- fs_wrapper_close of any number ends without a stop, for any operations of the server, and the
  -- same holds after it.
  pub fs_wrapper_close-RefsCounted :
      (fid : ℤ) (st : FsState) (s : S) → RefsCounted st → CloseKeeps fid st s
  unfolding fs_wrapper_close entry_at
  fs_wrapper_close-RefsCounted (negsuc n) st s counted = (neg enoent, st, s, refl, counted)
  fs_wrapper_close-RefsCounted (pos i) st s counted = elim (dec_lt i 1024) [
    | no beyond ↦ (neg enoent, st, s, ground (arith, beyond), counted)
    | yes lt ↦ elim (Option-cases (st.server_entrys i)) [
      | inl null ↦ (neg enoent, st, s, ground (arith, lt, null), counted)
      | inr (e, used) ↦ elim (Option-cases (st.vnodes e.vnode)) [
        | inl gone ↦ absurd (vnode-held i e st counted lt used gone)
        | inr (v, ev) ↦ elim (Bool-cases (is_reserved v.type)) [
          | inl reserved ↦ (neg enoent, st, s, ground (arith, lt, used, ev, reserved), counted)
          | inr typed ↦ elim (Bool-cases (is_zero (ops.op_close v.private (is_dir v.type) s).0)) [
            | inl zero_ret ↦
                let (st', put, kept) = vnode_put-RefsCounted i e v st counted lt used ev in
                (
                  pos 0,
                  st',
                  (ops.op_close v.private (is_dir v.type) s).1,
                  ground (arith, lt, used, ev, typed, zero_ret, put),
                  kept,
                )
            | inr error ↦ (
              (ops.op_close v.private (is_dir v.type) s).0,
              st,
              (ops.op_close v.private (is_dir v.type) s).1,
              ground (arith, lt, used, ev, typed, error),
              counted,
            )
          ]
        ]
      ]
    ]
  ]
