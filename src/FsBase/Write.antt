-- ===== src/FsBase/Write.antt =====
-- `fs_wrapper_write` of userland/servers/fs_base/fs_wrapper_ops.c: the offset, the size and the
-- references after it.
use chcore.Common.{
  Bool-cases, ap, arith, inl, inr, ltb, ok, pos, refl, some, sym, update, ℕ, ℕ_discrete, ℤ, ◌%◌,
  ◌+◌, ◌<◌, ◌^◌, ◌∙◌, ◌≡◌, ◌≤◌, ◌⊎◌,
}
use chcore.FsBase.{FsState, FsVnode, ServerEntry, ServerOps, entry_at}
use chcore.FsBase.Refs.{CountedAt, RefsCounted, holds, refcnt_of, refs-update}
use chcore.FsBase.Open.{set_at, set_elsewhere}
use chcore.FsBase.Offset.{added, fs_wrapper_write, grown, moved}
use mathlib.Core.Path.{subst}

-- An entry that is replaced by one of the same vnode.
moved-RefsCounted :
    (i : ℕ) (e : ServerEntry) (ret : ℤ) (st : FsState)
    → RefsCounted st
    → i < 1024
    → st.server_entrys i ≡ some e
    → RefsCounted (moved i e ret st)
unfolding moved
moved-RefsCounted i e ret st counted lt used id =
    let new : ServerEntry = record e { offset = added e.offset ret } in
    (
      (counted id).0
          ∙ same (refs-update 1024 id i st.server_entrys (some new) lt) (ap (holds id) used),
      (counted id).1,
    )
  where
    same : {a b x : ℕ} → a + x ≡ b + holds id (some e) → x ≡ holds id (some e) → b ≡ a
    same p q = omega (arith, p, q)

grown-RefsCounted :
    (id : ℕ) (v : FsVnode) (off : ℕ) (st : FsState)
    → RefsCounted st
    → st.vnodes id ≡ some v
    → RefsCounted (grown id v off st)
unfolding grown
grown-RefsCounted id v off st counted ev = elim (Bool-cases (ltb v.size off)) [
  | inl above ↦ rw above λ j. elim (ℕ_discrete j id) [
    | yes here ↦
        subst
          (CountedAt (record st { vnodes = update st.vnodes id (some (record v { size = off })) }))
          (sym here)
          (set_at st st.server_entrys id (record v { size = off })
            (sym (ap refcnt_of ev) ∙ (counted id).0) ((counted id).1 v ev))
    | no ne ↦
        set_elsewhere st st.server_entrys id j (some (record v { size = off })) (counted j) ne refl
  ]
  | inr within_file ↦ rw within_file counted
]

-- The offset and the size after a write.
abbrev pub Advanced : ℕ → ServerEntry → FsVnode → ℕ → FsState → Type 0
Advanced i e v n st =
    (st.server_entrys i ≡ some (record e { offset = e.offset + n }))
    × ((size : ℕ) × (st.vnodes e.vnode ≡ some (record v { size = size }))
        × (v.size ≤ size)
        × (e.offset + n ≤ size)
        × ((size ≡ v.size) ⊎ (size ≡ e.offset + n)))

grown-Advanced :
    (i n : ℕ) (e : ServerEntry) (v : FsVnode) (st : FsState)
    → st.vnodes e.vnode ≡ some v
    → e.offset + n < 2 ^ 64
    → Advanced i e v n (grown e.vnode v (added e.offset (pos n)) (moved i e (pos n) st))
unfolding grown moved
grown-Advanced i n e v st ev fits = elim (Bool-cases (ltb v.size ((e.offset + n) % 2 ^ 64))) [
  | inl above ↦ (
    ground (arith, above),
    (e.offset + n, ground (arith, above), ground arith, omega arith, inr refl),
  )
  | inr within_file ↦ (
    ground (arith, within_file),
    (v.size, ground (arith, within_file, ev), omega arith, ground arith, inl refl),
  )
]

module _ {S : Type 0} (ops : ServerOps S) where
  abbrev pub WriteKeeps : ℕ → ServerEntry → FsVnode → ℕ → ℕ → FsState → S → Type 0
  WriteKeeps i e v count n st s =
      (st' : FsState) × (s' : S) × (fs_wrapper_write ops (pos i) count st s ≡ ok (pos n, st', s'))
      × Advanced i e v n st'
      × RefsCounted st'

  -- Let each vnode have as many references as open entries, and a write of some bytes to an open
  -- entry be answered by the server with a count whose sum with the offset is below 2^64.
  -- fs_wrapper_write returns the count and advances the offset by it; the size becomes the greater
  -- of the old size and the new offset; the references stay counted.
  pub fs_wrapper_write-Advanced :
      (i : ℕ) (e : ServerEntry) (v : FsVnode) (count n : ℕ) (st : FsState) (s : S)
      → RefsCounted st
      → i < 1024
      → st.server_entrys i ≡ some e
      → st.vnodes e.vnode ≡ some v
      → 0 < count
      → (ops.op_write v.private e.offset count s).0 ≡ pos n
      → e.offset + n < 2 ^ 64
      → WriteKeeps i e v count n st s
  unfolding fs_wrapper_write entry_at moved
  fs_wrapper_write-Advanced i e v count n st s counted lt used ev more wrote fits = (
    grown e.vnode v (added e.offset (pos n)) (moved i e (pos n) st),
    (ops.op_write v.private e.offset count s).1,
    ground (arith, lt, used, ev, more, wrote),
    grown-Advanced i n e v st ev fits,
    grown-RefsCounted e.vnode v (added e.offset (pos n)) (moved i e (pos n) st)
        (moved-RefsCounted i e (pos n) st counted lt used) ev,
  )
