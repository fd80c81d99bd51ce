-- ===== src/FsBase/Refs.antt =====
-- The references to vnodes in userland/servers/fs_base: each open entry has one.
use chcore.Common.{
  Option, Option-cases, ap, arith, if◌then◌else◌, inl, inr, ltb, none, refl, some, suc, sym, true,
  update, zero, ℕ, ℕ_discrete, ◌+◌, ◌<◌, ◌==◌, ◌^◌, ◌∙◌, ◌≡◌, ◌≢◌, ◌≤◌,
}
use chcore.FsBase.{FsState, FsVnode, Opened, ServerEntry, max_server_entry_num, may_open}

abbrev pub holds : ℕ → Option ServerEntry → ℕ
holds id none = 0
holds id (some e) = if e.vnode == id then 1 else 0

-- The entries below `n` of a vnode.
pub refs : ℕ → ℕ → (ℕ → Option ServerEntry) → ℕ
refs zero id entrys = 0
refs (suc n) id entrys = refs n id entrys + holds id (entrys n)

abbrev pub refcnt_of : Option FsVnode → ℕ
refcnt_of none = 0
refcnt_of (some v) = v.refcnt

abbrev pub CountedAt : FsState → ℕ → Type 0
CountedAt st id =
    (refcnt_of (st.vnodes id) ≡ refs max_server_entry_num id st.server_entrys)
    × ((v : FsVnode) → st.vnodes id ≡ some v → 0 < v.refcnt)

-- Each vnode has as many references as entries, and goes with the last one.
abbrev pub RefsCounted : FsState → Type 0
RefsCounted st = (id : ℕ) → CountedAt st id

holds-le : (id : ℕ) (o : Option ServerEntry) → holds id o ≤ 1
holds-le id none = omega arith
holds-le id (some e) = ground arith

pub refs-le : (n id : ℕ) (entrys : ℕ → Option ServerEntry) → refs n id entrys ≤ n
unfolding refs
refs-le zero id entrys = omega arith
refs-le (suc n) id entrys = omega (arith, refs-le n id entrys, holds-le id (entrys n))

refs-beyond :
    (n id i : ℕ) (entrys : ℕ → Option ServerEntry) (o : Option ServerEntry)
    → n ≤ i
    → refs n id (update entrys i o) ≡ refs n id entrys
unfolding refs
refs-beyond zero id i entrys o le = refl
refs-beyond (suc n) id i entrys o le =
    omega (arith, refs-beyond n id i entrys o (omega arith), same)
  where
    same : holds id (update entrys i o n) ≡ holds id (entrys n)
    same = ap (holds id) (ground arith)

pub refs-update :
    (n id i : ℕ) (entrys : ℕ → Option ServerEntry) (o : Option ServerEntry)
    → i < n
    → refs n id (update entrys i o) + holds id (entrys i) ≡ refs n id entrys + holds id o
unfolding refs
refs-update zero id i entrys o lt = absurd (omega arith)
refs-update (suc n) id i entrys o lt = elim (ℕ_discrete n i) [
  | yes e ↦ omega (
    arith,
    refs-beyond n id i entrys o (omega (arith, e)),
    ap (holds id) (here e),
    ap (λ j. holds id (entrys j)) e,
  )
  | no ne ↦ omega (arith, refs-update n id i entrys o (omega arith), ap (holds id) (other ne))
]
  where
    here : n ≡ i → update entrys i o n ≡ o
    here e = ground (arith, e)

    other : n ≢ i → update entrys i o n ≡ entrys n
    other ne = ground (arith, ne)

pub refs-none : (n id : ℕ) → refs n id (λ i. none) ≡ 0
unfolding refs
refs-none zero id = refl
refs-none (suc n) id = omega (arith, refs-none n id)

-- A vnode has no more references than there are entries.
pub RefsCounted-may_open : (r : Opened) (st : FsState) → RefsCounted st → may_open r st ≡ true
unfolding may_open
RefsCounted-may_open r st counted = elim (Option-cases (st.vnodes r.vnode_id)) [
  | inl none_yet ↦ ground (arith, none_yet)
  | inr (v, e) ↦ ground (
    arith,
    e,
    few (sym (ap refcnt_of e) ∙ (counted r.vnode_id).0) (refs-le 1024 r.vnode_id st.server_entrys),
  )
]
  where
    few : {a b : ℕ} → a ≡ b → b ≤ 1024 → ltb (a + 1) (2 ^ 31) ≡ true
    few e le = ground (arith, e)
