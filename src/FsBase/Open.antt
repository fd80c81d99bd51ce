-- ===== src/FsBase/Open.antt =====
-- Entries that are opened and freed in userland/servers/fs_base, and the counts of their vnodes.
use chcore.Common.{
  List, Option, Option-cases, ap, arith, inl, inr, none, ok, refl, some, suc, sym, update, zero, ℕ,
  ℕ_discrete, ◌+◌, ◌-◌, ◌<◌, ◌∙◌, ◌≡◌, ◌≢◌, ◌≤◌, ◌⊎◌,
}
use chcore.FsBase.{
  FsState, FsVnode, Opened, ServerEntry, entry_opened, first_null, free_entry, ref_dropped,
  vnode_for, vnode_put,
}
use chcore.FsBase.Refs.{CountedAt, RefsCounted, holds, refcnt_of, refs, refs-le, refs-update}
use mathlib.Core.Path.{subst}

pub first_null_lem :
    (n i j : ℕ) (entrys : ℕ → Option ServerEntry)
    → first_null n i entrys ≡ some j
    → (j < i + n) × (entrys j ≡ none)
unfolding first_null
first_null_lem zero i j entrys e = absurd (ground (arith, e))
first_null_lem (suc n) i j entrys e = elim (Option-cases (entrys i)) [
  | inl null ↦
      let here : i ≡ j = ground (arith, e, null) in
      (omega (arith, here), ap entrys (sym here) ∙ null)
  | inr (x, used) ↦
      let (lt, null) = first_null_lem n (suc i) j entrys (ground (arith, e, used)) in
      (omega (arith, lt), null)
]

-- The count of the new entry's vnode.
vnode_for-refcnt :
    (r : Opened) (n : ℕ) (st : FsState)
    → refcnt_of (st.vnodes r.vnode_id) ≡ n
    → n ≤ 1024
    → (vnode_for r st).refcnt ≡ n + 1
unfolding vnode_for
vnode_for-refcnt r n st counted le = elim (Option-cases (st.vnodes r.vnode_id)) [
  | inl null ↦ ground (arith, null, counted)
  | inr (v, e) ↦ ground (arith, e, counted)
]

-- A state whose vnode has been set, at that vnode and elsewhere.
pub set_at :
    (st : FsState) (entrys : ℕ → Option ServerEntry) (id : ℕ) (v : FsVnode)
    → v.refcnt ≡ refs 1024 id entrys
    → 0 < v.refcnt
    → CountedAt (record st { server_entrys = entrys; vnodes = update st.vnodes id (some v) }) id
set_at st entrys id v e more = (
  ap refcnt_of (here id (some v) st.vnodes) ∙ e,
  λ w ew. positive w (sym (here id (some v) st.vnodes) ∙ ew),
)
  where
    here : (id : ℕ) (o : Option FsVnode) (f : ℕ → Option FsVnode) → update f id o id ≡ o
    here id o f = ground arith

    positive : (w : FsVnode) → some v ≡ some w → 0 < w.refcnt
    positive w ew = ground (arith, ew, more)

unset_at :
    (st : FsState) (entrys : ℕ → Option ServerEntry) (id : ℕ)
    → refs 1024 id entrys ≡ 0
    → CountedAt (record st { server_entrys = entrys; vnodes = update st.vnodes id none }) id
unset_at st entrys id e = (
  ap refcnt_of (here id st.vnodes) ∙ sym e,
  λ w ew. absurd (no_some w (sym (here id st.vnodes) ∙ ew)),
)
  where
    here : (id : ℕ) (f : ℕ → Option FsVnode) → update f id none id ≡ none
    here id f = ground arith

    no_some : (w : FsVnode) → ¬ (none ≡ some w)
    no_some w e = cc

pub set_elsewhere :
    (st : FsState) (entrys : ℕ → Option ServerEntry) (id j : ℕ) (o : Option FsVnode)
    → CountedAt st j
    → j ≢ id
    → refs 1024 j entrys ≡ refs 1024 j st.server_entrys
    → CountedAt (record st { server_entrys = entrys; vnodes = update st.vnodes id o }) j
set_elsewhere st entrys id j o counted ne e = (
  ap refcnt_of (other st.vnodes) ∙ counted.0 ∙ sym e,
  λ w ew. counted.1 w (sym (other st.vnodes) ∙ ew),
)
  where
    other : (f : ℕ → Option FsVnode) → update f id o j ≡ f j
    other f = ground (arith, ne)

pub holds-own : (e : ServerEntry) → holds e.vnode (some e) ≡ 1
holds-own e = ground arith

pub holds-other : (e : ServerEntry) (id : ℕ) → id ≢ e.vnode → holds id (some e) ≡ 0
holds-other e id ne = ground (arith, ne)

pub entry_opened-RefsCounted :
    (i flags entry_off : ℕ) (path : List ℕ) (r : Opened) (st : FsState)
    → RefsCounted st
    → i < 1024
    → st.server_entrys i ≡ none
    → RefsCounted (entry_opened i flags path entry_off r st)
unfolding entry_opened
entry_opened-RefsCounted i flags entry_off path r st counted lt null id =
    let e : ServerEntry = record {
      flags = flags;
      offset = entry_off;
      path = path;
      vnode = r.vnode_id;
    } in
    let entrys : ℕ → Option ServerEntry = update st.server_entrys i (some e) in
    elim (ℕ_discrete id r.vnode_id) [
      | yes same ↦
          let n =
            vnode_for-refcnt r (refs 1024 r.vnode_id st.server_entrys) st (counted r.vnode_id).0
              (refs-le 1024 r.vnode_id st.server_entrys) in
          let total =
            one_more (refs 1024 r.vnode_id st.server_entrys)
              (refs-update 1024 r.vnode_id i st.server_entrys (some e) lt)
              (ap (holds r.vnode_id) null) (holds-own e) in
          subst
            (CountedAt (record st {
              server_entrys = entrys;
              vnodes = update st.vnodes r.vnode_id (some (vnode_for r st));
            }))
            (sym same)
            (set_at st entrys r.vnode_id (vnode_for r st) (n ∙ sym total)
              (above (refs 1024 r.vnode_id st.server_entrys) n))
      | no ne ↦ set_elsewhere st entrys r.vnode_id id (some (vnode_for r st)) (counted id) ne (
          unchanged (refs-update 1024 id i st.server_entrys (some e) lt) (ap (holds id) null)
            (holds-other e id ne))
    ]
  where
    one_more : (b : ℕ) → {a x y : ℕ} → a + x ≡ b + y → x ≡ 0 → y ≡ 1 → a ≡ b + 1
    one_more b e p q = omega (arith, e, p, q)

    unchanged : {a b x y : ℕ} → a + x ≡ b + y → x ≡ 0 → y ≡ 0 → a ≡ b
    unchanged e p q = omega (arith, e, p, q)

    above : (b : ℕ) → {a : ℕ} → a ≡ b + 1 → 0 < a
    above b e = omega (arith, e)

-- What freeing an entry does to the counts.
refs-freed :
    (i : ℕ) (e : ServerEntry) (entrys : ℕ → Option ServerEntry)
    → i < 1024
    → entrys i ≡ some e
    → (refs 1024 e.vnode (update entrys i none) + 1 ≡ refs 1024 e.vnode entrys)
      × ((id : ℕ) → id ≢ e.vnode → refs 1024 id (update entrys i none) ≡ refs 1024 id entrys)
refs-freed i e entrys lt used = (
  omega (arith, refs-update 1024 e.vnode i entrys none lt, ap (holds e.vnode) used, holds-own e),
  λ id ne.
      omega (arith, refs-update 1024 id i entrys none lt, ap (holds id) used, holds-other e id ne),
)

-- The entry that is freed has a vnode.
pub vnode-held :
    (i : ℕ) (e : ServerEntry) (st : FsState)
    → RefsCounted st
    → i < 1024
    → st.server_entrys i ≡ some e
    → st.vnodes e.vnode ≢ none
vnode-held i e st counted lt used null =
    let freed = refs-freed i e st.server_entrys lt used in
    let count = (counted e.vnode).0 in
    let none_left = ap refcnt_of null in omega (arith, freed.0, count, none_left)

vnode_put-cases :
    (id : ℕ) (v : FsVnode) (n : ℕ) (st : FsState)
    → v.refcnt ≡ n + 1
    → (o : Option FsVnode) × (vnode_put id v st ≡ ok (record st { vnodes = update st.vnodes id o }))
      × (((o ≡ none) × (n ≡ 0)) ⊎ ((w : FsVnode) × (o ≡ some w) × (w.refcnt ≡ n) × (0 < n)))
unfolding vnode_put ref_dropped
vnode_put-cases id v zero st e = (none, ground (arith, e), inl (refl, refl))
vnode_put-cases id v (suc n) st e = (
  some (record v { refcnt = v.refcnt - 1 }),
  ground (arith, e),
  inr (record v { refcnt = v.refcnt - 1 }, refl, omega (arith, e), omega arith),
)

pub vnode_put-RefsCounted :
    (i : ℕ) (e : ServerEntry) (v : FsVnode) (st : FsState)
    → RefsCounted st
    → i < 1024
    → st.server_entrys i ≡ some e
    → st.vnodes e.vnode ≡ some v
    → (st' : FsState) × (vnode_put e.vnode v (free_entry i st) ≡ ok st') × RefsCounted st'
vnode_put-RefsCounted i e v st counted lt used ev =
    let (freed, others) = refs-freed i e st.server_entrys lt used in
    let entrys : ℕ → Option ServerEntry = update st.server_entrys i none in
    let (o, put, left) =
      vnode_put-cases e.vnode v (refs 1024 e.vnode entrys) (free_entry i st)
        (sym (ap refcnt_of ev) ∙ (counted e.vnode).0 ∙ sym freed) in
    (
      record st { server_entrys = entrys; vnodes = update st.vnodes e.vnode o },
      put,
      λ id. elim (ℕ_discrete id e.vnode) [
        | yes same ↦
            subst
              (CountedAt
                (record st { server_entrys = entrys; vnodes = update st.vnodes e.vnode o }))
              (sym same)
              (elim left [
                | inl (gone, last) ↦
                    subst
                      (λ x.
                        CountedAt
                          (record st {
                            server_entrys = entrys;
                            vnodes = update st.vnodes e.vnode x;
                          })
                          e.vnode)
                      (sym gone) (unset_at st entrys e.vnode last)
                | inr (w, kept, n, more) ↦
                    subst
                      (λ x.
                        CountedAt
                          (record st {
                            server_entrys = entrys;
                            vnodes = update st.vnodes e.vnode x;
                          })
                          e.vnode)
                      (sym kept) (set_at st entrys e.vnode w n (positive n more))
              ])
        | no ne ↦ set_elsewhere st entrys e.vnode id o (counted id) ne (others id ne)
      ],
    )
  where
    positive : {a b : ℕ} → a ≡ b → 0 < b → 0 < a
    positive e more = omega (arith, e)
