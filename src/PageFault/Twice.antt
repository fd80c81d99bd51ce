-- ===== src/PageFault/Twice.antt =====
-- A fault on a page that its object has not, and a second fault there.
use chcore.Common.{
  Bool, Bool-cases, Option, ap, arith, if◌then◌else◌, inl, inr, none, ok, ok-injective, pos, some,
  suc, sym, update, update_self, ℕ, ◌-◌, ◌<◌, ◌==◌, ◌^◌, ◌∙◌, ◌≡◌, ◌≤◌, ◌⊎◌,
}
use chcore.Radix.{Radix, radix_add, radix_get}
use chcore.Radix.Add.{Stored, radix_add-Stored}
use chcore.VmSpace.{PmObject, VmRegion, find_vmr_for_va, pmo_anonym, pmo_shm}
use chcore.PageTable.Write.{translation}
use chcore.PageTable.Map.{inside}
use chcore.PageFault.{
  FaultState, commit_page_to_pmo, get_page_from_pmo, handle_trans_fault, page_of,
}
use chcore.PageFault.Resolve.{
  Faulting, Faulting-Mappable, GoodFrame, PageMapped, handle_trans_fault-map_page_of,
  made_on_demand, map_page_of-committed, map_page_of-fresh,
}
use mathlib.Core.Path.{subst}

commit_page_to_pmo_lem :
    (pmo : PmObject) (radix radix' : Radix) (i pa : ℕ)
    → (pmo.type ≡ pmo_anonym) ⊎ (pmo.type ≡ pmo_shm)
    → radix_add i (some pa) radix ≡ ok (pos 0, radix')
    → commit_page_to_pmo pmo radix i pa ≡ ok radix'
unfolding commit_page_to_pmo
commit_page_to_pmo_lem pmo radix radix' i pa type e =
    ground (arith, made_on_demand pmo.type type, e)

radix_get-added :
    (radix radix' : Radix) (i pa : ℕ)
    → i < 2 ^ 64
    → radix_get i radix ≡ none
    → radix_add i (some pa) radix ≡ ok (pos 0, radix')
    → (other : ℕ) → other < 2 ^ 64
    → radix_get other radix' ≡ (if i == other then some pa else radix_get other radix)
radix_get-added radix radix' i pa lt missing e other lt' =
    let (r, radix'', run, stored) =
      radix_add-Stored i (some pa) radix lt (ground (arith, missing)) in
    from_stored (subst (λ x. Stored i (some pa) radix x.0 x.1) (ok-injective (sym run ∙ e)) stored)
  where
    from_stored :
        Stored i (some pa) radix (pos 0) radix'
        → radix_get other radix' ≡ (if i == other then some pa else radix_get other radix)
    from_stored (inl (done, same)) = same other lt'
    from_stored (inr (out, same)) = absurd (ground (arith, out))

PageMapped-again :
    (addr pa perm : ℕ) (st st' st'' : FaultState) (other old : ℕ)
    → PageMapped addr pa perm st st'
    → PageMapped addr pa perm st' st''
    → other < 2 ^ 48
    → translation st''.pgtbl other old ≡ translation st'.pgtbl other old
PageMapped-again addr pa perm st st' st'' other old (attr, set, same, query, pass)
      (attr', set', same', query', pass') lt =
    elim (Bool-cases (inside addr 4096 other)) [
      | inl i ↦
          ground (arith, i, query other old lt, query' other old lt, ok-injective (sym set' ∙ set))
      | inr o ↦ ground (arith, o, query' other old lt)
    ]

-- The pages of the object after the commit.
radix_get-committed :
    (st st' : FaultState) (pmo i pa : ℕ) (radix' : Radix)
    → i < 2 ^ 64
    → radix_get i (st.radix pmo) ≡ none
    → radix_add i (some pa) (st.radix pmo) ≡ ok (pos 0, radix')
    → st'.radix ≡ update st.radix pmo radix'
    → (other : ℕ) → other < 2 ^ 64
    → radix_get other (st'.radix pmo)
      ≡ (if i == other then some pa else radix_get other (st.radix pmo))
radix_get-committed st st' pmo i pa radix' lt missing added e other lt' =
    ap (λ f. radix_get other (f pmo)) e
    ∙ ap (radix_get other) (update_self st.radix pmo radix')
    ∙ radix_get-added (st.radix pmo) radix' i pa lt missing added other lt'

get_page-none : (radix : Radix) (i : ℕ) → radix_get i radix ≡ none → get_page_from_pmo radix i ≡ 0
unfolding get_page_from_pmo
get_page-none radix i e = ground (arith, e)

get_page-some :
    (radix : Radix) (i pa : ℕ) → radix_get i radix ≡ some pa → get_page_from_pmo radix i ≡ pa
unfolding get_page_from_pmo
get_page-some radix i pa e = ground (arith, e)

module _ (frame : ℕ → ℕ) (own : Bool) where
  -- Two faults on a page: the first commits the next page to the object and maps it, the second
  -- changes no translation and no page of an object.
  abbrev pub FaultedTwice : VmRegion → ℕ → ℕ → ℕ → FaultState → Type 0
  FaultedTwice v addr i pa st =
      (st' st'' : FaultState) × (handle_trans_fault frame own addr st ≡ ok (pos 0, st'))
      × PageMapped (page_of addr) pa v.perm st st'
      × ((other : ℕ)
          → other < 2 ^ 64
          → radix_get other (st'.radix v.pmo)
            ≡ (if i == other then some pa else radix_get other (st.radix v.pmo)))
      × (handle_trans_fault frame own addr st' ≡ ok (pos 0, st''))
      × (st''.radix ≡ st'.radix)
      × ((other old : ℕ)
          → other < 2 ^ 48
          → translation st''.pgtbl other old ≡ translation st'.pgtbl other old)

  Faulting-again :
      (v : VmRegion) (addr i pa : ℕ) (st st' : FaultState)
      → Faulting frame own v addr i st
      → PageMapped (page_of addr) pa v.perm st st'
      → Faulting frame own v addr i st'
  Faulting-again v addr i pa st st' (found, type, start, size, below, at, mine, pass)
        (attr, set, same, query, pass') =
      (
        subst (λ s. find_vmr_for_va s addr ≡ some v) (sym same) found,
        subst (λ s. ((s.pmobject v.pmo).type ≡ pmo_anonym) ⊎ ((s.pmobject v.pmo).type ≡ pmo_shm))
            (sym same) type,
        start,
        subst (λ s. page_of addr - v.start < (s.pmobject v.pmo).size) (sym same) size,
        below,
        at,
        mine,
        λ other h. pass' other (ground (arith, h)) (pass other h),
      )

  -- Let an address fault in a region of an anonymous or shared object that the object covers, at a
  -- page below 2^48 without a block on its way, and not be executable or belong to the current
  -- thread; let the object have no page there and its tree take one, and let seven pages be had,
  -- the first of them aligned and below 2^48. handle_trans_fault returns 0, maps the page on that
  -- frame with the rights of the region and leaves every other translation; the object has that
  -- frame at the index and its other pages as before. A second fault there returns 0 and changes no
  -- translation of 48 bits and no tree.
  pub handle_trans_fault_twice :
      (v : VmRegion) (addr i left : ℕ) (st : FaultState) (radix' : Radix)
      → Faulting frame own v addr i st
      → st.pages ≡ suc left
      → 6 ≤ left
      → GoodFrame (frame (suc left))
      → radix_get i (st.radix v.pmo) ≡ none
      → (radix_add i (some (frame (suc left))) (st.radix v.pmo) ≡ ok (pos 0, radix'))
      → FaultedTwice v addr i (frame (suc left)) st
  handle_trans_fault_twice v addr i left st radix' faulting pages enough good missing added =
      let (st', run, (radix, (fewer, mapped))) =
        map_page_of-fresh frame own v i (page_of addr) left st radix'
          (get_page-none (st.radix v.pmo) i missing) pages
          (commit_page_to_pmo_lem (st.vmspace.pmobject v.pmo) (st.radix v.pmo) radix' i
            (frame (suc left)) faulting.1 added)
          (Faulting-Mappable frame own v addr i (frame (suc left)) st faulting good)
          (omega arith) in
      let again = Faulting-again v addr i (frame (suc left)) st st' faulting mapped in
      let (st'', run', (radix'', (fewer', mapped'))) =
        map_page_of-committed frame own v i (page_of addr) (frame (suc left)) st'
          (get_page-some (st'.radix v.pmo) i (frame (suc left)) (
            radix_get-committed st st' v.pmo i (frame (suc left)) radix' (small_index faulting)
              missing added radix i (small_index faulting)
            ∙ at_self i (frame (suc left)) (radix_get i (st.radix v.pmo))))
          good.0 (Faulting-Mappable frame own v addr i (frame (suc left)) st' again good)
          (omega arith) in
      (
        st',
        st'',
        handle_trans_fault-map_page_of frame own v addr i st st' faulting run,
        mapped,
        radix_get-committed st st' v.pmo i (frame (suc left)) radix' (small_index faulting) missing
            added radix,
        handle_trans_fault-map_page_of frame own v addr i st' st'' again run',
        radix'',
        (λ other old lt.
            PageMapped-again (page_of addr) (frame (suc left)) v.perm st st' st'' other old mapped
              mapped' lt),
      )
    where
      small_index : Faulting frame own v addr i st → i < 2 ^ 64
      small_index f = omega (arith, f.4, f.5)

      at_self : (i pa : ℕ) (o : Option ℕ) → (if i == i then some pa else o) ≡ some pa
      at_self i pa o = ground arith
