-- ===== src/PageTable/Walk.antt =====
-- A walk through the levels of a page table changes what is under its path only.
use chcore.Common.{
  Bool, Option, ap, arith, false, if◌then◌else◌, inl, inr, none, ok, refl, suc, true, update, zero,
  ℕ, ℕ_discrete, ◌&&◌, ◌+◌, ◌-◌, ◌<◌, ◌==◌, ◌||◌, ◌∙◌, ◌≡◌, ◌≤◌, ◌⊎◌,
}
use chcore.PageTable.{
  Entry, Nest, Page, block, get_next_ptp, index, invalid, normal_ptp, query_levels, table, walk,
  zeroed_nest,
}

-- Whether two addresses have the same index in each of `n` levels of tables.
abbrev pub same_path : ℕ → ℕ → ℕ → ℕ → Bool
same_path h zero va other = true
same_path h (suc n) va other =
    (index (h + suc n) va == index (h + suc n) other) && same_path h n va other

-- Whether a walk gets to its table: no block on the way, and no table missing unless it is made.
abbrev pub passes : (T : Type 0) → Bool → ℕ → (n : ℕ) → ℕ → Nest n T → Bool
passes T alloc h zero va t = true
passes T alloc h (suc n) va t = elim (t (index (h + suc n) va)) [
  | invalid ↦ alloc
  | table child ↦ passes T alloc h n va child
  | block page ↦ false
]

pub same_path_self : (h n va : ℕ) → same_path h n va va ≡ true
same_path_self h zero va = refl
same_path_self h (suc n) va = ground (arith, same_path_self h n va)

pub Entry-cases :
    {T : Type 0} (e : Entry T)
    → (e ≡ invalid) ⊎ (((t : T) × (e ≡ table t)) ⊎ ((page : Page) × (e ≡ block page)))
Entry-cases invalid = inl refl
Entry-cases (table t) = inr (inl (t, refl))
Entry-cases (block page) = inr (inr (page, refl))

next-fresh :
    {T : Type 0} (t : T) (alloc : Bool) (pages : ℕ)
    → alloc ≡ true
    → 0 < pages
    → get_next_ptp t invalid alloc pages ≡ ok (normal_ptp t, pages - 1)
unfolding get_next_ptp
next-fresh t true (suc pages) made more = ap (λ k. ok (normal_ptp t, k)) (omega arith)
next-fresh t alloc zero made more = absurd (omega arith)
next-fresh t false (suc pages) made more = absurd (ground (arith, made))

alloc_of_enough :
    {n pages : ℕ} {alloc : Bool}
    → alloc ≡ true
    → (alloc ≡ false) ⊎ (n ≤ pages)
    → (alloc ≡ true) × (n ≤ pages)
alloc_of_enough made (inr le) = (made, le)
alloc_of_enough made (inl none_made) = absurd (ground (arith, made, none_made))

fewer_left :
    {n pages : ℕ} {alloc : Bool} → (alloc ≡ false) ⊎ (suc n ≤ pages) → (alloc ≡ false) ⊎ (n ≤ pages)
fewer_left (inl none_made) = inl none_made
fewer_left (inr le) = inr (omega arith)

module _ {T : Type 0} (zeroed : T) (query : T → ℕ → ℕ → Option (ℕ × Page)) where
  -- A walk to `leaf`, which became `set leaf`: what the queries find and where walks pass.
  abbrev pub Walked : ℕ → (n : ℕ) → ℕ → T → T → Nest n T → Nest n T → Type 0
  Walked h n va leaf leaf' t t' =
      ((other pa : ℕ)
        → same_path h n va other ≡ true
        → query leaf other pa ≡ query_levels query h n t other pa)
      × ((other pa : ℕ)
          → query_levels query h n t' other pa ≡ (
              if same_path h n va other
              then query leaf' other pa
              else query_levels query h n t other pa))
      × ((other : ℕ) (alloc : Bool)
          → passes T alloc h n other t' ≡ (passes T alloc h n other t || same_path h n va other))

  Walked-above :
      (h n va : ℕ) (leaf leaf' : T) (t : Nest (suc n) T) (child child' : Nest n T)
      → ((other pa : ℕ)
          → index (h + suc n) va ≡ index (h + suc n) other
          → query_levels query h n child other pa ≡ query_levels query h (suc n) t other pa)
      → ((other : ℕ) (alloc : Bool)
          → index (h + suc n) va ≡ index (h + suc n) other
          → (passes T alloc h n other child || same_path h n va other)
            ≡ (passes T alloc h (suc n) other t || same_path h n va other))
      → Walked h n va leaf leaf' child child'
      → Walked h (suc n) va leaf leaf' t (update t (index (h + suc n) va) (table child'))
  unfolding query_levels
  Walked-above h n va leaf leaf' t child child' same same' (old, new, pass) = (
    λ other pa e. ground (arith, old other pa, same other pa),
    λ other pa. elim (ℕ_discrete (index (h + suc n) va) (index (h + suc n) other)) [
      | yes e ↦ ground (arith, new other pa, same other pa e)
      | no ne ↦ ground arith
    ],
    λ other alloc. elim (ℕ_discrete (index (h + suc n) va) (index (h + suc n) other)) [
      | yes e ↦ ground (arith, pass other alloc, same' other alloc e)
      | no ne ↦ ground arith
    ],
  )

  module _ (none_zeroed : (other pa : ℕ) → query zeroed other pa ≡ none) where
    pub query-zeroed_nest :
        (h n other pa : ℕ) → query_levels query h n (zeroed_nest zeroed n) other pa ≡ none
    unfolding query_levels
    query-zeroed_nest h zero other pa = none_zeroed other pa
    query-zeroed_nest h (suc n) other pa = refl

    passes-zeroed_nest :
        (h n va other : ℕ) (alloc : Bool)
        → (passes T alloc h n other (zeroed_nest zeroed n) || same_path h n va other)
          ≡ (alloc || same_path h n va other)
    passes-zeroed_nest h zero va other false = refl
    passes-zeroed_nest h zero va other true = refl
    passes-zeroed_nest h (suc n) va other alloc = refl

    -- A walk that returns: the table at its end, and the pages that are left.
    abbrev pub Walk : Bool → ℕ → (n : ℕ) → ℕ → (T → T) → Nest n T → ℕ → Type 0
    Walk alloc h n va set t pages =
        (t' : Nest n T) × (left : ℕ) × (leaf : T) × (walk zeroed alloc h n va set t pages
          ≡ ok (t', left))
        × ((pages ≤ left + n)
            × ((alloc ≡ false → left ≡ pages) × Walked h n va leaf (set leaf) t t'))

    passes-fresh : (h n va : ℕ) → passes T true h n va (zeroed_nest zeroed n) ≡ true
    passes-fresh h zero va = refl
    passes-fresh h (suc n) va = refl

    -- The walk from the next level on, with the entry written.
    Walk-above :
        (alloc : Bool) (h n va : ℕ) (set : T → T) (t : Nest (suc n) T) (child : Nest n T)
        (pages left : ℕ)
        → (get_next_ptp (zeroed_nest zeroed n) (t (index (h + suc n) va)) alloc pages
            ≡ ok (normal_ptp child, left))
        → pages ≤ suc left
        → (alloc ≡ false → left ≡ pages)
        → ((other pa : ℕ)
            → index (h + suc n) va ≡ index (h + suc n) other
            → query_levels query h n child other pa ≡ query_levels query h (suc n) t other pa)
        → ((other : ℕ) (alloc : Bool)
            → index (h + suc n) va ≡ index (h + suc n) other
            → (passes T alloc h n other child || same_path h n va other)
              ≡ (passes T alloc h (suc n) other t || same_path h n va other))
        → Walk alloc h n va set child left
        → Walk alloc h (suc n) va set t pages
    unfolding walk
    Walk-above alloc h n va set t child pages left next few kept same same'
          (child', left', leaf, run, (fewer, (kept', walked))) =
        (
          update t (index (h + suc n) va) (table child'),
          left',
          leaf,
          rw next rw run refl,
          (
            omega arith,
            (
              λ e. kept' e ∙ kept e,
              Walked-above h n va leaf (set leaf) t child child' same same' walked,
            ),
          ),
        )

    -- A walk that passes and has a page for each level, or makes no tables, returns.
    pub walk_lem :
        (alloc : Bool) (h n va : ℕ) (set : T → T) (t : Nest n T) (pages : ℕ)
        → passes T alloc h n va t ≡ true
        → (alloc ≡ false) ⊎ (n ≤ pages)
        → Walk alloc h n va set t pages
    unfolding walk query_levels get_next_ptp
    walk_lem alloc h zero va set t pages pass enough = (
      set t,
      pages,
      t,
      refl,
      (omega arith, (λ e. refl, (λ other pa e. refl, λ other pa. refl, λ other a. refl))),
    )
    walk_lem alloc h (suc n) va set t pages pass enough =
        elim (Entry-cases (t (index (h + suc n) va))) [
          | inr (inr (page, e)) ↦ absurd (ground (arith, e))
          | inr (inl (child, e)) ↦
              Walk-above alloc h n va set t child pages pages (rw e refl) (omega arith) (λ e. refl)
                (λ other pa same. ground (arith, e, same)) (λ other a same. ground (arith, e, same))
                (walk_lem alloc h n va set child pages (ground (arith, e)) (fewer_left enough))
          | inl e ↦
              let made = alloc_of_enough (ground (arith, e)) enough in
              Walk-above alloc h n va set t (zeroed_nest zeroed n) pages (pages - 1)
                (ground (
                  arith,
                  e,
                  next-fresh (zeroed_nest zeroed n) alloc pages made.0 (omega (arith, made.1)),
                ))
                (omega arith) (λ e'. absurd (ground (arith, made.0)))
                (λ other pa same. ground (arith, e, same, query-zeroed_nest h n other pa))
                (λ other a same. ground (arith, e, same, passes-zeroed_nest h n va other a))
                (walk_lem alloc h n va set (zeroed_nest zeroed n) (pages - 1)
                  (ground (arith, made.0, passes-fresh h n va)) (inr (omega (arith, made.1))))
        ]
