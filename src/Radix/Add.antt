-- ===== src/Radix/Add.antt =====
-- `radix_add` and `radix_get` of kernel/lib/radix.c: the tree is a map from keys to values.
use chcore.Common.{
  Bool, Bool-cases, List, Option, Option-cases, ap, arith, enomem, false, granted, if◌then◌else◌,
  inl, inr, later_grants, neg, none, ok, pos, refl, some, suc, sym, update, zero, ℕ, ℕ_discrete, ℤ,
  ◌<◌, ◌==◌, ◌^◌, ◌∙◌, ◌≡◌, ◌⊎◌,
}
use chcore.Radix.{
  Node, Radix, add_below, clashes, empty_node, get_below, index, radix_add, radix_del, radix_get,
}
use chcore.Radix.Keys.{same_path, same_path-eq, same_path_self}

-- A map after the write of one key.
abbrev pub written : ℕ → ℕ → Option ℕ → (ℕ → Option ℕ) → ℕ → Option ℕ
written level key value f other = if same_path level key other then value else f other

-- What a write below a node leaves: the value, or the map as it was when the heap ran out.
abbrev pub Written : (level : ℕ) → ℕ → Option ℕ → (ℕ → Option ℕ) → ℤ → (ℕ → Option ℕ) → Type 0
Written level key value before r after =
    ((r ≡ pos 0) × ((other : ℕ) → after other ≡ written level key value before other))
    ⊎ ((r ≡ neg enomem) × ((other : ℕ) → after other ≡ before other))

get-empty_node : (level key : ℕ) → get_below level key (empty_node level) ≡ none
unfolding get_below
get-empty_node zero key = refl
get-empty_node (suc level) key = refl

abbrev AddsBelow : (level : ℕ) → ℕ → Option ℕ → Node level → List Bool → Type 0
AddsBelow level key value node grants =
    (r : ℤ) × (node' : Node level) × (rest : List Bool) × (add_below level key value node grants
      ≡ ok (r, node', rest))
    × Written level key value (λ k. get_below level k node) r (λ k. get_below level k node')

-- The write into one child of a node.
Written-child :
    (level key : ℕ) (value : Option ℕ) (node : Node (suc level)) (child child' : Node level) (r : ℤ)
    → ((other : ℕ)
        → index (suc level) key ≡ index (suc level) other
        → get_below (suc level) other node ≡ get_below level other child)
    → Written level key value (λ k. get_below level k child) r (λ k. get_below level k child')
    → Written
        (suc level)
        key
        value
        (λ k. get_below (suc level) k node)
        r
        (λ k. get_below (suc level) k (update node (index (suc level) key) (some child')))
unfolding get_below same_path
Written-child level key value node child child' r same (inl (done, w)) = inl (
  done,
  λ other. elim (ℕ_discrete (index (suc level) key) (index (suc level) other)) [
    | yes e ↦ ground (arith, w other, same other e)
    | no ne ↦ ground arith
  ],
)
Written-child level key value node child child' r same (inr (out, w)) = inr (
  out,
  λ other. elim (ℕ_discrete (index (suc level) key) (index (suc level) other)) [
    | yes e ↦ ground (arith, w other, same other e)
    | no ne ↦ ground arith
  ],
)

add_below_lem :
    (level key : ℕ) (value : Option ℕ) (node : Node level) (grants : List Bool)
    → clashes (get_below level key node) value ≡ false
    → AddsBelow level key value node grants
unfolding add_below get_below same_path
add_below_lem zero key value node grants free = (
  pos 0,
  update node (index 0 key) value,
  grants,
  ground (arith, free),
  inl (refl, λ other. ground arith),
)
add_below_lem (suc level) key value node grants free =
    elim (Option-cases (node (index (suc level) key))) [
      | inr (child, e) ↦
          let (r, child', rest, run, w) =
            add_below_lem level key value child grants (ground (arith, free, e)) in
          (
            r,
            update node (index (suc level) key) (some child'),
            rest,
            ground (arith, e, run),
            Written-child level key value node child child' r
                (λ other same. ground (arith, same, e)) w,
          )
      | inl e ↦ elim (Bool-cases (granted grants)) [
        | inr out ↦ (
          neg enomem,
          node,
          later_grants grants,
          ground (arith, e, out),
          inr (refl, λ other. refl),
        )
        | inl more ↦
            let (r, child', rest, run, w) =
              add_below_lem level key value (empty_node level) (later_grants grants)
                (rw (get-empty_node level key) refl) in
            (
              r,
              update node (index (suc level) key) (some child'),
              rest,
              ground (arith, e, more, run),
              Written-child level key value node (empty_node level) child' r
                  (λ other same. ground (arith, same, e, get-empty_node level other)) w,
            )
      ]
    ]

Written-before :
    (level key : ℕ) (value : Option ℕ) (f f' : ℕ → Option ℕ) (r : ℤ) (after : ℕ → Option ℕ)
    → ((k : ℕ) → f' k ≡ f k)
    → Written level key value f r after
    → Written level key value f' r after
Written-before level key value f f' r after same (inl (done, w)) =
    inl (done, λ other. ground (arith, w other, same other))
Written-before level key value f f' r after same (inr (out, w)) =
    inr (out, λ other. w other ∙ sym (same other))

get-fresh : (key : ℕ) (radix : Radix) → radix.root ≡ none → radix_get key radix ≡ none
unfolding radix_get
get-fresh key radix e = ground (arith, e)

radix_add-Written :
    (key : ℕ) (value : Option ℕ) (radix : Radix)
    → clashes (radix_get key radix) value ≡ false
    → (r : ℤ) × (radix' : Radix) × (radix_add key value radix ≡ ok (r, radix'))
      × Written 15 key value (λ k. radix_get k radix) r (λ k. radix_get k radix')
unfolding radix_add radix_get
radix_add-Written key value radix free = elim (Option-cases radix.root) [
  | inr (root, e) ↦
      let (r, root', rest, run, w) =
        add_below_lem 15 key value root radix.grants (ground (arith, free, e)) in
      (
        r,
        record { root = some root'; grants = rest },
        ground (arith, e, run),
        Written-before 15 key value (λ k. get_below 15 k root) (λ k. radix_get k radix) r
            (λ k. get_below 15 k root') (λ k. ground (arith, e)) w,
      )
  | inl e ↦ elim (Bool-cases (granted radix.grants)) [
    | inr out ↦ (
      neg enomem,
      record radix { grants = later_grants radix.grants },
      ground (arith, e, out),
      inr (refl, λ other. refl),
    )
    | inl more ↦
        let (r, root', rest, run, w) =
          add_below_lem 15 key value (empty_node 15) (later_grants radix.grants)
            (ground (arith, get-empty_node 15 key)) in
        (
          r,
          record { root = some root'; grants = rest },
          ground (arith, e, more, run),
          Written-before 15 key value (λ k. get_below 15 k (empty_node 15)) (λ k. radix_get k radix)
              r (λ k. get_below 15 k root')
              (λ k. ground (arith, get-fresh k radix e, get-empty_node 15 k)) w,
        )
  ]
]

-- What `radix_add` leaves for keys of 64 bits.
abbrev pub Stored : ℕ → Option ℕ → Radix → ℤ → Radix → Type 0
Stored key value radix r radix' =
    ((r ≡ pos 0)
      × ((other : ℕ)
          → other < 2 ^ 64
          → radix_get other radix' ≡ (if key == other then value else radix_get other radix)))
    ⊎ ((r ≡ neg enomem) × ((other : ℕ) → radix_get other radix' ≡ radix_get other radix))

path_as_eq :
    (key other : ℕ) → key < 2 ^ 64 → other < 2 ^ 64 → same_path 15 key other ≡ (key == other)
path_as_eq key other lt lt' = elim (Bool-cases (same_path 15 key other)) [
  | inl h ↦ ground (arith, same_path-eq key other lt lt' h)
  | inr h ↦ elim (ℕ_discrete key other) [
    | yes e ↦ absurd (ground (arith, h, ap (same_path 15 key) (sym e), same_path_self 15 key))
    | no ne ↦ ground (arith, h)
  ]
]

Stored-Written :
    (key : ℕ) (value : Option ℕ) (radix radix' : Radix) (r : ℤ)
    → key < 2 ^ 64
    → Written 15 key value (λ k. radix_get k radix) r (λ k. radix_get k radix')
    → Stored key value radix r radix'
Stored-Written key value radix radix' r lt (inr same) = inr same
Stored-Written key value radix radix' r lt (inl (done, w)) =
    inl (done, λ other lt'. ground (arith, w other, path_as_eq key other lt lt'))

-- Adding under a 64-bit key, where not both the old and the new value are present, always returns:
-- with 0 the key has the new value and every other 64-bit key its old one, or with -ENOMEM all keys
-- have their old values.
pub radix_add-Stored :
    (key : ℕ) (value : Option ℕ) (radix : Radix)
    → key < 2 ^ 64
    → clashes (radix_get key radix) value ≡ false
    → (r : ℤ) × (radix' : Radix) × (radix_add key value radix ≡ ok (r, radix'))
      × Stored key value radix r radix'
radix_add-Stored key value radix lt free =
    let (r, radix', run, w) = radix_add-Written key value radix free in
    (r, radix', run, Stored-Written key value radix radix' r lt w)

-- Deleting a 64-bit key always returns: with 0 the key has no value and every other 64-bit key its
-- old one, or with -ENOMEM, since nodes on the way are made, all keys have their old values.
pub radix_del-Stored :
    (key : ℕ) (radix : Radix)
    → key < 2 ^ 64
    → (r : ℤ) × (radix' : Radix) × (radix_del key radix ≡ ok (r, radix'))
      × Stored key none radix r radix'
unfolding radix_del
radix_del-Stored key radix lt = radix_add-Stored key none radix lt (no_clash (radix_get key radix))
  where
    no_clash : (old : Option ℕ) → clashes old none ≡ false
    no_clash none = refl
    no_clash (some v) = refl
