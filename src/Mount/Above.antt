-- ===== src/Mount/Above.antt =====
-- The test of userland/servers/fsm/mount_info.c against what it is for: a mount point above a path.
use chcore.Common.{
  List, [], ap, arith, inl, inr, length, length-append, refl, sym, true, ℕ, ℕ_discrete, ◌++◌, ◌==◌,
  ◌||◌, ◌∙◌, ◌∷◌, ◌≡◌, ◌≤◌, ◌⊎◌,
}
use chcore.Mount.{MountPoint, char_at, eligible, mount_point_match, same_first, slash}
use mathlib.Core.Path.{subst}

-- The end of a path or of one of its components.
abbrev pub AtBoundary : List ℕ → Type 0
AtBoundary rest = (rest ≡ []) ⊎ ((r : List ℕ) × (rest ≡ slash ∷ r))

-- The root is above every path, any other mount point above itself and what continues it with a
-- slash.
abbrev pub IsAbove : List ℕ → List ℕ → Type 0
IsAbove p path = (p ≡ slash ∷ []) ⊎ ((rest : List ℕ) × (path ≡ p ++ rest) × AtBoundary rest)

-- A mount point from the root whose length is right.
abbrev pub FromRoot : MountPoint → Type 0
FromRoot mp = (mp.path_len ≡ length mp.path) × ((cs : List ℕ) × (mp.path ≡ slash ∷ cs))

same_first-append : (p rest : List ℕ) → same_first (length p) p (p ++ rest) ≡ true
same_first-append [] rest = refl
same_first-append (c ∷ cs) rest = ground (arith, same_first-append cs rest)

char_at-append : (p rest : List ℕ) → char_at (length p) (p ++ rest) ≡ char_at 0 rest
char_at-append [] rest = refl
char_at-append (c ∷ cs) rest = char_at-append cs rest

same_first-split :
    (p path : List ℕ) → same_first (length p) p path ≡ true → (rest : List ℕ) × (path ≡ p ++ rest)
same_first-split [] path h = (path, refl)
same_first-split (c ∷ cs) [] h = absurd (ground (arith, h))
same_first-split (c ∷ cs) (d ∷ ds) h =
    let (rest, e) = same_first-split cs ds (ground (arith, h)) in (rest, ground (arith, h, e))

-- A rest after which the test holds.
boundary :
    (p rest : List ℕ)
    → ((length (p ++ rest) == length p) || (char_at (length p) (p ++ rest) == slash)) ≡ true
    → AtBoundary rest
boundary p [] h = inl refl
boundary p (c ∷ cs) h =
    inr (cs, ground (arith, h, length-append p (c ∷ cs), char_at-append p (c ∷ cs)))

at_boundary :
    (p rest : List ℕ)
    → AtBoundary rest
    → ((length (p ++ rest) == length p) || (char_at (length p) (p ++ rest) == slash)) ≡ true
at_boundary p rest (inl e) = ground (arith, length-append p rest, ap length e)
at_boundary p rest (inr (r, e)) = ground (arith, char_at-append p rest, ap (char_at 0) e)

nil_of_length : (xs : List ℕ) → length xs ≡ 0 → xs ≡ []
nil_of_length [] e = refl
nil_of_length (x ∷ xs) e = absurd (omega (arith, e))

tests_split :
    (n : ℕ) (p path : List ℕ)
    → n ≡ length p
    → same_first n p path ≡ true
    → ((length path == n) || (char_at n path == slash)) ≡ true
    → (rest : List ℕ) × (path ≡ p ++ rest) × AtBoundary rest
tests_split n p path len same ends =
    let (rest, e) = same_first-split p path (ap (λ k. same_first k p path) (sym len) ∙ same) in
    (rest, e, boundary p rest (at_end rest len e ends))
  where
    at_end :
        (rest : List ℕ)
        → n ≡ length p
        → path ≡ p ++ rest
        → ((length path == n) || (char_at n path == slash)) ≡ true
        → ((length (p ++ rest) == length p) || (char_at (length p) (p ++ rest) == slash)) ≡ true
    at_end rest e e' h =
        subst (λ l. ((length l == length p) || (char_at (length p) l == slash)) ≡ true) e'
          (subst (λ k. ((length path == k) || (char_at k path == slash)) ≡ true) e h)

pub eligible-IsAbove :
    (mp : MountPoint) (cs : List ℕ)
    → FromRoot mp
    → eligible mp (slash ∷ cs) ≡ true
    → IsAbove mp.path (slash ∷ cs)
unfolding eligible mount_point_match
eligible-IsAbove mp cs (len, (ds, e)) h = elim (ℕ_discrete mp.path_len 1) [
  | yes one ↦
      inl (e ∙ ap (λ l. slash ∷ l) (nil_of_length ds (omega (arith, len, one, ap length e))))
  | no more ↦ inr (
      tests_split mp.path_len mp.path (slash ∷ cs) len (ground (arith, h, more))
        (ground (arith, h, more)))
]

tests_join :
    (n : ℕ) (p rest : List ℕ)
    → n ≡ length p
    → AtBoundary rest
    → (same_first n p (p ++ rest) ≡ true)
      × (((length (p ++ rest) == n) || (char_at n (p ++ rest) == slash)) ≡ true)
      × (n ≤ length (p ++ rest))
tests_join n p rest len at = (
  ap (λ k. same_first k p (p ++ rest)) len ∙ same_first-append p rest,
  ap (λ k. (length (p ++ rest) == k) || (char_at k (p ++ rest) == slash)) len
      ∙ at_boundary p rest at,
  omega (arith, len, length-append p rest),
)

pub IsAbove-eligible :
    (mp : MountPoint) (cs : List ℕ)
    → FromRoot mp
    → IsAbove mp.path (slash ∷ cs)
    → eligible mp (slash ∷ cs) ≡ true
unfolding eligible mount_point_match
IsAbove-eligible mp cs (len, (ds, e)) (inl root) = ground (arith, len, ap length root)
IsAbove-eligible mp cs (len, (ds, e)) (inr (rest, split, at)) =
    let (same, ends, le) = tests_join mp.path_len mp.path rest len at in
    all_tests (slash ∷ cs) split same ends le
  where
    all_tests :
        (path : List ℕ)
        → path ≡ mp.path ++ rest
        → same_first mp.path_len mp.path (mp.path ++ rest) ≡ true
        → ((length (mp.path ++ rest) == mp.path_len)
            || (char_at mp.path_len (mp.path ++ rest) == slash))
          ≡ true
        → mp.path_len ≤ length (mp.path ++ rest)
        → eligible mp path ≡ true
    all_tests path split same ends le =
        subst (λ l. eligible mp l ≡ true) (sym split) (ground (arith, same, ends, le))
