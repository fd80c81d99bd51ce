-- ===== src/VmSpace/Mmap/Shrink.antt =====
-- `unmap_vmrs` of kernel/mm/vmregion.c: it ends, and leaves the regions free of overlaps.
use chcore.Common.{
  Bool, Bool-cases, List, [], ap, arith, false, inl, inr, is_some, length, none, not, refl, some,
  suc, sym, true, ℕ, ◌&&◌, ◌*◌, ◌+◌, ◌-◌, ◌<◌, ◌==◌, ◌∙◌, ◌∷◌, ◌≡◌,
}
use chcore.VmSpace.{VmRegion, covers, find_in, is_vmr_in, unlink_vmr}
use chcore.VmSpace.Regions.{AreValid, Fits, found_in}
use chcore.VmSpace.Mmap.{shrunk, write_vmr}
use mathlib.Core.Path.{subst}

pub found-Fits :
    (vs : List VmRegion) (a : ℕ) (v : VmRegion) → AreValid vs → find_in vs a ≡ some v → Fits v
unfolding find_in
found-Fits [] a v valid h = cc
found-Fits (w ∷ vs) a v valid h = elim (Bool-cases (covers w a)) [
  | inl c ↦ let e : some w ≡ some v = rw c at h in subst Fits (ground (arith, e)) valid.0
  | inr c ↦ found-Fits vs a v valid.3 (rw c at h)
]

pub length-unlink_vmr :
    (r : ℕ) (vs : List VmRegion)
    → is_vmr_in r vs ≡ true
    → suc (length (unlink_vmr r vs)) ≡ length vs
unfolding is_vmr_in
length-unlink_vmr r [] h = cc
length-unlink_vmr r (w ∷ vs) h = ground (arith, length-unlink_vmr r vs)

-- No address that led nowhere leads to a region.
abbrev pub gains : List VmRegion → List VmRegion → ℕ → Bool
gains vs vs' addr = is_some (find_in vs' addr) && not (is_some (find_in vs addr))

-- A region that loses its first pages.
module _ (v : VmRegion) (f : Fits v) (len n : ℕ) (whole : len ≡ 4096 * n) (lt : len < v.size) where
  pub shrunk-Fits : Fits (shrunk len v)
  shrunk-Fits = record {
    first_page = f.first_page + n;
    pages = f.pages - n;
    aligned = omega (arith, f.aligned, f.below);
    whole = omega (arith, f.whole);
    below = omega (arith, f.below);
  }

  pub covers-shrunk : (addr : ℕ) → covers (shrunk len v) addr ≡ true → covers v addr ≡ true
  covers-shrunk addr c = ground (arith, f.below)

is_vmr_in-write_vmr :
    (k : ℕ) (new : VmRegion) (vs : List VmRegion)
    → is_vmr_in k (write_vmr new.vmr new vs) ≡ is_vmr_in k vs
unfolding is_vmr_in
is_vmr_in-write_vmr k new [] = refl
is_vmr_in-write_vmr k new (w ∷ vs) = ground (arith, is_vmr_in-write_vmr k new vs)

module _ (v new : VmRegion) (a : ℕ) (same : new.vmr ≡ v.vmr)
    (less : (addr : ℕ) → covers new addr ≡ true → covers v addr ≡ true) where
  pub find_in-write_vmr :
      (vs : List VmRegion)
      → AreValid vs
      → find_in vs a ≡ some v
      → (addr : ℕ) → find_in vs addr ≡ none
      → find_in (write_vmr v.vmr new vs) addr ≡ none
  unfolding find_in
  find_in-write_vmr [] valid h addr n = cc
  find_in-write_vmr (w ∷ vs) (f, fresh, clear, valid) h addr n = elim (Bool-cases (covers w a)) [
    | inl c ↦ let e : some w ≡ some v = rw c at h in ground (arith, e, less addr, n)
    | inr c ↦
        let here : find_in vs a ≡ some v = rw c at h in
        ground (arith, found_in vs a v here, fresh, find_in-write_vmr vs valid here addr)
  ]

  pub write_vmr-AreValid :
      (vs : List VmRegion)
      → AreValid vs
      → find_in vs a ≡ some v
      → Fits new
      → AreValid (write_vmr v.vmr new vs)
  unfolding find_in
  write_vmr-AreValid [] valid h g = tt
  write_vmr-AreValid (w ∷ vs) (f, fresh, clear, valid) h g = elim (Bool-cases (covers w a)) [
    | inl c ↦
        let e : some w ≡ some v = rw c at h in
        let same_head : (w.vmr == v.vmr) ≡ true = ground (arith, e) in
        rw same_head (
          g,
          ground (arith, e, same, fresh),
          λ addr d. ground (arith, e, less addr d, clear addr),
          valid,
        )
    | inr c ↦
        let here : find_in vs a ≡ some v = rw c at h in
        let other : (w.vmr == v.vmr) ≡ false = ground (arith, found_in vs a v here, fresh) in
        rw other (
          f,
          ap (λ r. is_vmr_in w.vmr (write_vmr r new vs)) (sym same)
              ∙ is_vmr_in-write_vmr w.vmr new vs
              ∙ fresh,
          λ addr d. find_in-write_vmr vs valid here addr (clear addr d),
          write_vmr-AreValid vs valid here g,
        )
  ]

-- An address of a region leads to it.
find_in-covered :
    (vs : List VmRegion) (a : ℕ) (v : VmRegion)
    → AreValid vs
    → find_in vs a ≡ some v
    → (addr : ℕ) → covers v addr ≡ true
    → find_in vs addr ≡ some v
unfolding find_in
find_in-covered [] a v valid h addr on = cc
find_in-covered (w ∷ vs) a v (f, fresh, clear, valid) h addr on = elim (Bool-cases (covers w a)) [
  | inl c ↦ let e : some w ≡ some v = rw c at h in ground (arith, e, on)
  | inr c ↦
      let found = find_in-covered vs a v valid (rw c at h) addr on in
      ground (arith, found, clear addr)
]

-- An address of the region that it loses is in no other.
pub find_in-write_vmr_left :
    (v new : VmRegion) (a : ℕ)
    → ((addr : ℕ) → covers new addr ≡ true → covers v addr ≡ true)
    → (vs : List VmRegion) → AreValid vs
    → find_in vs a ≡ some v
    → (addr : ℕ) → covers v addr ≡ true
    → covers new addr ≡ false
    → find_in (write_vmr v.vmr new vs) addr ≡ none
unfolding find_in
find_in-write_vmr_left v new a less [] valid h addr on off = cc
find_in-write_vmr_left v new a less (w ∷ vs) (f, fresh, clear, valid) h addr on off =
    elim (Bool-cases (covers w a)) [
      | inl c ↦ let e : some w ≡ some v = rw c at h in ground (arith, e, on, off, clear addr)
      | inr c ↦
          let here : find_in vs a ≡ some v = rw c at h in
          let rest = find_in-write_vmr_left v new a less vs valid here addr on off in
          let found = find_in-covered vs a v valid here addr on in
          ground (arith, found_in vs a v here, fresh, rest, clear addr, found)
    ]
