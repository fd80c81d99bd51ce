-- ===== src/VmSpace/Regions.antt =====
-- The list of regions of kernel/mm/vmregion.c: no address lies in two of them.
use chcore.Common.{
  Bool-cases, List, [], arith, false, if◌then◌else◌, inl, inr, none, refl, some, true, ℕ,
  ℕ_discrete, ◌*◌, ◌+◌, ◌<◌, ◌==◌, ◌^◌, ◌∷◌, ◌≡◌,
}
use chcore.VmSpace.{
  VmRegion, check_vmr_intersect, covers, find_in, is_vmr_in, meets, meets_one, unlink_vmr,
}

-- A region of whole pages whose end does not wrap.
pub record Fits (v : VmRegion) : Type 0 where
  pub first_page : ℕ
  pub pages : ℕ
  pub aligned : v.start ≡ 4096 * first_page
  pub whole : v.size ≡ 4096 * pages
  pub below : v.start + v.size < 2 ^ 64

-- No region of the list has an address of the given one.
abbrev pub Clear : VmRegion → List VmRegion → Type 0
Clear v vs = (addr : ℕ) → covers v addr ≡ true → find_in vs addr ≡ none

abbrev pub AreValid : List VmRegion → Type 0
AreValid [] = Unit
AreValid (v ∷ vs) = Fits v × (is_vmr_in v.vmr vs ≡ false) × Clear v vs × AreValid vs

-- The check of `check_vmr_intersect` is right for regions of whole pages, though it leaves out the
-- last byte of the new one.
meets-Fits :
    (new v : VmRegion)
    → Fits new
    → Fits v
    → 0 < new.size
    → meets new v ≡ false
    → (addr : ℕ) → covers new addr ≡ true
    → covers v addr ≡ false
meets-Fits new v f g some_size h addr c =
    ground (arith, f.aligned, f.whole, f.below, g.aligned, g.whole, g.below)

meets_one-Clear :
    (new : VmRegion) (vs : List VmRegion)
    → Fits new
    → 0 < new.size
    → AreValid vs
    → meets_one new vs ≡ false
    → Clear new vs
unfolding meets_one find_in
meets_one-Clear new [] f some_size valid h addr c = refl
meets_one-Clear new (v ∷ vs) f some_size valid h addr c =
    rw (meets-Fits new v f valid.0 some_size (ground arith) addr c)
      (meets_one-Clear new vs f some_size valid.3 (ground arith) addr c)

pub check-Clear :
    (new : VmRegion) (vs : List VmRegion)
    → Fits new
    → AreValid vs
    → check_vmr_intersect vs new ≡ false
    → Clear new vs
unfolding check_vmr_intersect
check-Clear new vs f valid h = elim (ℕ_discrete new.size 0) [
  | yes e ↦ λ addr c. absurd (ground (arith, f.below))
  | no ne ↦ meets_one-Clear new vs f (omega arith) valid (ground arith)
]

-- A region that is found is on the list.
pub found_in :
    (vs : List VmRegion) (addr : ℕ) (v : VmRegion)
    → find_in vs addr ≡ some v
    → is_vmr_in v.vmr vs ≡ true
unfolding find_in is_vmr_in
found_in [] addr v h = cc
found_in (w ∷ vs) addr v h = elim (Bool-cases (covers w addr)) [
  | inl c ↦ let e : some w ≡ some v = rw c at h in ground (arith, e)
  | inr c ↦ ground (arith, found_in vs addr v (rw c at h))
]

pub found_covers :
    (vs : List VmRegion) (addr : ℕ) (v : VmRegion) → find_in vs addr ≡ some v → covers v addr ≡ true
unfolding find_in
found_covers [] addr v h = cc
found_covers (w ∷ vs) addr v h = elim (Bool-cases (covers w addr)) [
  | inl c ↦ let e : some w ≡ some v = rw c at h in ground (arith, e, c)
  | inr c ↦ found_covers vs addr v (rw c at h)
]

covers_of_none :
    (vs : List VmRegion) (a addr : ℕ) (v : VmRegion)
    → find_in vs a ≡ some v
    → find_in vs addr ≡ none
    → covers v addr ≡ false
unfolding find_in
covers_of_none [] a addr v h n = cc
covers_of_none (w ∷ vs) a addr v h n = elim (Bool-cases (covers w a)) [
  | inl c ↦ let e : some w ≡ some v = rw c at h in ground (arith, e)
  | inr c ↦ covers_of_none vs a addr v (rw c at h) (ground arith)
]

-- The list without a region finds what it found, but for the addresses of that region.
pub find_in-unlink_vmr :
    (vs : List VmRegion) (a : ℕ) (v : VmRegion)
    → AreValid vs
    → find_in vs a ≡ some v
    → (addr : ℕ)
    → find_in (unlink_vmr v.vmr vs) addr ≡ (if covers v addr then none else find_in vs addr)
unfolding find_in
find_in-unlink_vmr [] a v valid h addr = cc
find_in-unlink_vmr (w ∷ vs) a v (f, fresh, clear, valid) h addr = elim (Bool-cases (covers w a)) [
  | inl c ↦ let e : some w ≡ some v = rw c at h in ground (arith, e, clear addr)
  | inr c ↦
      let rest = find_in-unlink_vmr vs a v valid (rw c at h) addr in
      let other = found_in vs a v (rw c at h) in
      ground (arith, rest, other, fresh, clear addr, covers_of_none vs a addr v (rw c at h))
]

is_vmr_in-unlink_vmr :
    (r k : ℕ) (vs : List VmRegion) → is_vmr_in k vs ≡ false → is_vmr_in k (unlink_vmr r vs) ≡ false
unfolding is_vmr_in
is_vmr_in-unlink_vmr r k [] h = refl
is_vmr_in-unlink_vmr r k (w ∷ vs) h = ground (arith, is_vmr_in-unlink_vmr r k vs)

pub unlink_vmr-AreValid :
    (vs : List VmRegion) (a : ℕ) (v : VmRegion)
    → AreValid vs
    → find_in vs a ≡ some v
    → AreValid (unlink_vmr v.vmr vs)
unfolding find_in
unlink_vmr-AreValid [] a v valid h = tt
unlink_vmr-AreValid (w ∷ vs) a v (f, fresh, clear, valid) h = elim (Bool-cases (w.vmr == v.vmr)) [
  | inl e ↦ rw e valid
  | inr e ↦
      let here : find_in vs a ≡ some v = ground (arith) in
      rw e (
        f,
        is_vmr_in-unlink_vmr v.vmr w.vmr vs fresh,
        λ addr c. ground (arith, find_in-unlink_vmr vs a v valid here addr, clear addr c),
        unlink_vmr-AreValid vs a v valid here,
      )
]
