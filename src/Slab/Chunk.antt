-- ===== src/Slab/Chunk.antt =====
-- A new slab of kernel/mm/slab.c: its slots lie in its 2MB, and the heap stays valid with it.
use chcore.Common.{
  List, ap, arith, has, ok, suc, sym, true, update, zero, ℕ, ℕ_discrete, ◌%◌, ◌*◌, ◌+◌, ◌-◌, ◌/◌,
  ◌<◌, ◌∙◌, ◌∷◌, ◌≡◌, ◌≢◌, ◌≤◌,
}
use chcore.Slab.{
  SlabHeap, assigned, init_slab_cache, order_to_size, slab_init_size, slab_max_order, slots,
}
use chcore.Slab.Alloc.{SlabsValid, after_take}
use native.Mathlib.Nat.{suc-mul, div-mul-le_self, pow-le-pow_right, one-le-pow, le-div_iff_mul-le}

-- `n` slots of a size end at `n` times the size.
has-slots :
    (n slot size s : ℕ)
    → has s (slots n slot size) ≡ true
    → (slot ≤ s) × (s + size ≤ slot + n * size)
unfolding slots
has-slots zero slot size s h = absurd (ground (arith, h))
has-slots (suc n) slot size s h = elim (ℕ_discrete s slot) [
  | yes e ↦ (omega (arith, e), omega (arith, e, suc-mul n size))
  | no ne ↦
      let (le, lt) = has-slots n (slot + size) size s (ground (arith, h, ne)) in
      (omega arith, omega (arith, lt, suc-mul n size))
]

-- The next chunk: a page-aligned address whose pages belong to no slab.
abbrev pub NextChunk : ℕ → SlabHeap → Type 0
NextChunk addr h =
    (0 < addr)
    × (addr % 4096 ≡ 0)
    × ((p : ℕ) → addr / 4096 ≤ p → p < addr / 4096 + 512 → h.slab_of p ≡ 0)

pub SlabsValid-take :
    (b s : ℕ) (rest : List ℕ) (h : SlabHeap)
    → SlabsValid h
    → h.free_list b ≡ s ∷ rest
    → SlabsValid (after_take b rest h)
SlabsValid-take b s rest h valid e order x slot listed free = elim (ℕ_discrete x b) [
  | yes eq ↦ valid order x slot listed (ground (arith, free, eq, e, ap h.free_list eq))
  | no ne ↦ valid order x slot listed (ground (arith, free, ne))
]

-- The slots of a new slab lie in its chunk.
slots-chunk :
    (addr order s : ℕ)
    → 0 < order_to_size order
    → has s (
        slots
          (slab_init_size / order_to_size order - 1)
          (addr + order_to_size order)
          (order_to_size order))
      ≡ true
    → (addr ≤ s) × (s < addr + slab_init_size)
slots-chunk addr order s more h =
    let (le, lt) =
      has-slots (slab_init_size / order_to_size order - 1) (addr + order_to_size order)
        (order_to_size order) s h in
    (
      omega arith,
      chunk_end (slab_init_size / order_to_size order) (order_to_size order) s addr more lt
          (div-mul-le_self slab_init_size (order_to_size order)),
    )
  where
    chunk_end :
        (q size s addr : ℕ)
        → 0 < size
        → s + size ≤ addr + size + (q - 1) * size
        → q * size ≤ slab_init_size
        → s < addr + slab_init_size
    chunk_end zero size s addr more lt le = omega arith
    chunk_end (suc q) size s addr more lt le =
        omega (arith, suc-mul q size, ap (λ x. x * size) (back q), lt)
      where
        back : (q : ℕ) → suc q - 1 ≡ q
        back q = omega arith

-- The heap with a new slab.
abbrev pub with_slab : ℕ → List ℕ → ℕ → SlabHeap → SlabHeap
with_slab addr rest order h = record {
  chain = update h.chain order (addr ∷ h.chain order);
  free_list = update h.free_list addr (
      slots (slab_init_size / order_to_size order - 1) (addr + order_to_size order)
        (order_to_size order));
  slab_of = assigned addr h.slab_of;
  chunks = rest;
}

pub init_slab_cache_lem :
    (addr : ℕ) (rest : List ℕ) (order : ℕ) (h : SlabHeap)
    → h.chunks ≡ addr ∷ rest
    → init_slab_cache order h ≡ ok (addr, with_slab addr rest order h)
unfolding init_slab_cache
init_slab_cache_lem addr rest order h e = ground (arith, e)

listed_before :
    (addr order at x : ℕ) (chain : ℕ → List ℕ)
    → x ≢ addr
    → has x (update chain order (addr ∷ chain order) at) ≡ true
    → has x (chain at) ≡ true
listed_before addr order at x chain ne listed = elim (ℕ_discrete at order) [
  | yes e ↦ ground (arith, listed, e, ne, ap chain e)
  | no other ↦ ground (arith, listed, other)
]

pub SlabsValid-with_slab :
    (addr : ℕ) (rest : List ℕ) (order : ℕ) (h : SlabHeap)
    → SlabsValid h
    → NextChunk addr h
    → 0 < order_to_size order
    → SlabsValid (with_slab addr rest order h)
SlabsValid-with_slab addr rest order h valid (more, aligned, unused) positive at x s listed free =
    elim (ℕ_discrete x addr) [
      | yes e ↦
          let (le, lt) = slots-chunk addr order s positive (ground (arith, free, e)) in
          (in_chunk le lt ∙ sym e, omega (arith, e, more))
      | no ne ↦
          let (mapped, some_slab) =
            valid at x s (listed_before addr order at x h.chain ne listed)
              (ground (arith, free, ne)) in
          (elsewhere mapped some_slab, some_slab)
    ]
  where
    in_chunk : addr ≤ s → s < addr + slab_init_size → assigned addr h.slab_of (s / 4096) ≡ addr
    in_chunk le lt = ground (arith, aligned)

    elsewhere : h.slab_of (s / 4096) ≡ x → 0 < x → assigned addr h.slab_of (s / 4096) ≡ x
    elsewhere mapped some_slab = ground (arith, mapped, unused (s / 4096))

slots-more : (n slot size : ℕ) → 0 < n → slots n slot size ≡ slot ∷ slots (n - 1) (slot + size) size
unfolding slots
slots-more zero slot size more = absurd (omega arith)
slots-more (suc n) slot size more = ap (λ m. slot ∷ slots m (slot + size) size) (omega arith)

pub positive : (order : ℕ) → 0 < order_to_size order
positive order = one-le-pow order 2 (omega arith)

-- A slab has two slots at least.
two_slots : (order : ℕ) → order ≤ slab_max_order → 2 ≤ slab_init_size / order_to_size order
two_slots order le =
    (le-div_iff_mul-le {k = order_to_size order} {x = 2} {y = slab_init_size} (positive order)).1
      (omega (arith, pow-le-pow_right {n = 2} (omega arith) {i = order} {j = 11} le))

pub first_slot :
    (addr order : ℕ)
    → order ≤ slab_max_order
    → slots
        (slab_init_size / order_to_size order - 1)
        (addr + order_to_size order)
        (order_to_size order)
      ≡ (addr + order_to_size order)
        ∷ slots
            (slab_init_size / order_to_size order - 1 - 1)
            (addr + order_to_size order + order_to_size order)
            (order_to_size order)
first_slot addr order le =
    slots-more (slab_init_size / order_to_size order - 1) (addr + order_to_size order)
      (order_to_size order) (omega (arith, two_slots order le))
