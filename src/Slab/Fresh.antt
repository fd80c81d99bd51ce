-- ===== src/Slab/Fresh.antt =====
-- Allocation in kernel/mm/slab.c keeps the slabs valid, also when it makes a new one.
use chcore.Common.{
  List, List-cases, [], arith, has, inl, inr, none, ok, refl, some, true, ℕ, ℕ_discrete, ◌+◌, ◌-◌,
  ◌/◌, ◌<◌, ◌∷◌, ◌≡◌, ◌≢◌, ◌≤◌,
}
use chcore.Slab.{
  SlabHeap, alloc_in_slab, alloc_of_order, assigned, first_free, order_for, order_to_size,
  slab_init_size, slots,
}
use chcore.Slab.Order.{order_for-FitsSlab}
use chcore.Slab.Alloc.{SlabsValid, after_take, alloc_in_slab-take, first_free_lem, take_slot_lem}
use chcore.Slab.Chunk.{
  NextChunk, SlabsValid-take, SlabsValid-with_slab, first_slot, init_slab_cache_lem, positive,
  with_slab,
}

-- No order loses its slabs.
abbrev pub ChainsKept : SlabHeap → SlabHeap → Type 0
ChainsKept h h' = (order : ℕ) → h.chain order ≢ [] → h'.chain order ≢ []

-- A slot that was taken, whose page leads to a slab, with the slabs of the pages after that.
abbrev pub SlotTaken : ℕ → (ℕ → ℕ) → SlabHeap → Type 0
SlotTaken size slab_of h =
    (s : ℕ) × (h' : SlabHeap) × (alloc_in_slab size h ≡ ok (s, h'))
    × (0 < h'.slab_of (s / 4096))
    × SlabsValid h'
    × (h'.slab_of ≡ slab_of)
    × ChainsKept h h'

-- The first slot of a listed slab is taken.
SlotTaken-first :
    (size order b s : ℕ) (left : List ℕ) (h h0 : SlabHeap)
    → SlabsValid h
    → has b (h.chain order) ≡ true
    → h.free_list b ≡ s ∷ left
    → alloc_in_slab size h0 ≡ ok (s, after_take b left h)
    → ChainsKept h0 h
    → SlotTaken size h.slab_of h0
SlotTaken-first size order b s left h h0 valid here e run chains =
    let (mapped, more) = valid order b s here (ground (arith, e)) in
    (
      s,
      after_take b left h,
      run,
      omega (arith, mapped),
      SlabsValid-take b s left h valid e,
      refl,
      chains,
    )

pub alloc_in_slab-listed :
    (size b : ℕ) (h : SlabHeap)
    → SlabsValid h
    → size ≤ 2048
    → first_free h.free_list (h.chain (order_for size)) ≡ some b
    → SlotTaken size h.slab_of h
alloc_in_slab-listed size b h valid le found =
    let (here, (s, left, e)) = first_free_lem h.free_list (h.chain (order_for size)) b found in
    SlotTaken-first size (order_for size) b s left h h valid here e
      (alloc_in_slab-take size b s left h le found e) (λ o some_slab. some_slab)

ChainsKept-with_slab :
    (addr : ℕ) (rest : List ℕ) (order : ℕ) (h : SlabHeap)
    → ChainsKept h (with_slab addr rest order h)
ChainsKept-with_slab addr rest order h o some_slab nil = elim (ℕ_discrete o order) [
  | yes e ↦ absurd (ground (arith, e, nil))
  | no ne ↦ some_slab (ground (arith, ne, nil))
]

-- With a new slab where no slab has a free slot.
pub alloc_in_slab-assigned :
    (size addr : ℕ) (rest : List ℕ) (h : SlabHeap)
    → SlabsValid h
    → size ≤ 2048
    → h.chunks ≡ addr ∷ rest
    → NextChunk addr h
    → h.chain (order_for size) ≢ []
    → first_free h.free_list (h.chain (order_for size)) ≡ none
    → SlotTaken size (assigned addr h.slab_of) h
unfolding alloc_in_slab alloc_of_order
alloc_in_slab-assigned size addr rest h valid le chunk next some_slab none_free =
    let e = first_slot addr (order_for size) (order_for-FitsSlab size le).2 in
    SlotTaken-first size (order_for size) addr (addr + order_to_size (order_for size))
      (slots (slab_init_size / order_to_size (order_for size) - 1 - 1)
        (addr + order_to_size (order_for size) + order_to_size (order_for size))
        (order_to_size (order_for size)))
      (with_slab addr rest (order_for size) h) h
      (SlabsValid-with_slab addr rest (order_for size) h valid next (positive (order_for size)))
      (ground arith) (ground (arith, e))
      (elim (List-cases (h.chain (order_for size))) [
        | inl nil ↦ absurd (some_slab nil)
        | inr (x, xs, cons) ↦ ground (
          arith,
          cons,
          none_free,
          init_slab_cache_lem addr rest (order_for size) h chunk,
          take_slot_lem addr (addr + order_to_size (order_for size))
              (slots (slab_init_size / order_to_size (order_for size) - 1 - 1)
                (addr + order_to_size (order_for size) + order_to_size (order_for size))
                (order_to_size (order_for size)))
              (with_slab addr rest (order_for size) h) (ground (arith, e)),
        )
      ])
      (ChainsKept-with_slab addr rest (order_for size) h)
