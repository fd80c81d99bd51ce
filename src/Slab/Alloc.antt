-- ===== src/Slab/Alloc.antt =====
-- `alloc_in_slab` and `free_in_slab` of kernel/mm/slab.c.
use chcore.Common.{
  List, List-cases, [], ap, arith, has, inl, inr, length, ok, refl, some, suc, true, update, zero,
  ℕ, ℕ_discrete, ◌%◌, ◌*◌, ◌+◌, ◌/◌, ◌<◌, ◌^◌, ◌∙◌, ◌∷◌, ◌≡◌, ◌≢◌, ◌≤◌,
}
use chcore.Slab.{
  SlabHeap, alloc_in_slab, alloc_of_order, chain_free, first_free, free_in_slab,
  get_free_mem_size_from_slab, order_for, order_to_size, orders_free, slab_min_order, take_slot,
}

-- Each free slot of a listed slab lies on pages of the slab, and no slab is at NULL.
abbrev pub SlabsValid : SlabHeap → Type 0
SlabsValid h =
    (order b s : ℕ)
    → has b (h.chain order) ≡ true
    → has s (h.free_list b) ≡ true
    → (h.slab_of (s / 4096) ≡ b) × (0 < b)

pub first_free_lem :
    (free_list : ℕ → List ℕ) (bs : List ℕ) (b : ℕ)
    → first_free free_list bs ≡ some b
    → (has b bs ≡ true) × ((s : ℕ) × (rest : List ℕ) × (free_list b ≡ s ∷ rest))
first_free_lem free_list [] b e = absurd (ground (arith, e))
first_free_lem free_list (x ∷ bs) b e = elim (List-cases (free_list x)) [
  | inl none_free ↦
      let (here, (s, rest, e')) = first_free_lem free_list bs b (ground (arith, e, none_free)) in
      (ground (arith, here), (s, rest, e'))
  | inr (s, rest, e') ↦ (ground (arith, e, e'), (s, rest, ground (arith, e, e')))
]

-- The heap without the first free slot of a slab.
abbrev pub after_take : ℕ → List ℕ → SlabHeap → SlabHeap
after_take b rest h = record h { free_list = update h.free_list b rest }

pub take_slot_lem :
    (b s : ℕ) (rest : List ℕ) (h : SlabHeap)
    → h.free_list b ≡ s ∷ rest
    → take_slot b h ≡ ok (s, after_take b rest h)
unfolding take_slot
take_slot_lem b s rest h e = ground (arith, e)

pub alloc_in_slab-take :
    (size b s : ℕ) (rest : List ℕ) (h : SlabHeap)
    → size ≤ 2048
    → first_free h.free_list (h.chain (order_for size)) ≡ some b
    → h.free_list b ≡ s ∷ rest
    → alloc_in_slab size h ≡ ok (s, after_take b rest h)
unfolding alloc_in_slab alloc_of_order
alloc_in_slab-take size b s rest h le found e = elim (List-cases (h.chain (order_for size))) [
  | inl nil ↦ absurd (ground (arith, found, nil))
  | inr (x, xs, cons) ↦ ground (arith, found, cons, take_slot_lem b s rest h e)
]

pub free_in_slab_lem :
    (s b : ℕ) (h : SlabHeap)
    → h.slab_of (s / 4096) ≡ b
    → 0 < b
    → free_in_slab s h ≡ ok (record h { free_list = update h.free_list b (s ∷ h.free_list b) })
unfolding free_in_slab
free_in_slab_lem s zero h e more = absurd (omega arith)
free_in_slab_lem s (suc b) h e more = ground (arith, e)

chain_free_ext :
    (f g : ℕ → List ℕ) (size : ℕ) (bs : List ℕ)
    → ((b : ℕ) → f b ≡ g b)
    → chain_free f size bs ≡ chain_free g size bs
chain_free_ext f g size [] same = refl
chain_free_ext f g size (b ∷ bs) same =
    ap (λ l. size * length l + chain_free f size bs) (same b)
    ∙ ap (λ n. size * length (g b) + n) (chain_free_ext f g size bs same)

orders_free_ext :
    (n order : ℕ) (h h' : SlabHeap)
    → ((b : ℕ) → h'.free_list b ≡ h.free_list b)
    → h'.chain ≡ h.chain
    → orders_free n order h' ≡ orders_free n order h
orders_free_ext zero order h h' same e = refl
orders_free_ext (suc n) order h h' same e = omega (
  arith,
  ap (λ c. chain_free h'.free_list (order_to_size order) (c order)) e,
  chain_free_ext h'.free_list h.free_list (order_to_size order) (h.chain order) same,
  orders_free_ext n (suc order) h h' same e,
)

-- A slot that is taken and given back: it was the first of its slab, the others are as they were,
-- and in the end all free lists and the size of the free memory are.
abbrev pub TakenAndFreed : ℕ → ℕ → SlabHeap → Type 0
TakenAndFreed size b h =
    (s : ℕ) × (h' : SlabHeap) × (h'' : SlabHeap) × (alloc_in_slab size h ≡ ok (s, h'))
    × (h.free_list b ≡ s ∷ h'.free_list b)
    × ((x : ℕ) → x ≢ b → h'.free_list x ≡ h.free_list x)
    × (free_in_slab s h' ≡ ok h'')
    × ((x : ℕ) → h''.free_list x ≡ h.free_list x)
    × (get_free_mem_size_from_slab h'' ≡ get_free_mem_size_from_slab h)

-- In a valid heap where the list of slabs for a size of up to 2048 has a free slot, alloc_in_slab
-- takes the first slot of the first such slab and leaves the other free lists; free_in_slab of that
-- slot then succeeds, and all free lists and the size of the free memory are as before.
pub free_in_slab-alloc_in_slab :
    (size b : ℕ) (h : SlabHeap)
    → SlabsValid h
    → size ≤ 2048
    → first_free h.free_list (h.chain (order_for size)) ≡ some b
    → TakenAndFreed size b h
unfolding get_free_mem_size_from_slab
free_in_slab-alloc_in_slab size b h valid le found =
    let (here, (s, rest, e)) = first_free_lem h.free_list (h.chain (order_for size)) b found in
    let (mapped, more) = valid (order_for size) b s here (ground (arith, e)) in
    let h' : SlabHeap = after_take b rest h in
    let same : (x : ℕ) → update h'.free_list b (s ∷ h'.free_list b) x ≡ h.free_list x = λ x.
      elim (ℕ_discrete x b) [
        | yes eq ↦ ground (arith, e, eq, ap h.free_list eq)
        | no ne ↦ ground (arith, ne)
      ] in
    (
      s,
      h',
      record h' { free_list = update h'.free_list b (s ∷ h'.free_list b) },
      alloc_in_slab-take size b s rest h le found e,
      ground (arith, e),
      λ x ne. ground (arith, ne),
      free_in_slab_lem s b h' mapped more,
      same,
      ap (λ n. n % 2 ^ 64)
          (orders_free_ext 7 slab_min_order h
            (record h' { free_list = update h'.free_list b (s ∷ h'.free_list b) }) same refl),
    )
