-- ===== src/Kmalloc/Slot.antt =====
-- The chunks and slots that kernel/mm/kmalloc.c passes between the buddy allocator and the slabs.
use chcore.Common.{
  Bool-cases, [], ap, arith, false, inl, inr, ok, refl, suc, sym, update, zero, ℕ, ℕ_discrete, ◌*◌,
  ◌+◌, ◌-◌, ◌/◌, ◌<◌, ◌∙◌, ◌∷◌, ◌≡◌,
}
use chcore.Buddy.{Pool, virt_to_page}
use chcore.Buddy.Chunk.{within}
use chcore.Buddy.Get.{Handed}
use chcore.Buddy.Virt.{virt_to_page-inside}
use chcore.Slab.{SlabHeap, assigned, free_in_slab}
use chcore.Slab.Alloc.{SlabsValid, free_in_slab_lem}
use chcore.Slab.Chunk.{NextChunk}
use chcore.Kmalloc.{KernelHeap, kfree}
use chcore.Kmalloc.Large.{HeapValid, PagesApart}

-- A chunk that becomes a slab.
pub PagesApart-assigned :
    (frame n p : ℕ) (pool mid : Pool) (slab_of : ℕ → ℕ)
    → PagesApart frame n pool slab_of
    → Handed frame n 9 p pool mid
    → PagesApart frame n mid (assigned ((frame + p) * 4096) slab_of)
PagesApart-assigned frame n p pool mid slab_of (apart, inside) handed = (
  λ q lt free. elim (Bool-cases (within p 512 q)) [
    | inl i ↦ absurd (ground (arith, free, handed.chunk.marks q i))
    | inr out ↦ elsewhere q out (apart q lt (ground (arith, free, handed.kept q out)))
  ],
  λ x more. elim (Bool-cases (within p 512 (x - frame))) [
    | inl i ↦ ground (arith, handed.chunk.inside, i, inside x)
    | inr out ↦ ground (arith, handed.chunk.inside, out, inside x)
  ],
)
  where
    elsewhere :
        (q : ℕ)
        → within p 512 q ≡ false
        → slab_of (frame + q) ≡ 0
        → assigned ((frame + p) * 4096) slab_of (frame + q) ≡ 0
    elsewhere q out e = ground (arith, out, e)

pub NextChunk-Handed :
    (frame n p : ℕ) (h : KernelHeap) (mid : Pool)
    → 0 < frame
    → PagesApart frame n h.pool h.slab.slab_of
    → Handed frame n 9 p h.pool mid
    → NextChunk ((frame + p) * 4096) (record h.slab { chunks = (frame + p) * 4096 ∷ [] })
NextChunk-Handed frame n p h mid some_frame (apart, inside) handed = (
  omega arith,
  omega arith,
  λ x le lt.
      ap h.slab.slab_of (omega arith)
      ∙ apart (x - frame) (omega (arith, handed.chunk.inside))
          (handed.was_free (x - frame) (ground arith)),
)

-- A slot of a slab goes back to its list.
abbrev pub SlotFreed : ℕ → ℕ → ℕ → KernelHeap → Type 0
SlotFreed frame n s h = (h' : KernelHeap) × (kfree s h ≡ ok h') × HeapValid frame n h'

kfree_slot :
    (p s b : ℕ) (h : KernelHeap) (slab' : SlabHeap)
    → virt_to_page h.pool s ≡ ok p
    → h.slab.slab_of (s / 4096) ≡ b
    → 0 < b
    → free_in_slab s h.slab ≡ ok slab'
    → kfree s h ≡ ok (record h { slab = slab' })
unfolding kfree
kfree_slot p s zero h slab' at e more run = absurd (omega arith)
kfree_slot p s (suc b) h slab' at e more run = ground (arith, at, e, run)

SlabsValid-given :
    (s b : ℕ) (h : SlabHeap)
    → SlabsValid h
    → h.slab_of (s / 4096) ≡ b
    → 0 < b
    → SlabsValid (record h { free_list = update h.free_list b (s ∷ h.free_list b) })
SlabsValid-given s b h valid e more order x slot listed free = elim (ℕ_discrete x b) [
  | yes here ↦ elim (ℕ_discrete slot s) [
    | yes same ↦ (ap (λ a. h.slab_of (a / 4096)) same ∙ e ∙ sym here, omega arith)
    | no other ↦ valid order x slot listed (ground (arith, free, here, other, ap h.free_list here))
  ]
  | no ne ↦ valid order x slot listed (ground (arith, free, ne))
]

pub kfree-SlotFreed :
    (frame n s : ℕ) (h : KernelHeap)
    → HeapValid frame n h
    → 0 < h.slab.slab_of (s / 4096)
    → SlotFreed frame n s h
kfree-SlotFreed frame n s h (valid, slabs, apart, made) more =
    let (le, lt) = apart.1 (s / 4096) more in
    let b = h.slab.slab_of (s / 4096) in
    (
      record h {
        slab = record h.slab { free_list = update h.slab.free_list b (s ∷ h.slab.free_list b) };
      },
      kfree_slot (s / 4096 - frame) s b h
          (record h.slab { free_list = update h.slab.free_list b (s ∷ h.slab.free_list b) })
          (virt_to_page-inside frame n s h.pool valid le lt) refl more
          (free_in_slab_lem s b h.slab refl more),
      (valid, SlabsValid-given s b h.slab slabs refl more, apart, made),
    )
