-- ===== src/Buddy/Find.antt =====
-- `get_buddy_chunk` of kernel/mm/buddy.c finds the other half of a chunk of the next order.
use chcore.Common.{
  Bool, Bool-cases, ap, arith, dec_lt, if◌then◌else◌, inl, inr, leb, ltb, none, ok, some, suc, zero,
  ℕ, ◌%◌, ◌&&◌, ◌*◌, ◌+◌, ◌-◌, ◌/◌, ◌<◌, ◌^◌, ◌∙◌, ◌≡◌, ◌≤◌, ◌⊎◌,
}
use chcore.Buddy.{Pool, buddy_chunk_addr, get_buddy_chunk, order_of, page_to_virt}
use chcore.Buddy.Chunk.{AreBuddies, HasShape, IsChunk, pow_pos}
use chcore.Buddy.Lists.{head-within}
use chcore.Buddy.Address.{flip_down, flip_up}
use native.Mathlib.Nat.{pow-suc}

pow-add : (a b : ℕ) → 2 ^ (a + b) ≡ 2 ^ a * 2 ^ b
pow-add a zero = let e : a + 0 ≡ a = omega arith in rw e (omega arith)
pow-add a (suc b) =
    let e : a + suc b ≡ suc (a + b) = omega arith in
    rw e (
      omega (arith, pow-suc 2 (a + b), pow-suc 2 b, pow-add a b, ap (λ t. 2 ^ a * t) (pow-suc 2 b)))

module _ {frame n o p : ℕ} {a : Bool} {pool : Pool} (shape : HasShape frame n pool)
    (c : IsChunk frame n pool.page_metadata a o p) where
  pub chunk_order : order_of pool p ≡ o
  chunk_order = ap (λ g. g.order) (c.marks p (head-within (2 ^ o) p (pow_pos o)))

  -- The address of a page, and that of its buddy's page frame.
  page_to_virt_lem : page_to_virt pool p ≡ 2 ^ (o + 12) * c.unit
  unfolding page_to_virt
  page_to_virt_lem = omega (
    arith,
    shape.start,
    shape.fits,
    c.inside,
    pow_pos o,
    c.aligned,
    pow-add o 12,
    ap (λ t. t * c.unit) (pow-add o 12),
  )

  -- The lookup of an address that is a page frame's.
  lookup :
      (g : ℕ)
      → buddy_chunk_addr pool p ≡ g * 4096
      → get_buddy_chunk pool p
        ≡ (if leb frame g && ltb g (frame + n) then ok (some (g - frame)) else ok none)
  unfolding get_buddy_chunk
  lookup g e = rw e (ground (arith, shape.start, shape.size, shape.fits))

  -- The two cases of the flipped bit.
  upper_half : (h : ℕ) → c.unit ≡ 2 * h → buddy_chunk_addr pool p ≡ (frame + (p + 2 ^ o)) * 4096
  upper_half h e =
      rw (chunk_order, page_to_virt_lem, e)
        (flip_up (o + 12) h
          ∙ omega (
            arith,
            pow-add o 12,
            ap (λ t. t * h) (pow-add o 12),
            c.aligned,
            ap (λ t. 2 ^ o * t) e,
          ))

  lower_half : (h : ℕ) → c.unit ≡ 2 * h + 1 → buddy_chunk_addr pool p ≡ (2 ^ o * (2 * h)) * 4096
  lower_half h e =
      let e' : 2 ^ (o + 12) * (2 * h + 1) ≡ 2 ^ (o + 12) * (2 * h) + 2 ^ (o + 12) = omega arith in
      rw (chunk_order, page_to_virt_lem, e, e')
        (flip_down (o + 12) h ∙ omega (arith, pow-add o 12, ap (λ t. t * h) (pow-add o 12)))

  abbrev Found : Type 0
  Found =
      (get_buddy_chunk pool p ≡ ok none)
      ⊎ ((b : ℕ) × (get_buddy_chunk pool p ≡ ok (some b)) × (b < n) × AreBuddies frame o p b)

  found :
      (g : ℕ)
      → buddy_chunk_addr pool p ≡ g * 4096
      → (frame ≤ g → AreBuddies frame o p (g - frame))
      → Found
  found g e buddies = elim (Bool-cases (leb frame g && ltb g (frame + n))) [
    | inl within' ↦
        inr (g - frame, ground (arith, lookup g e), ground arith, buddies (ground arith))
    | inr out ↦ inl (ground (arith, lookup g e))
  ]

  -- For a chunk of a well-shaped pool, get_buddy_chunk returns NULL or a page of the pool whose
  -- chunk of the same order is the other half of the chunk of the next order.
  pub get_buddy_chunk_lem :
      (get_buddy_chunk pool p ≡ ok none)
      ⊎ ((b : ℕ) × (get_buddy_chunk pool p ≡ ok (some b)) × (b < n) × AreBuddies frame o p b)
  get_buddy_chunk_lem = elim (dec_lt (c.unit % 2) 1) [
    | yes even ↦
        let e : c.unit ≡ 2 * (c.unit / 2) = omega arith in
        found (frame + (p + 2 ^ o)) (upper_half (c.unit / 2) e) λ le. record {
          half = c.unit / 2;
          lower = ground (arith, c.aligned, pow_pos o, ap (λ t. 2 ^ o * t) e);
          upper = ground (arith, c.aligned, pow_pos o, ap (λ t. 2 ^ o * t) e);
        }
    | no odd ↦
        let e : c.unit ≡ 2 * (c.unit / 2) + 1 = omega arith in
        found (2 ^ o * (2 * (c.unit / 2))) (lower_half (c.unit / 2) e) λ le. record {
          half = c.unit / 2;
          lower = ground (arith, c.aligned, pow_pos o, ap (λ t. 2 ^ o * t) e);
          upper = ground (arith, c.aligned, pow_pos o, ap (λ t. 2 ^ o * t) e);
        }
  ]
