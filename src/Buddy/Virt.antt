-- ===== src/Buddy/Virt.antt =====
-- Addresses of the chunks that kernel/mm/buddy.c hands out.
use chcore.Common.{arith, ok, ℕ, ◌*◌, ◌+◌, ◌-◌, ◌/◌, ◌<◌, ◌≡◌, ◌≤◌}
use chcore.Buddy.{Pool, page_to_virt, virt_to_page}
use chcore.Buddy.Chunk.{pow_pos}
use chcore.Buddy.Lists.{IsValid}
use chcore.Buddy.Get.{Handed}

pub page_to_virt-Handed :
    (frame n order p : ℕ) (pool pool' : Pool)
    → Handed frame n order p pool pool'
    → page_to_virt pool' p ≡ (frame + p) * 4096
unfolding page_to_virt
page_to_virt-Handed frame n order p pool pool' h =
    let s = h.valid.shape in omega (arith, s.start, s.fits, h.chunk.inside, pow_pos order)

pub virt_to_page-Handed :
    (frame n order p : ℕ) (pool pool' : Pool)
    → Handed frame n order p pool pool'
    → virt_to_page pool' ((frame + p) * 4096) ≡ ok p
unfolding virt_to_page
virt_to_page-Handed frame n order p pool pool' h =
    let s = h.valid.shape in ground (arith, s.start, s.size, s.fits, h.chunk.inside, pow_pos order)

-- Any address in a page of the pool.
pub virt_to_page-inside :
    (frame n s : ℕ) (pool : Pool)
    → IsValid frame n pool
    → frame ≤ s / 4096
    → s / 4096 < frame + n
    → virt_to_page pool s ≡ ok (s / 4096 - frame)
unfolding virt_to_page
virt_to_page-inside frame n s pool v le lt =
    ground (arith, v.shape.start, v.shape.size, v.shape.fits)
