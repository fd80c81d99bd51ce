-- ===== src/Kmalloc/Got.antt =====
-- `get_pages` and `virt_to_page` of kernel/mm: the address of a chunk leads back to its page.
use chcore.Common.{[], arith, ok, ℕ, ◌*◌, ◌+◌, ◌<◌, ◌≡◌, ◌≢◌, ◌≤◌}
use chcore.Buddy.{Pool, virt_to_page}
use chcore.Buddy.Lists.{IsValid}
use chcore.Buddy.Get.{Handed, buddy_get_pages-Handed}
use chcore.Buddy.Virt.{page_to_virt-Handed, virt_to_page-Handed}
use chcore.Kmalloc.{get_pages}

-- What `get_pages` leaves: the address of a chunk of that order, which leads to its first page.
abbrev pub Got : (frame n order : ℕ) → Pool → Type 0
Got frame n order pool =
    (p : ℕ) × (pool' : Pool) × (get_pages order pool ≡ ok ((frame + p) * 4096, pool'))
    × (virt_to_page pool' ((frame + p) * 4096) ≡ ok p)
    × Handed frame n order p pool pool'

pub get_pages-Got :
    (frame n order k : ℕ) (pool : Pool)
    → IsValid frame n pool
    → order ≤ k
    → k < 14
    → pool.free_list k ≢ []
    → Got frame n order pool
unfolding get_pages
get_pages-Got frame n order k pool v le hi some_k =
    let (p, pool', run, h) = buddy_get_pages-Handed frame n order pool v k le hi some_k in
    (
      p,
      pool',
      ground (arith, run, page_to_virt-Handed frame n order p pool pool' h),
      virt_to_page-Handed frame n order p pool pool' h,
      h,
    )
