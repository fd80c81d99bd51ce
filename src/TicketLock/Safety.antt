-- ===== src/TicketLock/Safety.antt =====
-- What the ticket lock of kernel/arch/aarch64/sync/ticket.c gives in every state that threads reach.
use chcore.Common.{
  List, [], ap, arith, has, inr, length, refl, true, ℕ, ◌<◌, ◌∙◌, ◌∷◌, ◌≡◌, ◌≢◌, ◌⊎◌,
}
use chcore.TicketLock.{Reach, System, compared, inside, is_locked, spin, u32_mod}
use chcore.TicketLock.Line.{Served}
use chcore.TicketLock.Refine.{Knows, Queues, Reach-Queues, first_served, short}
use mathlib.Core.Path.{subst}

module _ {n : ℕ} {s : System} (few : n < u32_mod) (r : Reach n s) where
  line : List ℕ
  line = (Reach-Queues few r).0

  line-Queues : Queues n s line
  unfolding line
  line-Queues = (Reach-Queues few r).1

  -- In every state that fewer than 2^32 threads reach, no other thread owns the lock while one
  -- does.
  pub mutual_exclusion : (i j : ℕ) → s.pc i ≡ inside → i ≢ j → s.pc j ≢ inside
  mutual_exclusion i j in_i ne in_j =
      let (q, first_i) = first_served line-Queues i (rw in_i) (inr in_i) in
      let (q', first_j) = first_served line-Queues j (rw in_j) (inr in_j) in absurd (ne cc)

  -- In every state that fewer than 2^32 threads reach, is_locked holds while a thread owns the
  -- lock, so the check in unlock_kernel passes.
  pub is_locked_of_inside : (i : ℕ) → s.pc i ≡ inside → is_locked s.lock ≡ true
  unfolding is_locked
  is_locked_of_inside i in_i =
      let v = line-Queues in
      let (q, first_i) = first_served v i (rw in_i) (inr in_i) in
      ground (arith, v.handed, v.small, short v, ap length first_i)

  -- In every state that fewer than 2^32 threads reach, while a thread spins some thread owns the
  -- lock or spins with the ticket that is served.
  pub no_deadlock :
      (i t : ℕ) → s.pc i ≡ spin t → (j : ℕ) × ((s.pc j ≡ inside) ⊎ (s.pc j ≡ spin s.lock.owner))
  no_deadlock i t e = let v = line-Queues in head_of line v.served (v.away i ∙ rw e)
    where
      head_of :
          (q : List ℕ)
          → Served s.pc s.lock.owner q
          → has i q ≡ true
          → (j : ℕ) × ((s.pc j ≡ inside) ⊎ (s.pc j ≡ spin s.lock.owner))
      head_of [] w h = cc
      head_of (j ∷ q) w h = (j, ground arith)

-- In every state that fewer than 2^32 threads reach, no thread owns the lock while another one
-- stands before the stxr of try_lock with equal counters and its reservation.
pub try_lock-free :
    {n : ℕ} {s : System}
    → n < u32_mod
    → Reach n s
    → (i j t : ℕ) → s.pc i ≡ compared t t
    → s.reserved i ≡ true
    → s.pc j ≢ inside
unfolding is_locked
try_lock-free {s = s} few r i j t e res in_j =
    let v = line-Queues few r in
    let k = subst (Knows s.lock) e (v.knows i res) in
    let held = is_locked_of_inside few r j in_j in ground (arith, k.0, k.1 refl, held)
