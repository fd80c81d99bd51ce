-- ===== src/TicketLock/Tests.antt =====
-- Tests of kernel/arch/aarch64/sync/ticket.c with two threads.
use chcore.Common.{[], arith, refl, true, update, ℕ, ◌≡◌, ◌≢◌, ◌⊎◌}
use chcore.TicketLock.{
  Reach, System, compare, compared, enter, first, goes, inside, later, load, loaded, lock_init,
  spin, start, stores, take, take_ticket,
}
use chcore.TicketLock.Refine.{Refined, Step-Fifo, start-Queues}
use chcore.TicketLock.Safety.{mutual_exclusion, no_deadlock}

abbrev drawn : System
drawn = stores start 0 (take_ticket start.lock).1 (spin (take_ticket start.lock).0)

drawn-Reach : Reach 2 drawn
drawn-Reach = later first (take 0 (omega arith) refl)

abbrev owned : System
owned = goes drawn 0 inside

owned-Reach : Reach 2 owned
unfolding lock_init take_ticket
owned-Reach = later drawn-Reach (enter 0 (omega arith) refl)

-- Thread 1 has seen both counters before thread 0 came.
abbrev looked : System
looked = record start {
  pc = update start.pc 1 (loaded start.lock.next);
  reserved = update start.reserved 1 true;
}

abbrev seen : System
seen = goes looked 1 (compared looked.lock.next looked.lock.owner)

seen-Reach : Reach 2 seen
seen-Reach = later (later first (load 1 (omega arith) refl)) (compare 1 _ (omega arith) refl)

Step-Fifo_example : Refined 2 [] looked
Step-Fifo_example = Step-Fifo (start-Queues 2 (omega arith)) (load 1 (omega arith) refl)

mutual_exclusion_example : owned.pc 1 ≢ inside
mutual_exclusion_example = mutual_exclusion (omega arith) owned-Reach 0 1 refl (omega arith)

no_deadlock_example : (j : ℕ) × ((drawn.pc j ≡ inside) ⊎ (drawn.pc j ≡ spin drawn.lock.owner))
unfolding take_ticket lock_init
no_deadlock_example = no_deadlock (omega arith) drawn-Reach 0 0 refl
