-- ===== src/Semaphore.antt =====
-- Semaphores: kernel/semaphore/semaphore.c over the scheduler.
pub mod Wait
pub mod Signal
pub mod Order
pub mod Tests
use chcore.Common.{
  Bool, List, Run, [], bug, eagain, if◌then◌else◌, ltb, neg, none, not, ok, pos, some, update, ℕ, ℤ,
  ◌%◌, ◌++◌, ◌+◌, ◌-◌, ◌==◌, ◌>>=◌, ◌^◌, ◌||◌, ◌∷◌,
}
use chcore.Sched.{Sched, ThreadCtx, rr_sched, rr_sched_enqueue, waiting}

-- A semaphore with the count of the references to its object; `freed` once the object is freed.
pub record Semaphore : Type 0 where
  pub sem_count : ℕ
  pub waiting_threads_count : ℕ
  pub waiting_threads : List ℕ
  pub refcount : ℕ
  pub freed : Bool

pub init_sem : Semaphore → Semaphore
init_sem sem = record sem { sem_count = 0; waiting_threads_count = 0; waiting_threads = [] }

-- `obj_put(sem)`: a semaphore has no deinit function.
pub put_sem : Semaphore → Semaphore
put_sem sem = record sem {
  refcount = (sem.refcount + 2 ^ 64 - 1) % 2 ^ 64;
  freed = sem.refcount == 1 || sem.freed;
}

-- A blocked caller does not return; when it runs again, X0 holds the number given here.
pub data WaitResult : Type 0 where
  returned : ℤ → Semaphore → Sched → WaitResult
  blocked : ℤ → Semaphore → Sched → WaitResult

-- The blocking branch of `wait_sem`, for the current thread.
pub block : ℕ → ℕ → ThreadCtx → Semaphore → Sched → Run WaitResult
unfolding put_sem rr_sched
block cpu t x sem s =
    let s1 : Sched = record s { ctx = update s.ctx t (some (record x { state = waiting })) } in
    let sem1 : Semaphore = record sem {
      waiting_threads = sem.waiting_threads ++ t ∷ [];
      waiting_threads_count = (sem.waiting_threads_count + 1) % 2 ^ 32;
    } in
    do s2 ← rr_sched cpu s1; ok (blocked (pos 0) (put_sem sem1) s2)

pub wait_sem : ℕ → Semaphore → Bool → Sched → Run WaitResult
unfolding block
wait_sem cpu sem is_block s =
    if ltb 0 sem.sem_count
    then ok (returned (pos 0) (record sem { sem_count = sem.sem_count - 1 }) s)
    else if not is_block
    then ok (returned (neg eagain) sem s)
    else elim (s.current cpu) [
      | none ↦ bug
      | some t ↦ elim (s.ctx t) [ none ↦ bug | some x ↦ block cpu t x sem s ]
    ]

-- `list_del` and `sched_enqueue` of the first waiting thread; the result of the latter is dropped.
pub wake : ℕ → ℕ → List ℕ → Semaphore → Sched → Run (ℤ × Semaphore × Sched)
unfolding rr_sched_enqueue
wake cpu u q sem s =
    let sem1 : Semaphore = record sem {
      waiting_threads_count = (sem.waiting_threads_count + 2 ^ 32 - 1) % 2 ^ 32;
      waiting_threads = q;
    } in
    do (r, s') ← rr_sched_enqueue cpu (some u) s; ok (pos 0, sem1, s')

-- A counter above 0 over an empty list would make the list's head a thread.
pub signal_sem : ℕ → Semaphore → Sched → Run (ℤ × Semaphore × Sched)
unfolding wake
signal_sem cpu sem s =
    if sem.waiting_threads_count == 0
    then ok (pos 0, record sem { sem_count = (sem.sem_count + 1) % 2 ^ 32 }, s)
    else elim sem.waiting_threads [ [] ↦ bug | u ∷ q ↦ wake cpu u q sem s ]
