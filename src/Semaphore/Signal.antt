-- ===== src/Semaphore/Signal.antt =====
-- `signal_sem` of kernel/semaphore/semaphore.c: whom a signal wakes.
use chcore.Common.{
  List, Option-cases, ap, arith, inl, inr, is_some, length, negsuc, ok, pos, refl, some, suc, true,
  zero, ℕ, ℤ, ◌%◌, ◌+◌, ◌-◌, ◌^◌, ◌∷◌, ◌≡◌,
}
use chcore.Sched.{Sched, ThreadCtx, enqueue_ctx, push_ready, target_cpu}
use chcore.Sched.Queue.{HasRoom, IsValid, push_ready-IsValid}
use chcore.Semaphore.{Semaphore, signal_sem, wake}
use chcore.Semaphore.Wait.{SemValid, can_wake}

-- The semaphore after its first waiter has left.
abbrev pub left : List ℕ → Semaphore → Semaphore
left q sem = record sem {
  waiting_threads_count = (sem.waiting_threads_count + 2 ^ 32 - 1) % 2 ^ 32;
  waiting_threads = q;
}

-- Where `sched_enqueue` puts the thread on the executing CPU.
abbrev pub home : ℕ → ℤ → ℕ
home cpu (pos n) = n
home cpu (negsuc n) = cpu

-- A woken thread: ready, at the end of the queue of its CPU.
abbrev pub Woken : ℕ → ℕ → Sched → Sched → Type 0
Woken cpu u s s' =
    (x : ThreadCtx) × (s.ctx u ≡ some x) × (s' ≡ push_ready (home cpu x.affinity) u x s)

target_cpu-home :
    (cpu : ℕ) (a : ℤ) → is_some (target_cpu 0 a) ≡ true → target_cpu cpu a ≡ some (home cpu a)
target_cpu-home cpu (pos n) h = refl
target_cpu-home cpu (negsuc zero) h = refl
target_cpu-home cpu (negsuc (suc n)) h = cc

module _ (cpu u : ℕ) (q : List ℕ) {sem : Semaphore} {s : Sched} (v : IsValid s) (room : HasRoom s)
    (w : SemValid sem s) (first : sem.waiting_threads ≡ u ∷ q) where
  -- With valid queues that are not full and a valid semaphore, a signal returns 0 and wakes the
  -- thread that has waited longest: it leaves the waiting list and is ready at the end of the queue
  -- that its affinity names; scheduler and semaphore stay valid.
  pub signal_sem-wake :
      (s' : Sched) × (signal_sem cpu sem s ≡ ok (pos 0, left q sem, s'))
      × Woken cpu u s s'
      × IsValid s'
      × SemValid (left q sem) s'
  unfolding signal_sem wake push_ready enqueue_ctx
  signal_sem-wake = elim (Option-cases (s.ctx u)) [
    | inl e ↦ absurd (ground (arith, w.asleep u))
    | inr (x, e) ↦
        let h : can_wake (some x) ≡ true = ground (arith, w.asleep u) in
        (
          push_ready (home cpu x.affinity) u x s,
          ground (arith, w.counted, target_cpu-home cpu x.affinity),
          (x, e, refl),
          push_ready-IsValid v (home cpu x.affinity) u x e (ground arith) (ground arith)
              (ground arith) (room _),
          record {
            counted = omega (arith, w.counted, w.short, ap length first);
            short = omega (arith, w.short, ap length first);
            distinct = (rw first at w.distinct).1;
            taken = λ p. ground (arith, w.taken p);
            asleep = λ y hy. ground (arith, w.asleep y, (rw first at w.distinct).0);
            awake = λ c. ground (arith, w.awake c);
          },
        )
  ]
