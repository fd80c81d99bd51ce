-- ===== src/Semaphore/Wait.antt =====
-- `wait_sem` of kernel/semaphore/semaphore.c, and the tie between a semaphore and its waiters.
use chcore.Common.{
  Bool, Bool-cases, Distinct, Distinct-append_one, List, Option, [], arith, false, has, has-append,
  inl, inr, is_some, length, length-append, none, not, ok, pos, refl, some, true, update, ℕ, ◌%◌,
  ◌&&◌, ◌++◌, ◌+◌, ◌<◌, ◌==◌, ◌^◌, ◌∷◌, ◌≡◌, ◌≢◌,
}
use chcore.Sched.{
  Sched, ThreadCtx, aff_too_big, is_exited, is_idle, is_ready, is_waiting, running, target_cpu,
  waiting,
}
use chcore.Sched.Queue.{IsValid}
use chcore.Sched.Round.{Chosen, IsReady, IsValid-write, head_or}
use chcore.Sched.Turn.{rr_sched-leave}
use chcore.Semaphore.{Semaphore, block, blocked, init_sem, put_sem, wait_sem}

-- A thread that waits and can be put on a ready queue.
abbrev pub can_wake : Option ThreadCtx → Bool
can_wake none = false
can_wake (some x) =
    is_waiting x.state
    && not (is_idle x.type)
    && not (aff_too_big x.affinity)
    && is_some (target_cpu 0 x.affinity)

-- The counter counts the waiters, each once; threads wait only while the count is 0.
pub record SemValid (sem : Semaphore) (s : Sched) : Type 0 where
  pub counted : sem.waiting_threads_count ≡ length sem.waiting_threads
  pub short : length sem.waiting_threads < 2 ^ 32
  pub distinct : Distinct sem.waiting_threads
  pub taken : 0 < sem.sem_count → sem.waiting_threads ≡ []
  pub asleep : (u : ℕ) → has u sem.waiting_threads ≡ true → can_wake (s.ctx u) ≡ true
  pub awake : (c : ℕ) → has (s.idle_thread c) sem.waiting_threads ≡ false

-- A new semaphore is valid, and its count is 0.
init_sem-SemValid :
    (sem : Semaphore) (s : Sched) → SemValid (init_sem sem) s × ((init_sem sem).sem_count ≡ 0)
unfolding init_sem
init_sem-SemValid sem s = (
  record {
    counted = refl;
    short = omega arith;
    distinct = tt;
    taken = λ h. refl;
    asleep = λ u h. cc;
    awake = λ c. refl;
  },
  refl,
)

-- The running thread writes its own context.
IsReady-write :
    (cpu t : ℕ) (x y : ThreadCtx) {s : Sched}
    → IsReady cpu s
    → s.ctx t ≡ some x
    → is_ready x.state ≡ false
    → is_ready y.state ≡ false
    → is_exited y.exit_state ≡ false
    → IsReady cpu (record s { ctx = update s.ctx t (some y) })
IsReady-write cpu t x y {s} r e off off' alive = record {
  valid = IsValid-write t x y s.prev_thread s.current r.valid e off off';
  alive = λ u z h. ground (arith, r.alive u z);
  idles = elim (Bool-cases (s.idle_thread cpu == t)) [
    | inl same ↦ (y, ground arith, off')
    | inr other ↦ (r.idles.0, ground (arith, r.idles.1), r.idles.2)
  ];
}

-- The thread that a CPU chooses waits for nothing.
head-awake :
    (cpu u : ℕ) {sem : Semaphore} {s : Sched}
    → IsValid s
    → SemValid sem s
    → has u sem.waiting_threads ≡ true
    → (q : List ℕ) → s.queue cpu ≡ q
    → u ≢ head_or (s.idle_thread cpu) q
head-awake cpu u v w h [] e same = ground (arith, w.awake cpu)
head-awake cpu u v w h (y ∷ q) e same = ground (arith, v.matches cpu u, w.asleep u)

-- A switch leaves the waiters waiting.
SemValid-Chosen :
    (cpu : ℕ) {sem : Semaphore} {s s' : Sched}
    → IsValid s
    → SemValid sem s
    → Chosen cpu s s'
    → SemValid sem s'
SemValid-Chosen cpu {s} v w ch = record {
  counted = w.counted;
  short = w.short;
  distinct = w.distinct;
  taken = w.taken;
  asleep = λ u h. rw (ch.aside u (head-awake cpu u v w h (s.queue cpu) refl)) (w.asleep u h);
  awake = λ c. rw ch.same_idle (w.awake c);
}

-- The semaphore once thread `t` stands at the end of its waiting list.
abbrev pub joined : ℕ → Semaphore → Semaphore
joined t sem = record sem {
  waiting_threads = sem.waiting_threads ++ t ∷ [];
  waiting_threads_count = (sem.waiting_threads_count + 1) % 2 ^ 32;
}

-- The state in which a blocking caller calls the scheduler.
abbrev pub fall_asleep : ℕ → ThreadCtx → Sched → Sched
fall_asleep t x s = record s { ctx = update s.ctx t (some (record x { state = waiting })) }

module _ (cpu t : ℕ) (x : ThreadCtx) {sem : Semaphore} {s : Sched} (r : IsReady cpu s)
    (w : SemValid sem s) (e : s.ctx t ≡ some x) (up : x.state ≡ running)
    (wakes : can_wake (some (record x { state = waiting })) ≡ true)
    (busy : (c : ℕ) → s.idle_thread c ≢ t) (room : length sem.waiting_threads + 1 < 2 ^ 32)
    (empty : sem.sem_count ≡ 0) where
  asleep-IsReady : IsReady cpu (fall_asleep t x s)
  asleep-IsReady =
      IsReady-write cpu t x (record x { state = waiting }) r e (rw up) refl (r.alive t x e)

  joined-SemValid : SemValid (joined t sem) (fall_asleep t x s)
  joined-SemValid = record {
    counted = omega (arith, w.counted, length-append sem.waiting_threads (t ∷ []));
    short = omega (arith, length-append sem.waiting_threads (t ∷ []));
    distinct = Distinct-append_one t sem.waiting_threads w.distinct (ground (arith, w.asleep t));
    taken = λ h. absurd (omega arith);
    asleep = λ u h. ground (arith, w.asleep u, has-append u sem.waiting_threads (t ∷ []));
    awake = λ c.
        ground
          (arith, w.awake c, busy c, has-append (s.idle_thread c) sem.waiting_threads (t ∷ []));
  }

  -- Let the count be 0 and a running thread call wait_sem with blocking, on a CPU with valid
  -- queues, an idle thread and no exited threads, where the thread is no idle thread, can be woken
  -- later and the waiting list is not full. Then the thread joins the end of the waiting list, is
  -- waiting, and the CPU runs the head of its ready queue or its idle thread; scheduler and
  -- semaphore stay valid.
  pub wait_sem-block :
      s.current cpu ≡ some t
      → (s' : Sched) × (wait_sem cpu sem true s ≡ ok (blocked (pos 0) (put_sem (joined t sem)) s'))
        × Chosen cpu (fall_asleep t x s) s'
        × SemValid (put_sem (joined t sem)) s'
  unfolding wait_sem block put_sem
  wait_sem-block on =
      let (s', run, ch) =
        rr_sched-leave cpu t (record x { state = waiting }) asleep-IsReady on (ground arith)
          (ground arith) in
      let w' = SemValid-Chosen cpu asleep-IsReady.valid joined-SemValid ch in
      (
        s',
        ground (arith, run),
        ch,
        record {
          counted = w'.counted;
          short = w'.short;
          distinct = w'.distinct;
          taken = w'.taken;
          asleep = w'.asleep;
          awake = w'.awake;
        },
      )
