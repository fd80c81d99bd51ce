-- ===== src/Sched/Turn.antt =====
-- A whole turn of the round-robin scheduler: the timer tick, the yield and the calls of `rr_sched`.
use chcore.Common.{arith, false, not, ok, some, true, update, ℕ, ◌&&◌, ◌<◌, ◌==◌, ◌||◌, ◌≡◌, ◌≢◌}
use chcore.Sched.{
  Sched, ThreadCtx, aff_too_big, choose_and_switch, default_budget, enqueue_ctx, is_exiting,
  is_idle, is_ready, is_waiting, keep_or_requeue, may_stay, push_ready, ready, requeue, rr_sched,
  target_cpu,
}
use chcore.Sched.Queue.{HasRoom, IsValid, push_ready-IsValid}
use chcore.Sched.Round.{Chosen, IsReady, Switched, choose_and_switch_lem, switch_to_thread_lem}

module _ (cpu t : ℕ) (x : ThreadCtx) {s : Sched} (r : IsReady cpu s) (on : s.current cpu ≡ some t)
    (e : s.ctx t ≡ some x) where
  -- On a CPU with valid queues, an idle thread and no exited threads, a current thread that exits
  -- or waits leaves the CPU to the head of the queue or to the idle thread, and is put on no queue.
  pub rr_sched-leave :
      (is_exiting x.exit_state || is_waiting x.state) ≡ true
      → (s' : Sched) × (rr_sched cpu s ≡ ok s') × Chosen cpu s s'
  unfolding rr_sched
  rr_sched-leave h =
      let (s', run, ch) = choose_and_switch_lem cpu r in (s', ground (arith, run), ch)

  -- On a CPU with valid queues, an idle thread and no exited threads, a current thread that does
  -- not exit or wait, has budget left and may run on this CPU keeps it, and the queues and the
  -- other threads are as before.
  pub rr_sched-keep :
      (is_exiting x.exit_state || is_waiting x.state) ≡ false
      → is_ready x.state ≡ false
      → (b : ℕ) → x.sc ≡ some b
      → 0 < b
      → may_stay cpu x.affinity ≡ true
      → (s' : Sched) × (rr_sched cpu s ≡ ok s') × Switched cpu t s s'
  unfolding rr_sched keep_or_requeue
  rr_sched-keep h off b budget left stay =
      let (s', run, sw) = switch_to_thread_lem cpu t r.valid r.alive (x, e, off) in
      (s', ground (arith, run), sw)

-- The state in which `rr_sched` chooses, after thread `t` went behind the queue of CPU `k`.
abbrev pub requeued : ℕ → ℕ → ThreadCtx → Sched → Sched
requeued k t x s =
    let s' = push_ready k t x s in
    record s' {
      ctx =
          update s'.ctx t (some (record x { state = ready; cpuid = k; sc = some default_budget }));
    }

module _ (cpu t k : ℕ) (x : ThreadCtx) {s : Sched} (r : IsReady cpu s) (room : HasRoom s)
    (e : s.ctx t ≡ some x) (off : is_ready x.state ≡ false) (busy : is_idle x.type ≡ false)
    (aff : aff_too_big x.affinity ≡ false) where
  requeued-IsValid : IsValid (requeued k t x s)
  unfolding push_ready
  requeued-IsValid =
      let v = push_ready-IsValid r.valid k t x e off busy aff (room k) in
      record {
        counted = v.counted;
        short = v.short;
        distinct = v.distinct;
        matches = λ c u. ground (arith, v.matches c u);
      }

  requeued-IsReady : t ≢ s.idle_thread cpu → IsReady cpu (requeued k t x s)
  unfolding push_ready
  requeued-IsReady ne = record {
    valid = requeued-IsValid;
    alive = λ u y h. ground (arith, r.alive u y, r.alive t x);
    idles = let (y, ey, offy) = r.idles in (y, ground arith, offy);
  }

  requeue-run :
      (b : ℕ)
      → x.sc ≡ some b
      → target_cpu cpu x.affinity ≡ some k
      → requeue cpu t s ≡ choose_and_switch cpu (requeued k t x s)
  unfolding requeue push_ready enqueue_ctx
  requeue-run b budget to = ground arith

  -- On a CPU with valid queues that are not full, an idle thread and no exited threads, let the
  -- current thread not be the idle thread, not exit or wait, and have its budget spent or not be
  -- allowed to stay. rr_sched puts it with a fresh budget behind the queue that its affinity names,
  -- and the CPU then runs the head of its queue or its idle thread.
  pub rr_sched-turn :
      (b : ℕ)
      → x.sc ≡ some b
      → s.current cpu ≡ some t
      → t ≢ s.idle_thread cpu
      → (is_exiting x.exit_state || is_waiting x.state) ≡ false
      → (not (b == 0) && may_stay cpu x.affinity) ≡ false
      → target_cpu cpu x.affinity ≡ some k
      → (s' : Sched) × (rr_sched cpu s ≡ ok s') × Chosen cpu (requeued k t x s) s'
  unfolding rr_sched keep_or_requeue
  rr_sched-turn b budget on ne h spent to =
      let (s', run, ch) = choose_and_switch_lem cpu (requeued-IsReady ne) in
      (s', ground (arith, run, requeue-run b budget to), ch)
