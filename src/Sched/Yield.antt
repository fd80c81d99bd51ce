-- ===== src/Sched/Yield.antt =====
-- `sys_yield` and `sched_to_thread` of kernel/sched/sched.c: the two ways to give up the CPU.
use chcore.Common.{
  Bool-cases, arith, bug, false, if◌then◌else◌, inl, inr, negsuc, ok, refl, some, suc, sym, true,
  update, ℕ, ◌||◌, ◌∙◌, ◌≡◌, ◌≢◌,
}
use chcore.Sched.{
  Sched, ThreadCtx, ThreadState, aff_too_big, enqueue_ctx, exit, init, inter, is_exiting, is_idle,
  is_inter, is_ready, is_waiting, keep_or_requeue, push_ready, ready, requeue, rr_sched,
  rr_sched_enqueue, running, set_budget, target_cpu, waiting,
}
use chcore.Sched.Queue.{HasRoom, IsValid, push_ready-IsValid}
use chcore.Sched.Calls.{sched_to_thread, sys_yield}
use chcore.Sched.Round.{IsReady, NoneExited, Switched, switch_to_thread_lem}
use chcore.Sched.Turn.{rr_sched-turn}
use chcore.Sched.Tick.{IsReady-budget, Next}

-- On a CPU with valid queues that are not full, an idle thread and no exited threads, let the
-- current thread not be the idle thread, not exit or wait, and have an affinity that names CPU k.
-- After sys_yield the CPU runs the head of its queue, to which the thread was added at the end if k
-- is this CPU, or its idle thread, and that head has left the queue.
pub sys_yield-turn :
    (cpu t k b : ℕ) (x : ThreadCtx) {s : Sched}
    → IsReady cpu s
    → HasRoom s
    → s.current cpu ≡ some t
    → s.ctx t ≡ some (record x { sc = some b })
    → t ≢ s.idle_thread cpu
    → is_ready x.state ≡ false
    → (is_exiting x.exit_state || is_waiting x.state) ≡ false
    → is_idle x.type ≡ false
    → aff_too_big x.affinity ≡ false
    → target_cpu cpu x.affinity ≡ some k
    → (s' : Sched) × (sys_yield cpu s ≡ ok s') × Next cpu t k s.queue s.idle_thread s'
unfolding sys_yield set_budget push_ready
sys_yield-turn cpu t k b x {s} r room on e ne off here busy aff to =
    let s1 : Sched = record s { ctx = update s.ctx t (some (record x { sc = some 0 })) } in
    let (s', turn, ch) =
      rr_sched-turn cpu t k (record x { sc = some 0 }) {s = s1} (IsReady-budget cpu t x b 0 r e)
        room (ground arith) off busy aff 0 refl on ne here refl to in
    (s', ground (arith, turn), (ch.runs, ch.left, ch.others, ch.budgets t ∙ ground arith))

off_ready : (z : ThreadState) → (is_waiting z || is_inter z) ≡ true → is_ready z ≡ false
off_ready init h = refl
off_ready ready h = sym h
off_ready inter h = refl
off_ready running h = refl
off_ready exit h = refl
off_ready waiting h = refl

-- The state in which `sched_to_thread` switches: a current thread that does not wait is put behind
-- the queue of CPU `k`.
abbrev pub set_aside : ℕ → ℕ → ThreadCtx → Sched → Sched
set_aside k t x s = if is_waiting x.state then s else push_ready k t x s

module _ (cpu t k target : ℕ) (x y : ThreadCtx) {s : Sched} (v : IsValid s) (alive : NoneExited s)
    (room : HasRoom s) (on : s.current cpu ≡ some t) (e : s.ctx t ≡ some x)
    (to : s.ctx target ≡ some y) (ne : target ≢ t) (off : is_ready x.state ≡ false)
    (busy : is_idle x.type ≡ false) (aff : aff_too_big x.affinity ≡ false)
    (home : target_cpu cpu x.affinity ≡ some k) where
  -- With valid queues that are not full and no exited threads, let the target wait or be between
  -- states and not be the current thread, which is not ready, not of the idle type and has a valid
  -- affinity. sched_to_thread makes the CPU run the target; the current thread is put behind the
  -- queue of its CPU first unless it waits, and nothing else changes.
  pub sched_to_thread-Switched :
      (is_waiting y.state || is_inter y.state) ≡ true
      → (s' : Sched) × (sched_to_thread cpu target s ≡ ok s')
        × Switched cpu target (set_aside k t x s) s'
  unfolding sched_to_thread push_ready enqueue_ctx
  sched_to_thread-Switched idle_target =
      let off_target : is_ready y.state ≡ false = off_ready y.state idle_target in
      elim (Bool-cases (is_waiting x.state)) [
        | inl w ↦
            let (s', run, sw) = switch_to_thread_lem cpu target v alive (y, to, off_target) in
            (s', ground (arith, run), rw w sw)
        | inr w ↦
            let v' = push_ready-IsValid v k t x e off busy aff (room k) in
            let alive' : NoneExited (push_ready k t x s) =
              λ u z h. ground (arith, alive u z, alive t x) in
            let (s', run, sw) =
              switch_to_thread_lem cpu target v' alive' (y, ground arith, off_target) in
            (s', ground (arith, run), rw w sw)
      ]

-- If the current thread has a budget, is not ready, does not exit or wait, is not of the idle type
-- and has an affinity below -1, sys_yield is an access below the start of the ready queues.
pub sys_yield-affinity :
    (cpu t b n : ℕ) (x : ThreadCtx) (s : Sched)
    → s.current cpu ≡ some t
    → s.ctx t ≡ some x
    → x.sc ≡ some b
    → is_ready x.state ≡ false
    → (is_exiting x.exit_state || is_waiting x.state) ≡ false
    → is_idle x.type ≡ false
    → x.affinity ≡ negsuc (suc n)
    → sys_yield cpu s ≡ bug
unfolding sys_yield set_budget rr_sched keep_or_requeue requeue rr_sched_enqueue enqueue_ctx
sys_yield-affinity cpu t b n x s on e budget off here busy aff = ground arith
