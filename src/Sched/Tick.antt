-- ===== src/Sched/Tick.antt =====
-- The timer tick of kernel/sched/sched.c and the preemption that it leads to.
use chcore.Common.{
  Bool-cases, List, Run, [], ap, arith, false, inl, inr, ok, refl, some, suc, update, zero, ℕ, ◌++◌,
  ◌-◌, ◌==◌, ◌>>=◌, ◌||◌, ◌∙◌, ◌∷◌, ◌≡◌, ◌≢◌,
}
use chcore.Sched.{
  Sched, ThreadCtx, aff_too_big, default_budget, is_exiting, is_idle, is_ready, is_waiting,
  push_ready, rr_sched, target_cpu,
}
use chcore.Sched.Queue.{HasRoom, IsValid}
use chcore.Sched.Calls.{sched_handle_timer_irq}
use chcore.Sched.Round.{IsReady, Runs, budget_of, head_or, rest}
use chcore.Sched.Turn.{rr_sched-turn}
use mathlib.Core.Path.{subst₂}

-- `n` ticks of the timer on one CPU.
pub ticks : ℕ → ℕ → Sched → Run Sched
ticks cpu zero s = ok s
ticks cpu (suc n) s = do s' ← sched_handle_timer_irq cpu s; ticks cpu n s'

abbrev Ticked : ℕ → ℕ → ThreadCtx → ℕ → Sched → Sched → Type 0
Ticked cpu t x b s s' = record {
  budget : s'.ctx t ≡ some (record x { sc = some b });
  same_current : s'.current ≡ s.current;
  same_queue : s'.queue ≡ s.queue;
  same_idle : s'.idle_thread ≡ s.idle_thread;
  stays : IsReady cpu s';
}

-- A write of a thread's budget.
pub IsReady-budget :
    (cpu t : ℕ) (x : ThreadCtx) (b c : ℕ) {s : Sched}
    → IsReady cpu s
    → s.ctx t ≡ some (record x { sc = some b })
    → IsReady cpu (record s { ctx = update s.ctx t (some (record x { sc = some c })) })
IsReady-budget cpu t x b c {s} r e = record {
  valid = record {
    counted = v.counted;
    short = v.short;
    distinct = v.distinct;
    matches = λ k u. ground (arith, v.matches k u);
  };
  alive = λ u y h. ground (arith, r.alive u y, r.alive t (record x { sc = some b }));
  idles = elim (Bool-cases (s.idle_thread cpu == t)) [
    | inl same ↦ (record x { sc = some c }, ground arith, ground (arith, r.idles.1, r.idles.2))
    | inr other ↦ (r.idles.0, ground (arith, r.idles.1), r.idles.2)
  ];
}
  where
    v : IsValid s
    v = r.valid

-- Each tick takes one from the budget of the running thread, down to 0, and changes no queue.
ticks_lem :
    (cpu t n b : ℕ) (x : ThreadCtx) {s : Sched}
    → IsReady cpu s
    → s.current cpu ≡ some t
    → s.ctx t ≡ some (record x { sc = some b })
    → (s' : Sched) × (ticks cpu n s ≡ ok s') × Ticked cpu t x (b - n) s s'
unfolding ticks sched_handle_timer_irq
ticks_lem cpu t zero b x {s} r on e = (
  s,
  refl,
  record {
    budget = e ∙ ap (λ c. some (record x { sc = some c })) (omega arith);
    same_current = refl;
    same_queue = refl;
    same_idle = refl;
    stays = r;
  },
)
ticks_lem cpu t (suc n) zero x {s} r on e =
    let (s', run, tk) = ticks_lem cpu t n zero x r on e in
    (
      s',
      ground (arith, run),
      record {
        budget = rw tk.budget (ground arith);
        same_current = tk.same_current;
        same_queue = tk.same_queue;
        same_idle = tk.same_idle;
        stays = tk.stays;
      },
    )
ticks_lem cpu t (suc n) (suc b) x {s} r on e =
    let s1 : Sched = record s { ctx = update s.ctx t (some (record x { sc = some b })) } in
    let (s', run, tk) =
      ticks_lem cpu t n b x {s = s1} (IsReady-budget cpu t x (suc b) b r e) on (ground arith) in
    (
      s',
      ground (arith, run),
      record {
        budget = tk.budget ∙ ap (λ c. some (record x { sc = some c })) (omega arith);
        same_current = tk.same_current;
        same_queue = tk.same_queue;
        same_idle = tk.same_idle;
        stays = tk.stays;
      },
    )

-- Thread `t` has gone with a fresh budget behind the queue of CPU `k`, and this CPU runs the head of
-- its queue, which has left it; the other queues are as they were.
abbrev pub Next : (cpu t k : ℕ) → (ℕ → List ℕ) → (ℕ → ℕ) → Sched → Type 0
Next cpu t k queue idle_thread s' =
    let q = update queue k (queue k ++ t ∷ []) in
    Runs cpu (head_or (idle_thread cpu) (q cpu)) s'
    × (s'.queue cpu ≡ rest (q cpu))
    × ((c : ℕ) → c ≢ cpu → s'.queue c ≡ q c)
    × (budget_of (s'.ctx t) ≡ some default_budget)

-- On a CPU with valid queues, an idle thread and no exited threads, let a thread run that is not
-- the idle thread, does not exit or wait, and whose affinity names CPU k. After as many ticks as
-- its budget and rr_sched, it has a fresh budget and has joined the end of the queue of CPU k; the
-- CPU runs the head of its own queue (after that join), which has left it, or its idle thread if
-- there is none, and the other queues are as they were. No queue may be full.
pub rr_sched-ticks :
    (cpu t k b : ℕ) (x : ThreadCtx) {s : Sched}
    → IsReady cpu s
    → HasRoom s
    → s.current cpu ≡ some t
    → s.ctx t ≡ some (record x { sc = some b })
    → t ≢ s.idle_thread cpu
    → is_ready x.state ≡ false
    → (is_exiting x.exit_state || is_waiting x.state) ≡ false
    → is_idle x.type ≡ false
    → aff_too_big x.affinity ≡ false
    → target_cpu cpu x.affinity ≡ some k
    → (s' : Sched) × ((ticks cpu b s >>= rr_sched cpu) ≡ ok s')
      × Next cpu t k s.queue s.idle_thread s'
unfolding push_ready
rr_sched-ticks cpu t k b x {s} r room on e ne off here busy aff to =
    let (s1, run, tk) = ticks_lem cpu t b b x r on e in
    let (s', turn, ch) =
      rr_sched-turn cpu t k (record x { sc = some 0 }) {s = s1} tk.stays (rw tk.same_queue room)
        (tk.budget ∙ ap (λ c. some (record x { sc = some c })) (omega arith)) off busy aff 0 refl
        (rw tk.same_current on) (rw tk.same_idle ne) here refl to in
    (
      s',
      rw run turn,
      subst₂ (λ q d. Next cpu t k q d s') tk.same_queue tk.same_idle
          (ch.runs, ch.left, ch.others, ch.budgets t ∙ ground arith),
    )
