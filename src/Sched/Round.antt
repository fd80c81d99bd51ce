-- ===== src/Sched/Round.antt =====
-- `rr_sched` of kernel/sched/policy_rr.c: what a call does to the ready queue and the CPU.
use chcore.Common.{
  Bool-cases, List, Option, [], arith, erase-eq_of_not, false, inl, inr, none, ok, refl, some, true,
  update, ℕ, ◌∙◌, ◌∷◌, ◌≡◌, ◌≢◌,
}
use chcore.Sched.{
  Previous, Sched, ThreadCtx, choose_and_switch, inter, is_current, is_exited, is_ready, previous,
  pull_ready, rr_sched_choose_thread, running, switch_to_thread, thread_itself,
}
use chcore.Sched.Queue.{IsValid, pull_ready-IsValid, queued, queued_at, rr_sched_dequeue_lem}

-- The first of a list, and what stands in for it.
abbrev pub head_or : ℕ → List ℕ → ℕ
head_or d [] = d
head_or d (x ∷ xs) = x

abbrev pub rest : List ℕ → List ℕ
rest [] = []
rest (x ∷ xs) = xs

-- No thread has left TE_EXITED behind; no modelled function writes that field.
abbrev pub NoneExited : Sched → Type 0
NoneExited s = (t : ℕ) (x : ThreadCtx) → s.ctx t ≡ some x → is_exited x.exit_state ≡ false

-- The context of a thread that can be switched to.
abbrev pub Switchable : ℕ → Sched → Type 0
Switchable t s = (x : ThreadCtx) × (s.ctx t ≡ some x) × (is_ready x.state ≡ false)

-- The CPU runs the thread.
abbrev pub Runs : ℕ → ℕ → Sched → Type 0
Runs cpu t s =
    (s.current cpu ≡ some t) × ((x : ThreadCtx) × (s.ctx t ≡ some x) × (x.state ≡ running))

-- The budget of a thread, `none` where it has no context or no `sc`.
abbrev pub budget_of : Option ThreadCtx → Option ℕ
budget_of none = none
budget_of (some x) = x.sc

-- A write of a context that is ready neither before nor after.
pub IsValid-write :
    {s : Sched} (t : ℕ) (x y : ThreadCtx) (prev : ℕ → Previous) (cur : ℕ → Option ℕ)
    → IsValid s
    → s.ctx t ≡ some x
    → is_ready x.state ≡ false
    → is_ready y.state ≡ false
    → IsValid (record s { ctx = update s.ctx t (some y); prev_thread = prev; current = cur })
IsValid-write t x y prev cur v e a b = record {
  counted = v.counted;
  short = v.short;
  distinct = v.distinct;
  matches = λ c u. ground (arith, v.matches c u);
}

-- The result of a switch: the thread runs, and the queues are untouched.
abbrev pub Switched : ℕ → ℕ → Sched → Sched → Type 0
Switched cpu t s s' = record {
  valid : IsValid s';
  runs : Runs cpu t s';
  same_queue : s'.queue ≡ s.queue;
  apart : (u : ℕ) → u ≢ t → s'.ctx u ≡ s.ctx u;
  same_idle : s'.idle_thread ≡ s.idle_thread;
  budgets : (u : ℕ) → budget_of (s'.ctx u) ≡ budget_of (s.ctx u);
}

pub switch_to_thread_lem :
    (cpu t : ℕ) {s : Sched}
    → IsValid s
    → NoneExited s
    → Switchable t s
    → (s' : Sched) × (switch_to_thread cpu t s ≡ ok s') × Switched cpu t s s'
unfolding switch_to_thread
switch_to_thread_lem cpu t {s} v alive (x, e, off) =
    elim (Bool-cases (is_current (s.current cpu) t)) [
      | inl same ↦ (
        record s {
          ctx = update s.ctx t (some (record x { state = running }));
          prev_thread = update s.prev_thread t thread_itself;
        },
        ground (arith, alive t x e),
        record {
          valid = IsValid-write t x (record x { state = running }) _ _ v e off refl;
          runs = (ground arith, (record x { state = running }, ground arith, refl));
          same_queue = refl;
          apart = λ u ne. ground arith;
          same_idle = refl;
          budgets = λ u. ground (arith, e);
        },
      )
      | inr other ↦ (
        record s {
          ctx = update s.ctx t (some (record x { cpuid = cpu; state = running }));
          prev_thread = update s.prev_thread t (previous (s.current cpu));
          current = update s.current cpu (some t);
        },
        ground (arith, alive t x e),
        record {
          valid = IsValid-write t x (record x { cpuid = cpu; state = running }) _ _ v e off refl;
          runs = (ground arith, (record x { cpuid = cpu; state = running }, ground arith, refl));
          same_queue = refl;
          apart = λ u ne. ground arith;
          same_idle = refl;
          budgets = λ u. ground (arith, e);
        },
      )
    ]

-- What `rr_sched` relies on: an idle thread for the CPU, and threads that have not exited.
pub record IsReady (cpu : ℕ) (s : Sched) : Type 0 where
  pub valid : IsValid s
  pub alive : NoneExited s
  pub idles : Switchable (s.idle_thread cpu) s

-- The CPU runs the head of its queue, or its idle thread, and the head has left the queue.
abbrev pub Chosen : ℕ → Sched → Sched → Type 0
Chosen cpu s s' = record {
  valid : IsValid s';
  runs : Runs cpu (head_or (s.idle_thread cpu) (s.queue cpu)) s';
  left : s'.queue cpu ≡ rest (s.queue cpu);
  others : (c : ℕ) → c ≢ cpu → s'.queue c ≡ s.queue c;
  aside : (t : ℕ) → t ≢ head_or (s.idle_thread cpu) (s.queue cpu) → s'.ctx t ≡ s.ctx t;
  same_idle : s'.idle_thread ≡ s.idle_thread;
  budgets : (t : ℕ) → budget_of (s'.ctx t) ≡ budget_of (s.ctx t);
}

-- With its queue empty the CPU gets its idle thread.
choose-nil :
    (cpu : ℕ) {s : Sched}
    → IsReady cpu s
    → s.queue cpu ≡ []
    → (s' : Sched) × (choose_and_switch cpu s ≡ ok s') × Chosen cpu s s'
unfolding choose_and_switch rr_sched_choose_thread
choose-nil cpu {s} r e =
    let (s', run, sw) = switch_to_thread_lem cpu (s.idle_thread cpu) r.valid r.alive r.idles in
    (
      s',
      ground (arith, r.valid.counted cpu),
      record {
        valid = sw.valid;
        runs = rw e sw.runs;
        left = rw (e, sw.same_queue) e;
        others = λ c ne. rw sw.same_queue refl;
        aside = λ t ne. sw.apart t (rw e at ne);
        same_idle = sw.same_idle;
        budgets = sw.budgets;
      },
    )

module _ (cpu u : ℕ) (q : List ℕ) {s : Sched} (r : IsReady cpu s) (e : s.queue cpu ≡ u ∷ q) where
  choose-head :
      (x : ThreadCtx)
      → s.ctx u ≡ some x
      → queued_at cpu (some x) ≡ true
      → rr_sched_choose_thread cpu s ≡ ok (u, pull_ready cpu u x s)
  unfolding rr_sched_choose_thread
  choose-head x eu on = ground (arith, r.valid.counted cpu, rr_sched_dequeue_lem cpu u x s eu on)

  choose-cons : (s' : Sched) × (choose_and_switch cpu s ≡ ok s') × Chosen cpu s s'
  unfolding choose_and_switch pull_ready
  choose-cons =
      let (x, eu, on) = queued r.valid cpu u (ground arith) in
      let alive' : NoneExited (pull_ready cpu u x s) =
        λ t y h. ground (arith, r.alive t y, r.alive u x) in
      let (s', run, sw) =
        switch_to_thread_lem cpu u (pull_ready-IsValid r.valid cpu u x eu on) alive'
          (record x { state = inter; cpuid = cpu }, ground arith, refl) in
      (
        s',
        rw (choose-head x eu on, run),
        record {
          valid = sw.valid;
          runs = rw e sw.runs;
          left = rw (sw.same_queue, e) (ground arith);
          others = λ c ne.
              rw sw.same_queue
                (erase-eq_of_not u (s.queue c) (ground (arith, r.valid.matches c u)));
          aside = λ t ne. ground (arith, sw.apart t);
          same_idle = sw.same_idle;
          budgets = λ t. sw.budgets t ∙ ground (arith, eu);
        },
      )

-- On a CPU with valid queues, an idle thread and no exited threads, choosing and switching
-- succeeds: the CPU runs the head of its queue, or its idle thread if the queue is empty; the head
-- has left the queue, and the other queues and threads are as before.
pub choose_and_switch_lem :
    (cpu : ℕ) {s : Sched}
    → IsReady cpu s
    → (s' : Sched) × (choose_and_switch cpu s ≡ ok s') × Chosen cpu s s'
choose_and_switch_lem cpu {s} r = split (s.queue cpu) refl
  where
    split :
        (q : List ℕ)
        → s.queue cpu ≡ q
        → (s' : Sched) × (choose_and_switch cpu s ≡ ok s') × Chosen cpu s s'
    split [] e = choose-nil cpu r e
    split (u ∷ q) e = choose-cons cpu u q r e
