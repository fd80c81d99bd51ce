-- ===== src/Sched.antt =====
-- The round-robin scheduler: kernel/sched/policy_rr.c and the parts of kernel/sched/sched.c that
-- change its state. Threads are named by numbers; an intrusive list is the list of its threads.
pub mod Queue
pub mod Calls
pub mod Round
pub mod Turn
pub mod Tick
pub mod Yield
pub mod Tests
use chcore.Common.{
  Bool, List, Option, Run, [], bug, bug_on, einval, erase, false, if◌then◌else◌, is_zero, leb, neg,
  negsuc, none, not, ok, pos, some, suc, true, update, zero, ℕ, ℤ, ◌%◌, ◌&&◌, ◌++◌, ◌+◌, ◌-◌, ◌==◌,
  ◌>>=◌, ◌^◌, ◌||◌, ◌∷◌,
}

pub data ThreadType : Type 0 where
  idle kernel user shadow tests : ThreadType

pub data ThreadState : Type 0 where
  init ready inter running exit waiting : ThreadState

pub data ExitState : Type 0 where
  te_running te_exiting te_exited : ExitState

-- `sc` is NULL for a shadow thread; its one field is the budget.
pub record ThreadCtx : Type 0 where
  pub sc : Option ℕ
  pub type : ThreadType
  pub state : ThreadState
  pub affinity : ℤ
  pub cpuid : ℕ
  pub exit_state : ExitState

-- `thread->prev_thread`
pub data Previous : Type 0 where
  thread_itself : Previous
  previous : Option ℕ → Previous

pub record Sched : Type 0 where
  pub ctx : ℕ → Option ThreadCtx
  pub prev_thread : ℕ → Previous
  pub queue : ℕ → List ℕ
  pub queue_len : ℕ → ℕ
  pub current : ℕ → Option ℕ
  pub idle_thread : ℕ → ℕ

abbrev pub plat_cpu_num : ℕ
plat_cpu_num = 4

abbrev pub default_budget : ℕ
default_budget = 10

abbrev pub is_ready : ThreadState → Bool
is_ready ready = true
is_ready _ = false

abbrev pub is_waiting : ThreadState → Bool
is_waiting waiting = true
is_waiting _ = false

abbrev pub is_inter : ThreadState → Bool
is_inter inter = true
is_inter _ = false

abbrev pub is_idle : ThreadType → Bool
is_idle idle = true
is_idle _ = false

abbrev pub is_exiting : ExitState → Bool
is_exiting te_exiting = true
is_exiting _ = false

abbrev pub is_exited : ExitState → Bool
is_exited te_exited = true
is_exited _ = false

-- `aff >= PLAT_CPU_NUM`, a signed comparison
abbrev pub aff_too_big : ℤ → Bool
aff_too_big (pos n) = leb plat_cpu_num n
aff_too_big (negsuc n) = false

-- `(aff == NO_AFF) ? smp_get_cpu_id() : aff`; `none` for an index below the array.
abbrev pub target_cpu : ℕ → ℤ → Option ℕ
target_cpu cpu (pos n) = some n
target_cpu cpu (negsuc zero) = some cpu
target_cpu cpu (negsuc (suc n)) = none

-- `aff == smp_get_cpu_id() || aff == -1`
abbrev pub may_stay : ℕ → ℤ → Bool
may_stay cpu (pos n) = n == cpu
may_stay cpu (negsuc n) = n == 0

-- The last writes of `rr_sched_enqueue`.
unfoldable pub push_ready : ℕ → ℕ → ThreadCtx → Sched → Sched
push_ready k t x s = record s {
  ctx = update s.ctx t (some (record x { state = ready; cpuid = k }));
  queue = update s.queue k (s.queue k ++ t ∷ []);
  queue_len = update s.queue_len k ((s.queue_len k + 1) % 2 ^ 32);
}

unfoldable pub enqueue_ctx : ℕ → ℕ → ThreadCtx → Sched → Run (ℤ × Sched)
unfolding push_ready
enqueue_ctx cpu t x s =
    if is_ready x.state
    then ok (neg einval, s)
    else if is_idle x.type
    then ok (pos 0, s)
    else if aff_too_big x.affinity
    then ok (neg einval, s)
    else elim (target_cpu cpu x.affinity) [ none ↦ bug | some k ↦ ok (pos 0, push_ready k t x s) ]

unfoldable pub rr_sched_enqueue : ℕ → Option ℕ → Sched → Run (ℤ × Sched)
unfolding enqueue_ctx
rr_sched_enqueue cpu none s = ok (neg einval, s)
rr_sched_enqueue cpu (some t) s = elim (s.ctx t) [
  | none ↦ ok (neg einval, s)
  | some x ↦ enqueue_ctx cpu t x s
]

-- The last writes of `rr_sched_dequeue`: `list_del` unlinks the thread from whatever queue it is on.
pub pull_ready : ℕ → ℕ → ThreadCtx → Sched → Sched
pull_ready cpu t x s = record s {
  ctx = update s.ctx t (some (record x { state = inter; cpuid = cpu }));
  queue = λ c. erase t (s.queue c);
  queue_len = update s.queue_len cpu ((s.queue_len cpu + 2 ^ 32 - 1) % 2 ^ 32);
}

pub dequeue_ctx : ℕ → ℕ → ThreadCtx → Sched → ℤ × Sched
unfolding pull_ready
dequeue_ctx cpu t x s =
    if is_idle x.type
    then (neg einval, s)
    else if not (is_ready x.state)
    then (neg einval, s)
    else if aff_too_big x.affinity
    then (neg einval, s)
    else (pos 0, pull_ready cpu t x s)

pub rr_sched_dequeue : ℕ → Option ℕ → Sched → ℤ × Sched
unfolding dequeue_ctx
rr_sched_dequeue cpu none s = (neg einval, s)
rr_sched_dequeue cpu (some t) s = elim (s.ctx t) [
  | none ↦ (neg einval, s)
  | some x ↦ dequeue_ctx cpu t x s
]

-- `BUG_ON(rr_sched_dequeue(thread)); return thread;`
pub dequeued : ℕ → ℤ × Sched → Run (ℕ × Sched)
dequeued t (r, s) = if is_zero r then ok (t, s) else bug

-- A length above 0 over an empty list would make the list's head a thread.
pub rr_sched_choose_thread : ℕ → Sched → Run (ℕ × Sched)
unfolding rr_sched_dequeue dequeued
rr_sched_choose_thread cpu s =
    if s.queue_len cpu == 0
    then ok (s.idle_thread cpu, s)
    else elim (s.queue cpu) [ [] ↦ bug | t ∷ r ↦ dequeued t (rr_sched_dequeue cpu (some t) s) ]

abbrev pub is_current : Option ℕ → ℕ → Bool
is_current none t = false
is_current (some u) t = u == t

pub switch_ctx : ℕ → ℕ → ThreadCtx → Sched → Run Sched
switch_ctx cpu t x s =
    if is_ready x.state
    then bug
    else if is_exited x.exit_state
    then bug
    else if is_current (s.current cpu) t
    then ok (record s {
      ctx = update s.ctx t (some (record x { state = running }));
      prev_thread = update s.prev_thread t thread_itself;
    })
    else ok (record s {
      ctx = update s.ctx t (some (record x { cpuid = cpu; state = running }));
      prev_thread = update s.prev_thread t (previous (s.current cpu));
      current = update s.current cpu (some t);
    })

pub switch_to_thread : ℕ → ℕ → Sched → Run Sched
unfolding switch_ctx
switch_to_thread cpu t s = elim (s.ctx t) [ none ↦ bug | some x ↦ switch_ctx cpu t x s ]

-- `target->thread_ctx->sc->budget = budget`, a fault where `thread_ctx` or `sc` is NULL
pub set_budget : ℕ → ℕ → Sched → Run Sched
set_budget t budget s = elim (s.ctx t) [
  | none ↦ bug
  | some x ↦ elim x.sc [
    | none ↦ bug
    | some b ↦ ok (record s { ctx = update s.ctx t (some (record x { sc = some budget })) })
  ]
]

-- `switch_to_thread(rr_sched_choose_thread())`
pub choose_and_switch : ℕ → Sched → Run Sched
unfolding rr_sched_choose_thread switch_to_thread
choose_and_switch cpu s = do (t, s') ← rr_sched_choose_thread cpu s; switch_to_thread cpu t s'

-- `BUG_ON(rr_sched_enqueue(current_thread))`, then the refill and the switch
pub requeue : ℕ → ℕ → Sched → Run Sched
unfolding rr_sched_enqueue set_budget choose_and_switch
requeue cpu t s = do
  (r, s') ← rr_sched_enqueue cpu (some t) s
  bug_on (not (is_zero r)) (do s'' ← set_budget t default_budget s'; choose_and_switch cpu s'')

-- A thread that neither exits nor waits keeps the CPU while its budget and affinity allow it.
pub keep_or_requeue : ℕ → ℕ → ThreadCtx → Sched → Run Sched
unfolding requeue switch_to_thread
keep_or_requeue cpu t x s = elim x.sc [
  | none ↦ bug
  | some budget ↦
      if not (budget == 0) && may_stay cpu x.affinity
      then switch_to_thread cpu t s
      else requeue cpu t s
]

-- The branch of an exiting thread holds two comparisons whose results are dropped, and no write.
unfoldable pub rr_sched : ℕ → Sched → Run Sched
unfolding choose_and_switch keep_or_requeue
rr_sched cpu s = elim (s.current cpu) [
  | none ↦ choose_and_switch cpu s
  | some t ↦ elim (s.ctx t) [
    | none ↦ choose_and_switch cpu s
    | some x ↦
        if is_exiting x.exit_state || is_waiting x.state
        then choose_and_switch cpu s
        else keep_or_requeue cpu t x s
  ]
]
