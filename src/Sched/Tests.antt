-- ===== src/Sched/Tests.antt =====
-- Tests of kernel/sched/policy_rr.c and kernel/sched/sched.c: one CPU with an idle thread 0, a
-- running thread 1 and a ready thread 2.
use chcore.Common.{
  Option, [], arith, false, if◌then◌else◌, negsuc, none, ok, pos, refl, some, ℕ, ℕ_discrete, ◌==◌,
  ◌>>=◌, ◌∷◌, ◌≡◌,
}
use chcore.Sched.{
  Sched, ThreadCtx, ThreadState, enqueue_ctx, idle, init, is_ready, previous, pull_ready,
  push_ready, ready, rr_sched, rr_sched_dequeue, rr_sched_enqueue, running, te_running, user,
  waiting,
}
use chcore.Sched.Queue.{HasRoom, IsValid, rr_sched_dequeue_lem}
use chcore.Sched.Round.{IsReady, NoneExited}
use chcore.Sched.Tick.{Next, rr_sched-ticks, ticks}

abbrev pub a_thread : ℕ → ThreadState → ThreadCtx
a_thread budget st = record {
  sc = some budget;
  type = user;
  state = st;
  affinity = negsuc 0;
  cpuid = 0;
  exit_state = te_running;
}

abbrev pub idle_ctx : ThreadCtx
idle_ctx = record {
  sc = some 10;
  type = idle;
  state = init;
  affinity = negsuc 0;
  cpuid = 0;
  exit_state = te_running;
}

-- The contexts, with the state and the budget of thread 1.
abbrev pub ctx_of : ℕ → ThreadState → ℕ → Option ThreadCtx
ctx_of budget st t =
    if t == 0
    then some idle_ctx
    else if t == 1
    then some (a_thread budget st)
    else if t == 2
    then some (a_thread 10 ready)
    else none

abbrev pub busy_cpu : ℕ → ThreadState → Sched
busy_cpu budget st = record {
  ctx = ctx_of budget st;
  prev_thread = λ t. previous none;
  queue = λ c. if c == 0 then 2 ∷ [] else [];
  queue_len = λ c. if c == 0 then 1 else 0;
  current = λ c. some 1;
  idle_thread = λ c. 0;
}

pub busy_cpu-IsReady : (b : ℕ) (st : ThreadState) → is_ready st ≡ false → IsReady 0 (busy_cpu b st)
busy_cpu-IsReady b st off = record {
  valid = record {
    counted = λ c. ground arith;
    short = λ c. ground arith;
    distinct = λ c. ground arith;
    matches = λ c t. ground arith;
  };
  alive = λ t x e. ground arith;
  idles = (idle_ctx, refl, refl);
}

busy_cpu-HasRoom : (b : ℕ) (st : ThreadState) → HasRoom (busy_cpu b st)
busy_cpu-HasRoom b st k = ground arith

rr_sched-ticks_example :
    (s' : Sched) × ((ticks 0 3 (busy_cpu 3 running) >>= rr_sched 0) ≡ ok s')
    × Next 0 1 0 (busy_cpu 3 running).queue (busy_cpu 3 running).idle_thread s'
rr_sched-ticks_example =
    rr_sched-ticks 0 1 0 3 (a_thread 3 running) (busy_cpu-IsReady 3 running refl)
      (busy_cpu-HasRoom 3 running) refl refl (omega arith) refl refl refl refl refl

-- Thread 1 waits, and the CPU is handed to a thread 3 that waits as well.
abbrev pub with_server : Sched
with_server = record (busy_cpu 5 waiting) {
  ctx = λ t. if t == 3 then some (a_thread 5 waiting) else ctx_of 5 waiting t;
}

abbrev after_enqueue : Sched
after_enqueue = push_ready 0 1 (a_thread 5 running) (busy_cpu 5 running)

enqueued : rr_sched_enqueue 0 (some 1) (busy_cpu 5 running) ≡ ok (pos 0, after_enqueue)
unfolding rr_sched_enqueue enqueue_ctx
enqueued = refl

rr_sched_dequeue_lem_example :
    rr_sched_dequeue 0 (some 2) (busy_cpu 5 running)
    ≡ (pos 0, pull_ready 0 2 (a_thread 10 ready) (busy_cpu 5 running))
rr_sched_dequeue_lem_example =
    rr_sched_dequeue_lem 0 2 (a_thread 10 ready) (busy_cpu 5 running) refl refl

pub with_server-IsValid : IsValid with_server
with_server-IsValid = record {
  counted = λ c. ground arith;
  short = λ c. ground arith;
  distinct = λ c. ground arith;
  matches = λ c t. elim (ℕ_discrete t 3) [
    | yes e ↦ ground arith
    | no ne ↦ ground (arith, (busy_cpu-IsReady 5 waiting refl).valid.matches c t)
  ];
}

with_server-alive : NoneExited with_server
with_server-alive t x e = ground (arith, (busy_cpu-IsReady 5 waiting refl).alive t x)

pub with_server-HasRoom : HasRoom with_server
with_server-HasRoom k = ground arith

-- Thread 1 with the affinity -2.
abbrev lost_thread : ThreadCtx
lost_thread = record (a_thread 5 running) { affinity = negsuc 1 }

abbrev lost_cpu : Sched
lost_cpu = record (busy_cpu 5 running) {
  ctx = λ t. if t == 1 then some lost_thread else ctx_of 5 running t;
}
