-- ===== src/Semaphore/Tests.antt =====
-- Tests of kernel/semaphore/semaphore.c: thread 1 runs, thread 3 waits.
use chcore.Common.{[], arith, false, ok, pos, refl, true, ◌∷◌, ◌≡◌}
use chcore.Sched.{Sched, running}
use chcore.Semaphore.{Semaphore, blocked, put_sem, wait_sem}
use chcore.Sched.Queue.{IsValid}
use chcore.Sched.Round.{Chosen}
use chcore.Sched.Tests.{
  a_thread, busy_cpu, busy_cpu-IsReady, with_server, with_server-HasRoom, with_server-IsValid,
}
use chcore.Semaphore.Wait.{SemValid, fall_asleep, joined, wait_sem-block}
use chcore.Semaphore.Order.{AllWoken, signals, signals-drop}

abbrev no_waiter : Semaphore
no_waiter = record {
  sem_count = 0;
  waiting_threads_count = 0;
  waiting_threads = [];
  refcount = 2;
  freed = false;
}

abbrev one_waiter : Semaphore
one_waiter = record no_waiter { waiting_threads_count = 1; waiting_threads = 3 ∷ [] }

no_waiter-SemValid : SemValid no_waiter (busy_cpu 5 running)
no_waiter-SemValid = record {
  counted = refl;
  short = omega arith;
  distinct = tt;
  taken = λ h. refl;
  asleep = λ u h. cc;
  awake = λ c. refl;
}

one_waiter-SemValid : SemValid one_waiter with_server
one_waiter-SemValid = record {
  counted = refl;
  short = omega arith;
  distinct = (refl, tt);
  taken = λ h. absurd (omega arith);
  asleep = λ u h. ground arith;
  awake = λ c. refl;
}

wait_sem-block_example :
    (s' : Sched) × (wait_sem 0 no_waiter true (busy_cpu 5 running)
      ≡ ok (blocked (pos 0) (put_sem (joined 1 no_waiter)) s'))
    × Chosen 0 (fall_asleep 1 (a_thread 5 running) (busy_cpu 5 running)) s'
    × SemValid (put_sem (joined 1 no_waiter)) s'
wait_sem-block_example =
    wait_sem-block 0 1 (a_thread 5 running) (busy_cpu-IsReady 5 running refl) no_waiter-SemValid
      refl refl refl (λ c. omega arith) (omega arith) refl refl

signals-drop_example :
    (sem' : Semaphore) × (s' : Sched) × (signals 0 1 one_waiter with_server ≡ ok (sem', s'))
    × (sem'.waiting_threads ≡ [])
    × (sem'.sem_count ≡ 0)
    × IsValid s'
    × SemValid sem' s'
    × AllWoken 0 (3 ∷ []) with_server s'
signals-drop_example =
    signals-drop 0 1 with_server-IsValid with_server-HasRoom one_waiter-SemValid (omega arith)
