-- ===== src/Sched/Calls.antt =====
-- The callers of the scheduler in kernel/sched/sched.c: the timer interrupt, `sys_yield` and the direct
-- switch of IPC.
use chcore.Common.{
  Run, bug, bug_on, if◌then◌else◌, is_zero, none, not, ok, some, ℕ, ◌-◌, ◌==◌, ◌>>=◌, ◌||◌,
}
use chcore.Sched.{
  Sched, is_current, is_inter, is_waiting, rr_sched, rr_sched_enqueue, set_budget, switch_to_thread,
}

-- `sched_handle_timer_irq`: one tick of the current thread's budget.
unfoldable pub sched_handle_timer_irq : ℕ → Sched → Run Sched
unfolding set_budget
sched_handle_timer_irq cpu s = elim (s.current cpu) [
  | none ↦ ok s
  | some t ↦ elim (s.ctx t) [
    | none ↦ bug
    | some x ↦ elim x.sc [
      | none ↦ ok s
      | some budget ↦ if budget == 0 then ok s else set_budget t (budget - 1) s
    ]
  ]
]

-- `sys_yield`, up to the return to user mode.
unfoldable pub sys_yield : ℕ → Sched → Run Sched
unfolding set_budget rr_sched
sys_yield cpu s = elim (s.current cpu) [
  | none ↦ bug
  | some t ↦ do s' ← set_budget t 0 s; rr_sched cpu s'
]

-- `sched_to_thread`, up to the return to user mode.
unfoldable pub sched_to_thread : ℕ → ℕ → Sched → Run Sched
unfolding rr_sched_enqueue switch_to_thread
sched_to_thread cpu target s = elim (s.ctx target) [
  | none ↦ bug
  | some y ↦ bug_on (not (is_waiting y.state || is_inter y.state)) (
      bug_on (is_current (s.current cpu) target) (elim (s.current cpu) [
        | none ↦ bug
        | some t ↦ elim (s.ctx t) [
          | none ↦ bug
          | some x ↦ if is_waiting x.state then switch_to_thread cpu target s else (do
            (r, s') ← rr_sched_enqueue cpu (some t) s
            bug_on (not (is_zero r)) (switch_to_thread cpu target s'))
        ]
      ]))
]
