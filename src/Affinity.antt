-- ===== src/Affinity.antt =====
-- `sys_set_affinity` and `sys_get_affinity` of kernel/object/thread.c, over the capabilities of Caps
-- and the thread contexts of Sched.
pub mod Calls
pub mod Tests
use chcore.Common.{
  Bool, Option, Run, bug, bug_on, ecapbility, einval, false, if◌then◌else◌, neg, negsuc, none, ok,
  pos, some, suc, true, update, zero, ℕ, ℤ, ◌>>=◌,
}
use chcore.Sched.{Sched, aff_too_big}
use chcore.Caps.{Caps}
use chcore.Caps.Capability.{obj_get, obj_put}

-- TYPE_THREAD
abbrev pub type_thread : ℕ
type_thread = 1

-- `thread_cap == -1`, which names the current thread.
abbrev pub names_current : ℤ → Bool
names_current (negsuc zero) = true
names_current (negsuc (suc n)) = false
names_current (pos n) = false

-- `thread->thread_ctx->affinity = aff`
pub set_ctx_affinity : ℕ → ℤ → Sched → Run Sched
set_ctx_affinity t aff s = elim (s.ctx t) [
  | none ↦ bug
  | some x ↦ ok (record s { ctx = update s.ctx t (some (record x { affinity = aff })) })
]

pub ctx_affinity : ℕ → Sched → Run ℤ
ctx_affinity t s = elim (s.ctx t) [ none ↦ bug | some x ↦ ok x.affinity ]

-- `thread_of` is the thread that an object is; the CPU and the capability group are the caller's.
module _ (thread_of : ℕ → ℕ) (cpu group : ℕ) where
  -- The thread that a call names, with a reference to it that `put_thread` gives back.
  pub get_thread : ℤ → Caps → Sched → Run (Option ℕ × Caps)
  get_thread thread_cap c s =
      if names_current thread_cap
      then ok (s.current cpu, c)
      else (do (found, c') ← obj_get group thread_cap type_thread c; ok (found, c'))

  -- A thread, or the object that it is.
  pub thread_named : ℤ → ℕ → ℕ
  thread_named thread_cap k = if names_current thread_cap then k else thread_of k

  pub put_thread : ℤ → ℕ → Caps → Run Caps
  put_thread thread_cap k c = if names_current thread_cap then ok c else obj_put k c

  pub sys_set_affinity : ℤ → ℤ → Caps → Sched → Run (ℤ × Caps × Sched)
  sys_set_affinity thread_cap aff c s = if aff_too_big aff then ok (neg einval, c, s) else (do
    (found, c') ← get_thread thread_cap c s
    elim found [
      | none ↦ ok (neg ecapbility, c', s)
      | some k ↦ do
        s' ← set_ctx_affinity (thread_named thread_cap k) aff s
        c'' ← put_thread thread_cap k c'
        ok (pos 0, c'', s')
    ])

  -- Without a current thread, naming it stops the kernel.
  pub sys_get_affinity : ℤ → Caps → Sched → Run (ℤ × Caps)
  sys_get_affinity thread_cap c s = do
    (found, c') ← get_thread thread_cap c s
    elim found [
      | none ↦ bug_on (names_current thread_cap) (ok (neg ecapbility, c'))
      | some k ↦ do
        aff ← ctx_affinity (thread_named thread_cap k) s
        c'' ← put_thread thread_cap k c'
        ok (aff, c'')
    ]
