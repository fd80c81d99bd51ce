-- ===== src/Affinity/Tests.antt =====
-- Tests of the affinity calls of kernel/object/thread.c.
use chcore.Common.{arith, if◌then◌else◌, none, refl, some, ◌==◌}
use chcore.Sched.{running}
use chcore.Sched.Tests.{a_thread, busy_cpu}
use chcore.Caps.{Caps}
use chcore.Caps.FreeAll.{HasCap}
use chcore.Caps.Tests.{kernel_caps, object_7, plenty, slot_7}
use chcore.Affinity.{type_thread}
use chcore.Affinity.Calls.{SetAndStopped, sys_yield-sys_set_affinity}

-- Object 7, in slot 0 of group 0, is a thread.
abbrev thread_caps : Caps
thread_caps = record (kernel_caps plenty) {
  object = λ k. if k == 7 then some (record object_7 { type = type_thread }) else none;
}

thread_7-HasCap : HasCap thread_caps 7 0 0
thread_7-HasCap = (slot_7, refl, refl, refl, omega arith)

sys_yield-sys_set_affinity_example : SetAndStopped (λ k. 2) 0 0 0 thread_caps (busy_cpu 5 running)
sys_yield-sys_set_affinity_example =
    sys_yield-sys_set_affinity (λ k. 2) 0 0 1 5 0 (a_thread 5 running) thread_caps
      (busy_cpu 5 running) refl refl refl refl refl refl
