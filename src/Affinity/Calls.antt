-- ===== src/Affinity/Calls.antt =====
-- What the affinity calls of kernel/object/thread.c do, alone and before `sys_yield`.
use chcore.Common.{
  ap, arith, bug, false, neg, negsuc, ok, pos, refl, some, suc, sym, true, update, ℕ, ℤ, ◌+◌, ◌<◌,
  ◌^◌, ◌||◌, ◌∙◌, ◌≡◌, ◌≢◌,
}
use chcore.Sched.{Sched, ThreadCtx, aff_too_big, is_exiting, is_idle, is_ready, is_waiting}
use chcore.Sched.Calls.{sys_yield}
use chcore.Sched.Yield.{sys_yield-affinity}
use chcore.Caps.{Caps, Object}
use chcore.Caps.Capability.{obj_get}
use chcore.Caps.FreeAll.{HasCap}
use chcore.Caps.Create.{obj_put-obj_get}
use chcore.Affinity.{
  ctx_affinity, get_thread, put_thread, set_ctx_affinity, sys_get_affinity, sys_set_affinity,
  thread_named, type_thread,
}

-- The contexts after a thread's affinity was set.
abbrev pub AffinitySet : ℕ → ThreadCtx → ℤ → Sched → Sched → Type 0
AffinitySet t x aff s s' =
    (s'.ctx t ≡ some (record x { affinity = aff }))
    × ((j : ℕ) → j ≢ t → s'.ctx j ≡ s.ctx j)
    × (s'.current ≡ s.current)
    × (s'.queue ≡ s.queue)

module _ (thread_of : ℕ → ℕ) (cpu group : ℕ) where
  -- The affinity of the current thread, set and read again.
  abbrev pub SetAndGot : ℕ → ThreadCtx → ℤ → Caps → Sched → Type 0
  SetAndGot t x aff c s =
      (s' : Sched) × (sys_set_affinity thread_of cpu group (neg 1) aff c s ≡ ok (pos 0, c, s'))
      × (sys_get_affinity thread_of cpu group (neg 1) c s' ≡ ok (aff, c))
      × AffinitySet t x aff s s'

  pub sys_get_affinity-sys_set_affinity :
      (t : ℕ) (x : ThreadCtx) (aff : ℤ) (c : Caps) (s : Sched)
      → s.current cpu ≡ some t
      → s.ctx t ≡ some x
      → aff_too_big aff ≡ false
      → SetAndGot t x aff c s
  unfolding sys_set_affinity sys_get_affinity get_thread thread_named put_thread set_ctx_affinity
      ctx_affinity
  sys_get_affinity-sys_set_affinity t x aff c s on e small = (
    record s { ctx = update s.ctx t (some (record x { affinity = aff })) },
    ground (arith, on, e, small),
    ground (arith, on),
    (ground arith, λ j ne. ground (arith, ne), refl, refl),
  )

  -- Through a capability of another thread.
  abbrev pub SetThroughCap : ℕ → ThreadCtx → ℕ → ℤ → Caps → Sched → Type 0
  SetThroughCap k x i aff c s =
      (c' : Caps) × (s' : Sched) × (sys_set_affinity thread_of cpu group (pos i) aff c s
        ≡ ok (pos 0, c', s'))
      × (c'.table ≡ c.table)
      × ((j : ℕ) → c'.object j ≡ c.object j)
      × AffinitySet (thread_of k) x aff s s'

  -- With a capability of a thread in a used slot, references from 1 to below 2^64 - 1 and an
  -- affinity that the check lets pass, sys_set_affinity returns 0 and sets the affinity of that
  -- thread. No other context, no queue, no current thread, no slot table and no object differs in
  -- the end.
  pub sys_set_affinity-SetThroughCap :
      (k i : ℕ) (o : Object) (x : ThreadCtx) (aff : ℤ) (c : Caps) (s : Sched)
      → HasCap c k group i
      → (c.table group).slots_bmp i ≡ true
      → c.object k ≡ some o
      → o.type ≡ type_thread
      → 0 < o.refcount
      → o.refcount + 1 < 2 ^ 64
      → s.ctx (thread_of k) ≡ some x
      → aff_too_big aff ≡ false
      → SetThroughCap k x i aff c s
  unfolding sys_set_affinity get_thread thread_named put_thread set_ctx_affinity
  sys_set_affinity-SetThroughCap k i o x aff c s cap bit eo type one small e fits =
      let (c1, c2, got, counted, put, same, objects) =
        obj_put-obj_get group i k o c cap bit eo one small in
      (
        c2,
        record s { ctx = update s.ctx (thread_of k) (some (record x { affinity = aff })) },
        ground (arith, ap (λ n. obj_get group (pos i) n c) (sym type) ∙ got, put, e, fits),
        same,
        objects,
        (ground arith, λ j ne. ground (arith, ne), refl, refl),
      )

  -- An affinity that the check lets pass, and the yield of its thread.
  abbrev pub SetAndStopped : ℕ → Caps → Sched → Type 0
  SetAndStopped n c s =
      (s' : Sched) × (sys_set_affinity thread_of cpu group (neg 1) (negsuc (suc n)) c s
        ≡ ok (pos 0, c, s'))
      × (sys_yield cpu s' ≡ bug)

  -- For any value below -1, sys_set_affinity of the current thread returns 0. If the thread has a
  -- budget, is not ready, does not exit or wait and is not of the idle type, its sys_yield is then
  -- an access below the start of the ready queues.
  pub sys_yield-sys_set_affinity :
      (t b n : ℕ) (x : ThreadCtx) (c : Caps) (s : Sched)
      → s.current cpu ≡ some t
      → s.ctx t ≡ some x
      → x.sc ≡ some b
      → is_ready x.state ≡ false
      → (is_exiting x.exit_state || is_waiting x.state) ≡ false
      → is_idle x.type ≡ false
      → SetAndStopped n c s
  sys_yield-sys_set_affinity t b n x c s on e budget off here busy =
      let (s', run, got, (set, others, current, queue)) =
        sys_get_affinity-sys_set_affinity t x (negsuc (suc n)) c s on e refl in
      (
        s',
        run,
        sys_yield-affinity cpu t b n (record x { affinity = negsuc (suc n) }) s'
            (ap (λ f. f cpu) current ∙ on) set budget off here busy refl,
      )
