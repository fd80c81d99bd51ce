-- ===== src/Sched/Queue.antt =====
-- The ready queues of kernel/sched/policy_rr.c: what ties them to the thread contexts.
use chcore.Common.{
  Bool, Bool-cases, Distinct, Distinct-append_one, Distinct-erase, Option, Option-cases, Run, [],
  arith, bug, erase-eq_of_not, false, has, has-append, has-erase_ne, has-erase_self, inl, inr,
  length, length-append, length-erase, length-erase-le, none, not, ok, pos, some, true, ℕ, ℤ, ◌&&◌,
  ◌+◌, ◌<◌, ◌==◌, ◌^◌, ◌∷◌, ◌≡◌,
}
use chcore.Sched.{
  Sched, ThreadCtx, aff_too_big, enqueue_ctx, is_idle, is_ready, pull_ready, push_ready,
  rr_sched_dequeue, rr_sched_enqueue, target_cpu,
}
use mathlib.Core.Path.{subst}

-- Whether the thread with this context stands on the queue of the CPU.
abbrev pub queued_at : ℕ → Option ThreadCtx → Bool
queued_at c none = false
queued_at c (some x) =
    (x.cpuid == c) && (is_ready x.state && not (is_idle x.type) && not (aff_too_big x.affinity))

-- The queues hold exactly the ready threads, each once, on the CPU that its context names.
pub record IsValid (s : Sched) : Type 0 where
  pub counted : (c : ℕ) → s.queue_len c ≡ length (s.queue c)
  pub short : (c : ℕ) → length (s.queue c) < 2 ^ 32
  pub distinct : (c : ℕ) → Distinct (s.queue c)
  pub matches : (c t : ℕ) → has t (s.queue c) ≡ queued_at c (s.ctx t)

module _ {s : Sched} (v : IsValid s) (k t : ℕ) (x : ThreadCtx) where
  open v use {counted, short, distinct, matches}

  pub push_ready-IsValid :
      s.ctx t ≡ some x
      → is_ready x.state ≡ false
      → is_idle x.type ≡ false
      → aff_too_big x.affinity ≡ false
      → length (s.queue k) + 1 < 2 ^ 32
      → IsValid (push_ready k t x s)
  unfolding push_ready
  push_ready-IsValid e fresh busy aff room = record {
    counted = λ c. ground (arith, counted c, length-append (s.queue k) (t ∷ []));
    short = λ c. ground (arith, short c, length-append (s.queue k) (t ∷ []));
    distinct = λ c. ground (arith, distinct c, Distinct-append_one t (s.queue k), matches k t);
    matches = λ c u. ground (arith, matches c u, has-append u (s.queue k) (t ∷ []));
  }

  pub pull_ready-IsValid :
      s.ctx t ≡ some x → queued_at k (some x) ≡ true → IsValid (pull_ready k t x s)
  unfolding pull_ready
  pull_ready-IsValid e on = record {
    counted = λ c. ground (
      arith,
      counted c,
      short c,
      matches c t,
      length-erase t (s.queue c),
      erase-eq_of_not t (s.queue c),
    );
    short = λ c. omega (arith, short c, length-erase-le t (s.queue c));
    distinct = λ c. Distinct-erase t (s.queue c) (distinct c);
    matches = λ c u. ground (
      arith,
      matches c u,
      matches c t,
      has-erase_ne t u (s.queue c),
      has-erase_self t (s.queue c) (distinct c),
    );
  }

-- Every queue's counter can still count one thread more.
abbrev pub HasRoom : Sched → Type 0
HasRoom s = (k : ℕ) → length (s.queue k) + 1 < 2 ^ 32

abbrev ValidAfter : Run (ℤ × Sched) → Type 0
ValidAfter (ok (r, s)) = IsValid s
ValidAfter bug = Unit

enqueue_ctx-ValidAfter :
    (cpu t : ℕ) (x : ThreadCtx) {s : Sched}
    → IsValid s
    → HasRoom s
    → s.ctx t ≡ some x
    → ValidAfter (enqueue_ctx cpu t x s)
unfolding enqueue_ctx
enqueue_ctx-ValidAfter cpu t x v room e = elim (Bool-cases (is_ready x.state)) [
  | inl a ↦ rw a v
  | inr a ↦ elim (Bool-cases (is_idle x.type)) [
    | inl b ↦ rw (a, b) v
    | inr b ↦ elim (Bool-cases (aff_too_big x.affinity)) [
      | inl c ↦ rw (a, b, c) v
      | inr c ↦ elim (Option-cases (target_cpu cpu x.affinity)) [
        | inl d ↦ rw (a, b, c, d, enqueue_ctx) tt
        | inr (k, d) ↦ rw (a, b, c, d, enqueue_ctx) (push_ready-IsValid v k t x e a b c (room k))
      ]
    ]
  ]
]

enqueue-ValidAfter :
    (cpu : ℕ) (t : Option ℕ) {s : Sched}
    → IsValid s
    → HasRoom s
    → ValidAfter (rr_sched_enqueue cpu t s)
unfolding rr_sched_enqueue
enqueue-ValidAfter cpu none v room = v
enqueue-ValidAfter cpu (some t) {s} v room = elim (Option-cases (s.ctx t)) [
  | inl e ↦ rw (e, rr_sched_enqueue) v
  | inr (x, e) ↦ rw (e, rr_sched_enqueue) (enqueue_ctx-ValidAfter cpu t x v room e)
]

-- If the queues are valid and no queue is full, they are valid after every call of rr_sched_enqueue
-- that returns, with 0 or with an error.
pub rr_sched_enqueue-IsValid :
    (cpu : ℕ) (t : Option ℕ) {s s' : Sched} {r : ℤ}
    → IsValid s
    → HasRoom s
    → rr_sched_enqueue cpu t s ≡ ok (r, s')
    → IsValid s'
rr_sched_enqueue-IsValid cpu t v room e = subst ValidAfter e (enqueue-ValidAfter cpu t v room)

-- A ready thread that stands on the queue of the executing CPU can be dequeued there.
pub rr_sched_dequeue_lem :
    (cpu t : ℕ) (x : ThreadCtx) (s : Sched)
    → s.ctx t ≡ some x
    → queued_at cpu (some x) ≡ true
    → rr_sched_dequeue cpu (some t) s ≡ (pos 0, pull_ready cpu t x s)
unfolding rr_sched_dequeue
rr_sched_dequeue_lem cpu t x s e on = ground arith

-- A thread of a queue has a context, and it says so.
pub queued :
    {s : Sched}
    → IsValid s
    → (c t : ℕ) → has t (s.queue c) ≡ true
    → (x : ThreadCtx) × (s.ctx t ≡ some x) × (queued_at c (some x) ≡ true)
queued {s} v c t h = elim (Option-cases (s.ctx t)) [
  | inl e ↦ absurd (ground (arith, v.matches c t))
  | inr (x, e) ↦ (x, e, ground (arith, v.matches c t))
]
