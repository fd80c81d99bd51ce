-- ===== src/Semaphore/Order.antt =====
-- Several signals in a row: kernel/semaphore/semaphore.c wakes its waiters in the order of arrival.
use chcore.Common.{
  Bool, List, Option, Run, [], ap, arith, drop, false, if◌then◌else◌, length, length-append, none,
  ok, refl, some, suc, sym, take, update, zero, ℕ, ℕ_discrete, ◌++◌, ◌+◌, ◌<◌, ◌==◌, ◌>>=◌, ◌^◌,
  ◌∙◌, ◌∷◌, ◌≡◌, ◌≤◌,
}
use chcore.Sched.{Sched, ThreadCtx, push_ready}
use chcore.Sched.Queue.{IsValid}
use chcore.Semaphore.{Semaphore, signal_sem}
use chcore.Semaphore.Wait.{SemValid}
use chcore.Semaphore.Signal.{home, signal_sem-wake}
use mathlib.Core.Path.{ap₂}
use mathlib.Core.Path.{subst}

-- `n` calls of `signal_sem`.
pub signals : ℕ → ℕ → Semaphore → Sched → Run (Semaphore × Sched)
signals cpu zero sem s = ok (sem, s)
signals cpu (suc n) sem s = do (r, sem', s') ← signal_sem cpu sem s; signals cpu n sem' s'

-- Room for `n` threads more on every ready queue.
abbrev pub RoomFor : ℕ → Sched → Type 0
RoomFor n s = (k : ℕ) → length (s.queue k) + n < 2 ^ 32

first_of_long : (xs : List ℕ) (n : ℕ) → suc n ≤ length xs → (u : ℕ) × (q : List ℕ) × (xs ≡ u ∷ q)
first_of_long [] n h = absurd (omega arith)
first_of_long (u ∷ q) n h = (u, q, refl)

RoomFor-push :
    (k u n : ℕ) (x : ThreadCtx) (s : Sched) → RoomFor (suc n) s → RoomFor n (push_ready k u x s)
unfolding push_ready
RoomFor-push k u n x s room c = ground (arith, room c, length-append (s.queue k) (u ∷ []))

-- Whether the queue of CPU `c` is the one for a thread that is woken on `cpu`.
abbrev pub goes_to : ℕ → ℕ → Option ThreadCtx → Bool
goes_to cpu c none = false
goes_to cpu c (some x) = home cpu x.affinity == c

-- Those of the threads that go to CPU `c`, in order.
abbrev pub going_to : ℕ → ℕ → (ℕ → Option ThreadCtx) → List ℕ → List ℕ
going_to cpu c ctx [] = []
going_to cpu c ctx (u ∷ us) =
    if goes_to cpu c (ctx u) then u ∷ going_to cpu c ctx us else going_to cpu c ctx us

-- A wakeup writes no affinity.
going_to-push :
    (cpu c k u : ℕ) (x : ThreadCtx) (s : Sched) (us : List ℕ)
    → s.ctx u ≡ some x
    → going_to cpu c (push_ready k u x s).ctx us ≡ going_to cpu c s.ctx us
unfolding push_ready
going_to-push cpu c k u x s [] e = refl
going_to-push cpu c k u x s (v ∷ us) e =
    ap₂ (λ b l. if b then v ∷ l else l) kept (going_to-push cpu c k u x s us e)
  where
    kept : goes_to cpu c ((push_ready k u x s).ctx v) ≡ goes_to cpu c (s.ctx v)
    kept = elim (ℕ_discrete v u) [
      | yes same ↦ ground (arith, same, e, ap s.ctx same)
      | no ne ↦ ground (arith, ne)
    ]

-- The queues after the threads were woken in order.
abbrev pub AllWoken : ℕ → List ℕ → Sched → Sched → Type 0
AllWoken cpu us s s' = (c : ℕ) → s'.queue c ≡ s.queue c ++ going_to cpu c s.ctx us

append-cons : (xs : List ℕ) (u : ℕ) (ys : List ℕ) → (xs ++ u ∷ []) ++ ys ≡ xs ++ u ∷ ys
append-cons [] u ys = refl
append-cons (x ∷ xs) u ys = ap (λ l. x ∷ l) (append-cons xs u ys)

append-nil : (xs : List ℕ) → xs ≡ xs ++ []
append-nil [] = refl
append-nil (x ∷ xs) = ap (λ l. x ∷ l) (append-nil xs)

AllWoken-cons :
    (cpu u : ℕ) (x : ThreadCtx) (us : List ℕ) (s s' : Sched)
    → s.ctx u ≡ some x
    → AllWoken cpu us (push_ready (home cpu x.affinity) u x s) s'
    → AllWoken cpu (u ∷ us) s s'
unfolding push_ready
AllWoken-cons cpu u x us s s' e woken c =
    woken c
    ∙ ap
        (λ l. update s.queue (home cpu x.affinity) (s.queue (home cpu x.affinity) ++ u ∷ []) c ++ l)
        (going_to-push cpu c (home cpu x.affinity) u x s us e)
    ∙ placed (going_to cpu c s.ctx us)
  where
    placed :
        (l : List ℕ)
        → update s.queue (home cpu x.affinity) (s.queue (home cpu x.affinity) ++ u ∷ []) c ++ l
          ≡ s.queue c ++ (if goes_to cpu c (s.ctx u) then u ∷ l else l)
    placed l = elim (ℕ_discrete c (home cpu x.affinity)) [
      | yes same ↦ ground (arith, same, e, append-cons (s.queue c) u l, ap s.queue same)
      | no ne ↦ ground (arith, ne, e)
    ]

-- With valid queues that have room for n threads more and a valid semaphore with at least n
-- waiters, n signals put the first n waiters, in their order, at the ends of the ready queues that
-- their affinities name, and change no queue else; the others wait in order, the count stays as it
-- is, and scheduler and semaphore stay valid.
pub signals-drop :
    (cpu n : ℕ) {sem : Semaphore} {s : Sched}
    → IsValid s
    → RoomFor n s
    → SemValid sem s
    → n ≤ length sem.waiting_threads
    → (sem' : Semaphore) × (s' : Sched) × (signals cpu n sem s ≡ ok (sem', s'))
      × (sem'.waiting_threads ≡ drop n sem.waiting_threads)
      × (sem'.sem_count ≡ sem.sem_count)
      × IsValid s'
      × SemValid sem' s'
      × AllWoken cpu (take n sem.waiting_threads) s s'
unfolding signals
signals-drop cpu zero {sem} {s} v room w le =
    (sem, s, refl, refl, refl, v, w, λ c. append-nil (s.queue c))
signals-drop cpu (suc n) {sem} {s} v room w le =
    let (u, q, first) = first_of_long sem.waiting_threads n le in
    let (s1, run, (x, ex, to), v1, w1) =
      signal_sem-wake cpu u q v (λ k. omega (arith, room k)) w first in
    let room1 : RoomFor n s1 =
      subst (RoomFor n) (sym to) (RoomFor-push (home cpu x.affinity) u n x s room) in
    let (sem', s', runs, dropped, same, v', w', woken) =
      signals-drop cpu n v1 room1 w1 (omega (arith, ap length first)) in
    (
      sem',
      s',
      rw run runs,
      dropped ∙ sym (ap (drop (suc n)) first),
      same,
      v',
      w',
      subst (λ l. AllWoken cpu l s s') (sym (ap (take (suc n)) first))
          (AllWoken-cons cpu u x (take n q) s s' ex
            (subst (λ z. AllWoken cpu (take n q) z s') to woken)),
    )
