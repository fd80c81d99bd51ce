-- ===== src/TicketLock/Refine.antt =====
-- The ticket lock of kernel/arch/aarch64/sync/ticket.c is a queue: arrivals at the end, the lock
-- to the first.
use chcore.Common.{
  Bool, Bool-cases, Distinct, Distinct-append_one, List, [], ap, arith, false, has, has-append, inl,
  inr, length, length-append, length-le_of_below, nil_of_length, refl, sym, true, update, ℕ, ◌%◌,
  ◌++◌, ◌+◌, ◌<◌, ◌==◌, ◌∙◌, ◌∷◌, ◌≡◌, ◌≢◌, ◌⊎◌,
}
use chcore.TicketLock.{
  LockImpl, Pc, Reach, Step, System, compare, compared, enter, fail, first, goes, inside, later,
  load, loaded, lock_init, outside, release, retry, spin, start, stores, take, take_ticket, u32_mod,
  unlock, win,
}
use chcore.TicketLock.Line.{
  Served, Served-append, Served-first, Served-update, Waits-update, Waits→Served, stands_in,
}
use mathlib.Core.Path.{subst}

-- What a thread in `try_lock` knows, while its reservation holds.
abbrev pub Knows : LockImpl → Pc → Type 0
Knows l (loaded t) = t ≡ l.next
Knows l (compared t o) = (t ≡ l.next) × (t ≡ o → o ≡ l.owner)
Knows l _ = Unit

-- The state of `n` threads refines the queue `q`.
pub record Queues (n : ℕ) (s : System) (q : List ℕ) : Type 0 where
  pub few : n < u32_mod
  pub small : s.lock.owner < u32_mod
  pub handed : s.lock.next ≡ (s.lock.owner + length q) % u32_mod
  pub served : Served s.pc s.lock.owner q
  pub distinct : Distinct q
  pub below : (i : ℕ) → has i q ≡ true → i < n
  pub away : (i : ℕ) → has i q ≡ stands_in (s.pc i)
  pub knows : (i : ℕ) → s.reserved i ≡ true → Knows s.lock (s.pc i)

-- A lock that serves in the order of arrival: what one step may do to the queue.
pub data Fifo (q q' : List ℕ) : Type 0 where
  stay : q' ≡ q → Fifo q q'
  arrive : (i : ℕ) → has i q ≡ false → q' ≡ q ++ i ∷ [] → Fifo q q'
  leave : (i : ℕ) → q ≡ i ∷ q' → Fifo q q'

abbrev pub Refined : ℕ → List ℕ → System → Type 0
Refined n q s = (q' : List ℕ) × Fifo q q' × Queues n s q'

-- A release spoils no knowledge: nobody has seen the counters equal while a thread is in line.
Knows-release :
    (l : LockImpl) (o : ℕ) (p : Pc)
    → l.owner ≢ l.next
    → Knows l p
    → Knows (record l { owner = o }) p
Knows-release l o (loaded t) held k = k
Knows-release l o (compared t u) held k = (k.0, λ e. absurd (ground (arith, k.1 e)))
Knows-release l o outside held k = tt
Knows-release l o (spin t) held k = tt
Knows-release l o inside held k = tt

module _ {n : ℕ} {s : System} {q : List ℕ} (v : Queues n s q) (i : ℕ) where
  pub short : length q < u32_mod
  short = omega (arith, v.few, length-le_of_below n q v.distinct v.below)

  -- A step that moves a thread outside the line and leaves the lock alone.
  moves-aside :
      (p : Pc)
      → stands_in (s.pc i) ≡ false
      → stands_in p ≡ false
      → (r : ℕ → Bool) → ((j : ℕ) → r j ≡ true → Knows s.lock (update s.pc i p j))
      → Refined n q (record s { pc = update s.pc i p; reserved = r })
  moves-aside p out out' r know = (
    q,
    stay refl,
    record {
      few = v.few;
      small = v.small;
      handed = v.handed;
      served = Served-update s.pc s.lock.owner i p q (v.away i ∙ out) v.served;
      distinct = v.distinct;
      below = v.below;
      away = λ j. ground (arith, v.away j);
      knows = know;
    },
  )

  -- A thread joins the end of the line.
  joins :
      (p : Pc) (l : LockImpl)
      → i < n
      → stands_in (s.pc i) ≡ false
      → stands_in p ≡ true
      → l.owner ≡ s.lock.owner
      → l.next ≡ (s.lock.next + 1) % u32_mod
      → Served (update s.pc i p) l.owner (q ++ i ∷ [])
      → Refined n q (stores s i l p)
  joins p l lt out in' same more line = (
    q ++ i ∷ [],
    arrive i (v.away i ∙ out) refl,
    record {
      few = v.few;
      small = rw same v.small;
      handed = omega (arith, v.handed, v.small, short, length-append q (i ∷ []));
      served = line;
      distinct = Distinct-append_one i q v.distinct (v.away i ∙ out);
      below = λ j h. ground (arith, v.below j, has-append j q (i ∷ []));
      away = λ j. ground (arith, v.away j, has-append j q (i ∷ []));
      knows = λ j h. cc;
    },
  )

  takes :
      i < n
      → s.pc i ≡ outside
      → Refined n q (stores s i (take_ticket s.lock).1 (spin (take_ticket s.lock).0))
  unfolding take_ticket
  takes lt e = joins (spin s.lock.next) _ lt (rw e) refl refl refl (
      Served-append _ s.lock.owner i q v.small
        (Served-update s.pc s.lock.owner i _ q (ground (arith, v.away i)) v.served)
        (ground (arith, v.handed)))

  wins :
      (t o : ℕ)
      → i < n
      → s.pc i ≡ compared t o
      → t ≡ o
      → s.reserved i ≡ true
      → Refined n q (stores s i (record s.lock { next = (t + 1) % u32_mod }) inside)
  wins t o lt e eq res =
      let k = subst (Knows s.lock) e (v.knows i res) in
      let free = nil_of_length q (ground (arith, v.handed, v.small, short, k.0, k.1 eq)) in
      joins inside _ lt (rw e) refl refl (ap (λ x. (x + 1) % u32_mod) k.0) (
        subst (λ l. Served (update s.pc i inside) s.lock.owner (l ++ i ∷ [])) (sym free)
          (inr (ground arith), tt))

  pub first_served :
      stands_in (s.pc i) ≡ true
      → (s.pc i ≡ spin s.lock.owner) ⊎ (s.pc i ≡ inside)
      → (r : List ℕ) × (q ≡ i ∷ r)
  first_served in' = Served-first s.pc s.lock.owner i q v.small short v.served (v.away i ∙ in')

  enters : s.pc i ≡ spin s.lock.owner → Refined n q (goes s i inside)
  enters e =
      let (r, eq) = first_served (rw e) (inl e) in
      let w = subst (Served s.pc s.lock.owner) eq v.served in
      let d = subst Distinct eq v.distinct in
      (
        q,
        stay refl,
        record {
          few = v.few;
          small = v.small;
          handed = v.handed;
          served =
              subst (Served (update s.pc i inside) s.lock.owner) (sym eq)
                (inr (ground arith), Waits-update s.pc _ i inside r d.0 w.1);
          distinct = v.distinct;
          below = v.below;
          away = λ j. ground (arith, v.away j);
          knows = λ j h. ground (arith, v.knows j h);
        },
      )

  releases :
      s.pc i ≡ inside → Refined n q (record s { lock = unlock s.lock; pc = update s.pc i outside })
  unfolding unlock
  releases e =
      let (r, eq) = first_served (rw e) (inr e) in
      let w = subst (Served s.pc s.lock.owner) eq v.served in
      let d = subst Distinct eq v.distinct in
      (
        r,
        leave i eq,
        record {
          few = v.few;
          small = omega arith;
          handed = omega (arith, v.handed, v.small, ap length eq);
          served = Waits→Served _ _ r (Waits-update s.pc _ i outside r d.0 w.1);
          distinct = d.1;
          below = λ j h. ground (arith, v.below j, ap (has j) eq);
          away = λ j. ground (arith, v.away j, ap (has j) eq, d.0);
          knows = λ j h. elim (Bool-cases (j == i)) [
            | inl same ↦ rw same tt
            | inr other ↦ rw other (
                Knows-release s.lock _ (s.pc j)
                  (omega (arith, v.handed, v.small, short, ap length eq)) (v.knows j h))
          ];
        },
      )

-- Let fewer than 2^32 threads use the lock in a state that refines a queue. Each step of one of
-- them leads to a state that refines the same queue, the queue with one thread more at its end, or
-- the queue without its first thread.
pub Step-Fifo : {n : ℕ} {s s' : System} {q : List ℕ} → Queues n s q → Step n s s' → Refined n q s'
Step-Fifo v (take i lt e) = takes v i lt e
Step-Fifo v (enter i lt e) = enters v i e
Step-Fifo {s} v (load i lt e) =
    moves-aside v i (loaded s.lock.next) (rw e) refl _ (λ j h. ground (arith, v.knows j))
Step-Fifo {s} v (compare i t lt e) =
    moves-aside v i (compared t s.lock.owner) (rw e) refl _ (λ j h. ground (arith, v.knows j h))
Step-Fifo v (fail i t o lt e ne) =
    moves-aside v i outside (rw e) refl _ (λ j h. ground (arith, v.knows j h))
Step-Fifo v (retry i t o lt e) =
    moves-aside v i outside (rw e) refl _ (λ j h. ground (arith, v.knows j h))
Step-Fifo v (win i t o lt e eq res) = wins v i t o lt e eq res
Step-Fifo v (release i lt e) = releases v i e

-- Nobody stands in line at first.
pub start-Queues : (n : ℕ) → n < u32_mod → Queues n start []
unfolding lock_init
start-Queues n few = record {
  few = few;
  small = omega arith;
  handed = refl;
  served = tt;
  distinct = tt;
  below = λ i h. cc;
  away = λ i. refl;
  knows = λ i h. cc;
}

pub Reach-Queues : {n : ℕ} {s : System} → n < u32_mod → Reach n s → (q : List ℕ) × Queues n s q
Reach-Queues {n} few first = ([], start-Queues n few)
Reach-Queues few (later r st) =
    let (q, v) = Reach-Queues few r in let (q', f, v') = Step-Fifo v st in (q', v')
