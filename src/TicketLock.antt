-- ===== src/TicketLock.antt =====
-- The ticket lock of kernel/arch/aarch64/sync/ticket.c, taken by any number of CPUs or threads
-- whose instructions interleave.
pub mod Line
pub mod Refine
pub mod Safety
pub mod Tests
use chcore.Common.{Bool, false, not, true, update, ℕ, ◌%◌, ◌+◌, ◌<◌, ◌==◌, ◌^◌, ◌≡◌, ◌≢◌}

-- `struct lock_impl`: two 32-bit counters.
pub record LockImpl : Type 0 where
  pub owner : ℕ
  pub next : ℕ

abbrev pub u32_mod : ℕ
u32_mod = 2 ^ 32

pub lock_init : LockImpl
lock_init = record { owner = 0; next = 0 }

-- `lock->owner++`
pub unlock : LockImpl → LockImpl
unlock l = record l { owner = (l.owner + 1) % u32_mod }

pub is_locked : LockImpl → Bool
is_locked l = not (l.owner == l.next)

-- `ldaxr`, `add` and `stxr` of `next`: the ticket, and the lock with the next one.
pub take_ticket : LockImpl → ℕ × LockImpl
take_ticket l = (l.next, record l { next = (l.next + 1) % u32_mod })

-- Where a thread stands: outside; in `try_lock` behind its `ldaxr`, or behind its `ldar`; in the
-- loop of `lock` with a ticket; or as the owner of the lock.
pub data Pc : Type 0 where
  outside : Pc
  loaded : ℕ → Pc
  compared : ℕ → ℕ → Pc
  spin : ℕ → Pc
  inside : Pc

-- `reserved i`: the exclusive monitor of thread `i` still covers `next`.
pub record System : Type 0 where
  pub lock : LockImpl
  pub pc : ℕ → Pc
  pub reserved : ℕ → Bool

abbrev pub goes : System → ℕ → Pc → System
goes s i p = record s { pc = update s.pc i p }

-- A store to `next` by thread `i` ends every reservation.
abbrev pub stores : System → ℕ → LockImpl → Pc → System
stores s i l p = record { lock = l; pc = update s.pc i p; reserved = λ _. false }

-- One step of one of `n` threads.
pub data Step (n : ℕ) (s : System) : System → Type 0 where
  -- `lock`: the ticket is drawn.
  take :
      (i : ℕ)
      → i < n
      → s.pc i ≡ outside
      → Step n s (stores s i (take_ticket s.lock).1 (spin (take_ticket s.lock).0))
  -- `lock`: the loop ends.
  enter : (i : ℕ) → i < n → s.pc i ≡ spin s.lock.owner → Step n s (goes s i inside)
  -- `try_lock`: `ldaxr` of `next`.
  load :
      (i : ℕ)
      → i < n
      → s.pc i ≡ outside
      → Step n s (record s {
        pc = update s.pc i (loaded s.lock.next);
        reserved = update s.reserved i true;
      })
  -- `try_lock`: `ldar` of `owner`.
  compare : (i t : ℕ) → i < n → s.pc i ≡ loaded t → Step n s (goes s i (compared t s.lock.owner))
  -- `try_lock`: the counters differ, and -1 is returned.
  fail : (i t o : ℕ) → i < n → s.pc i ≡ compared t o → t ≢ o → Step n s (goes s i outside)
  -- `try_lock`: `stxr` fails, and the code starts again.
  retry : (i t o : ℕ) → i < n → s.pc i ≡ compared t o → Step n s (goes s i outside)
  -- `try_lock`: `stxr` succeeds.
  win :
      (i t o : ℕ)
      → i < n
      → s.pc i ≡ compared t o
      → t ≡ o
      → s.reserved i ≡ true
      → Step n s (stores s i (record s.lock { next = (t + 1) % u32_mod }) inside)
  release :
      (i : ℕ)
      → i < n
      → s.pc i ≡ inside
      → Step n s (record s { lock = unlock s.lock; pc = update s.pc i outside })

abbrev pub start : System
start = record { lock = lock_init; pc = λ _. outside; reserved = λ _. false }

pub data Reach (n : ℕ) : System → Type 0 where
  first : Reach n start
  later : {s t : System} → Reach n s → Step n s t → Reach n t
