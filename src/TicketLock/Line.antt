-- ===== src/TicketLock/Line.antt =====
-- The line of threads before the ticket lock of kernel/arch/aarch64/sync/ticket.c: each holds the
-- ticket after that of the thread ahead, modulo 2^32.
use chcore.Common.{
  ==_iff, Bool, Bool-cases, List, [], ap, arith, false, has, inl, inr, length, suc, sym, true,
  update, ℕ, ◌%◌, ◌++◌, ◌+◌, ◌<◌, ◌==◌, ◌∙◌, ◌∷◌, ◌≡◌, ◌⊎◌,
}
use chcore.TicketLock.{Pc, inside, spin, u32_mod}

-- The threads of the list spin with tickets from `t` on.
abbrev pub Waits : (ℕ → Pc) → ℕ → List ℕ → Type 0
Waits pc t [] = Unit
Waits pc t (i ∷ q) = (pc i ≡ spin t) × Waits pc ((t + 1) % u32_mod) q

-- The first thread owns the lock, or may enter.
abbrev pub Served : (ℕ → Pc) → ℕ → List ℕ → Type 0
Served pc t [] = Unit
Served pc t (i ∷ q) = ((pc i ≡ spin t) ⊎ (pc i ≡ inside)) × Waits pc ((t + 1) % u32_mod) q

-- Whether the thread has a place in the line.
abbrev pub stands_in : Pc → Bool
stands_in (spin t) = true
stands_in inside = true
stands_in _ = false

-- A step of a thread that is not in the line.
pub Waits-update :
    (pc : ℕ → Pc) (t i : ℕ) (p : Pc) (q : List ℕ)
    → has i q ≡ false
    → Waits pc t q
    → Waits (update pc i p) t q
Waits-update pc t i p [] h w = tt
Waits-update pc t i p (j ∷ q) h w =
    (ground arith, Waits-update pc ((t + 1) % u32_mod) i p q (ground arith) w.1)

pub Served-update :
    (pc : ℕ → Pc) (t i : ℕ) (p : Pc) (q : List ℕ)
    → has i q ≡ false
    → Served pc t q
    → Served (update pc i p) t q
Served-update pc t i p [] h w = tt
Served-update pc t i p (j ∷ q) h w =
    (ground arith, Waits-update pc ((t + 1) % u32_mod) i p q (ground arith) w.1)

pub Waits-append :
    (pc : ℕ → Pc) (t i : ℕ) (q : List ℕ)
    → t < u32_mod
    → Waits pc t q
    → pc i ≡ spin ((t + length q) % u32_mod)
    → Waits pc t (q ++ i ∷ [])
Waits-append pc t i [] small w e = (e ∙ ap spin (omega arith), tt)
Waits-append pc t i (j ∷ q) small w e =
    (w.0, Waits-append pc ((t + 1) % u32_mod) i q (omega arith) w.1 (e ∙ ap spin (omega arith)))

pub Served-append :
    (pc : ℕ → Pc) (t i : ℕ) (q : List ℕ)
    → t < u32_mod
    → Served pc t q
    → pc i ≡ spin ((t + length q) % u32_mod)
    → Served pc t (q ++ i ∷ [])
Served-append pc t i [] small w e = (inl (e ∙ ap spin (omega arith)), tt)
Served-append pc t i (j ∷ q) small w e =
    (w.0, Waits-append pc ((t + 1) % u32_mod) i q (omega arith) w.1 (e ∙ ap spin (omega arith)))

pub Waits→Served : (pc : ℕ → Pc) (t : ℕ) (q : List ℕ) → Waits pc t q → Served pc t q
Waits→Served pc t [] w = tt
Waits→Served pc t (i ∷ q) w = (inl w.0, w.1)

-- A thread that waits in line spins, with a ticket of the line.
pub Waits-ticket :
    (pc : ℕ → Pc) (t i : ℕ) (q : List ℕ)
    → t < u32_mod
    → Waits pc t q
    → has i q ≡ true
    → (k : ℕ) × (k < length q) × (pc i ≡ spin ((t + k) % u32_mod))
Waits-ticket pc t i [] small w h = cc
Waits-ticket pc t i (j ∷ q) small w h = elim (Bool-cases (i == j)) [
  | inl same ↦ (0, omega arith, ap pc ((==_iff i j).0 same) ∙ w.0 ∙ ap spin (omega arith))
  | inr other ↦
      let (k, lt, e) = Waits-ticket pc ((t + 1) % u32_mod) i q (omega arith) w.1 (ground arith) in
      (suc k, omega arith, e ∙ ap spin (omega arith))
]

-- Only the first thread of a line that is shorter than the range of tickets can enter.
pub Served-first :
    (pc : ℕ → Pc) (t i : ℕ) (q : List ℕ)
    → t < u32_mod
    → length q < u32_mod
    → Served pc t q
    → has i q ≡ true
    → (pc i ≡ spin t) ⊎ (pc i ≡ inside)
    → (r : List ℕ) × (q ≡ i ∷ r)
Served-first pc t i [] small short w h p = cc
Served-first pc t i (j ∷ q) small short w h p = elim (Bool-cases (i == j)) [
  | inl same ↦ (q, ap (λ k. k ∷ q) (sym ((==_iff i j).0 same)))
  | inr other ↦
      let (k, lt, e) = Waits-ticket pc ((t + 1) % u32_mod) i q (omega arith) w.1 (ground arith) in
      absurd (ground arith)
]
