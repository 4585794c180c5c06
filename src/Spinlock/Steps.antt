-- ===== src/Spinlock/Steps.antt =====
-- The steps of the CPUs at a spin lock (spinlock.c), each store to the lock one of its own, and
-- what holds between them.
use ducko_unix.Prelude.{
  ℕ, ◌<◌, ◌==◌, ◌≡◌, ◌≢◌, refl, sym, ap, subst, ◌∙◌, Bool, true, false, none, some, done, arith,
  Bool-cases, inl, inr, update,
}
use ducko_unix.Spinlock.{
  Cpu, Lock, Machine, acquire_start, xchg_turn, record_cpu, release_start, clear_cpu, unlock,
  popcli,
}
use ducko_unix.Spinlock.Nesting.{IsNested}

-- Where a CPU is between `acquire` and `release`: behind its `xchg`, inside, behind the test of
-- `release`, behind the store to `lk->cpu`, and behind that to `lk->locked`.
pub data Phase : Type 0 where
  outside spinning taken inside leaving cleared unlocked : Phase

pub record World : Type 0 where
  pub machine : Machine
  pub phase : ℕ → Phase

abbrev pub at : ℕ → Cpu → Lock → Phase → World → World
at me c lk p w = record {
  machine = record { lock = lk; cpus = update w.machine.cpus me c };
  phase = update w.phase me p;
}

-- A CPU outside does what it likes with interrupts and other locks; inside it may take and release
-- other locks, which leaves its interrupts off. `holding` reads `locked` and `cpu` in one step:
-- only a CPU itself makes `lk->cpu` its own, so its answer does not change between the two.
pub data Step : World → World → Type 0 where
  other :
      (w : World) (me : ℕ) (c : Cpu)
      → w.phase me ≡ outside
      → IsNested c
      → Step w (at me c w.machine.lock outside w)
  enter :
      (w : World) (me : ℕ) (c : Cpu)
      → w.phase me ≡ outside
      → acquire_start me w.machine.lock (w.machine.cpus me) ≡ done c
      → Step w (at me c w.machine.lock spinning w)
  take :
      (w : World) (me : ℕ) (lk : Lock)
      → w.phase me ≡ spinning
      → xchg_turn w.machine.lock ≡ some lk
      → Step w (at me (w.machine.cpus me) lk taken w)
  own :
      (w : World) (me : ℕ)
      → w.phase me ≡ taken
      → Step w (at me (w.machine.cpus me) (record_cpu me w.machine.lock) inside w)
  work :
      (w : World) (me : ℕ) (c : Cpu)
      → w.phase me ≡ inside
      → c.flag ≡ false
      → 0 < c.ncli
      → Step w (at me c w.machine.lock inside w)
  leave :
      (w : World) (me : ℕ) (c : Cpu)
      → w.phase me ≡ inside
      → release_start me w.machine.lock (w.machine.cpus me) ≡ done c
      → Step w (at me c w.machine.lock leaving w)
  clear :
      (w : World) (me : ℕ)
      → w.phase me ≡ leaving
      → Step w (at me (w.machine.cpus me) (clear_cpu w.machine.lock) cleared w)
  free :
      (w : World) (me : ℕ)
      → w.phase me ≡ cleared
      → Step w (at me (w.machine.cpus me) (unlock w.machine.lock) unlocked w)
  pop :
      (w : World) (me : ℕ) (c : Cpu)
      → w.phase me ≡ unlocked
      → popcli (w.machine.cpus me) ≡ done c
      → Step w (at me c w.machine.lock outside w)

pub data Reach : World → World → Type 0 where
  here : (w : World) → Reach w w
  after : (u v w : World) → Reach u v → Step v w → Reach u w

-- The CPU has the lock.
abbrev pub holds : Phase → Bool
holds outside = false
holds spinning = false
holds taken = true
holds inside = true
holds leaving = true
holds cleared = true
holds unlocked = false

-- What holds of one CPU in each phase.
abbrev pub Fits : Phase → Lock → ℕ → Cpu → Type 0
Fits outside lk me c = IsNested c × (lk.cpu ≢ some me)
Fits spinning lk me c = (c.flag ≡ false) × (0 < c.ncli) × (lk.cpu ≢ some me)
Fits taken lk me c = (c.flag ≡ false) × (0 < c.ncli) × (lk.locked ≡ true) × (lk.cpu ≡ none)
Fits inside lk me c = (c.flag ≡ false) × (0 < c.ncli) × (lk.locked ≡ true) × (lk.cpu ≡ some me)
Fits leaving lk me c = (c.flag ≡ false) × (0 < c.ncli) × (lk.locked ≡ true) × (lk.cpu ≡ some me)
Fits cleared lk me c = (c.flag ≡ false) × (0 < c.ncli) × (lk.locked ≡ true) × (lk.cpu ≡ none)
Fits unlocked lk me c = (c.flag ≡ false) × (0 < c.ncli) × (lk.cpu ≢ some me)

pub record Inv (w : World) : Type 0 where
  pub fits : (d : ℕ) → Fits (w.phase d) w.machine.lock d (w.machine.cpus d)
  pub one : (c d : ℕ) → holds (w.phase c) ≡ true → holds (w.phase d) ≡ true → c ≡ d
  pub no_cpu : w.machine.lock.locked ≡ false → w.machine.lock.cpu ≡ none

-- A CPU that does not have the lock does not mind a change of the lock that leaves it to others.
pub other_lock :
    (p : Phase) (lk lk' : Lock) (d : ℕ) (c : Cpu)
    → holds p ≡ false
    → lk'.cpu ≢ some d
    → Fits p lk d c
    → Fits p lk' d c
other_lock outside lk lk' d c no_hold ne (nested, mine) = (nested, ne)
other_lock spinning lk lk' d c no_hold ne (off, deep, mine) = (off, deep, ne)
other_lock unlocked lk lk' d c no_hold ne (off, deep, mine) = (off, deep, ne)
other_lock taken lk lk' d c no_hold ne fit = absurd (cc)
other_lock inside lk lk' d c no_hold ne fit = absurd (cc)
other_lock leaving lk lk' d c no_hold ne fit = absurd (cc)
other_lock cleared lk lk' d c no_hold ne fit = absurd (cc)

pub locked_by :
    (p : Phase) (lk : Lock) (d : ℕ) (c : Cpu) → holds p ≡ true → Fits p lk d c → lk.locked ≡ true
locked_by outside lk d c h fit = absurd (cc)
locked_by spinning lk d c h fit = absurd (cc)
locked_by unlocked lk d c h fit = absurd (cc)
locked_by taken lk d c h (off, deep, locked, owner) = locked
locked_by inside lk d c h (off, deep, locked, owner) = locked
locked_by leaving lk d c h (off, deep, locked, owner) = locked
locked_by cleared lk d c h (off, deep, locked, owner) = locked

pub at-Fits :
    (w : World) (me : ℕ) (c : Cpu) (lk : Lock) (p : Phase)
    → Fits p lk me c
    → ((d : ℕ) → me ≢ d → Fits (w.phase d) lk d (w.machine.cpus d))
    → (d : ℕ) → Fits (update w.phase me p d) lk d (update w.machine.cpus me c d)
at-Fits w me c lk p mine others d = elim (Bool-cases (me == d)) [
  | inl same ↦
      let here : me ≡ d = ground (arith, same) in rw same (subst (λ k. Fits p lk k c) here mine)
  | inr apart ↦ rw apart (others d (ground (arith, apart)))
]

-- `me` alone may come to have the lock.
pub at-one :
    (w : World) (me : ℕ) (p : Phase)
    → ((c d : ℕ) → holds (w.phase c) ≡ true → holds (w.phase d) ≡ true → c ≡ d)
    → (holds p ≡ true → (d : ℕ) → holds (w.phase d) ≡ true → me ≡ d)
    → (c d : ℕ) → holds (update w.phase me p c) ≡ true
    → holds (update w.phase me p d) ≡ true
    → c ≡ d
at-one w me p one mine c d hc hd = elim (Bool-cases (me == c)) [
  | inl c_me ↦
      let mc : me ≡ c = ground (arith, c_me) in
      elim (Bool-cases (me == d)) [
        | inl d_me ↦ let md : me ≡ d = ground (arith, d_me) in sym mc ∙ md
        | inr d_other ↦ sym mc ∙ mine (kept_at c c_me hc) d (kept_off d d_other hd)
      ]
  | inr c_other ↦ elim (Bool-cases (me == d)) [
    | inl d_me ↦
        let md : me ≡ d = ground (arith, d_me) in
        sym (mine (kept_at d d_me hd) c (kept_off c c_other hc)) ∙ md
    | inr d_other ↦ one c d (kept_off c c_other hc) (kept_off d d_other hd)
  ]
]
  where
    kept_at : (i : ℕ) → (me == i) ≡ true → holds (update w.phase me p i) ≡ true → holds p ≡ true
    kept_at i same h = let e : update w.phase me p i ≡ p = rw same refl in sym (ap holds e) ∙ h

    kept_off :
        (i : ℕ)
        → (me == i) ≡ false
        → holds (update w.phase me p i) ≡ true
        → holds (w.phase i) ≡ true
    kept_off i apart h =
        let e : update w.phase me p i ≡ w.phase i = rw apart refl in sym (ap holds e) ∙ h
