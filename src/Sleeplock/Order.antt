-- ===== src/Sleeplock/Order.antt =====
-- A sleep lock (sleeplock.c) under any order of the processes that use it. A process is its pid.
use ducko_unix.Prelude.{
  ℕ, ◌==◌, ◌≡◌, ◌≢◌, ◌↔◌, refl, sym, subst, ◌∙◌, true, false, none, some, arith, Bool-cases, inl,
  inr, update, ap,
}
use ducko_unix.Sleeplock.{
  Sleeplock, Phase, outside, entering, asleep, inside, wakeup, initsleeplock, acquiresleep,
  releasesleep, holdingsleep,
}

pub record World : Type 0 where
  pub lock : Sleeplock
  pub phase : ℕ → Phase

abbrev pub moved : ℕ → Phase → Sleeplock → World → World
moved me p lk w = record { lock = lk; phase = update w.phase me p }

-- What `releasesleep` by `me` leaves.
abbrev pub released : ℕ → World → World
released me w =
    let r = releasesleep w.lock w.phase in record { lock = r.0; phase = update r.1 me outside }

pub data Step : World → World → Type 0 where
  enter : (w : World) (me : ℕ) → w.phase me ≡ outside → Step w (moved me entering w.lock w)
  sleep :
      (w : World) (me : ℕ)
      → w.phase me ≡ entering
      → acquiresleep me w.lock ≡ none
      → Step w (moved me asleep w.lock w)
  take :
      (w : World) (me : ℕ) (lk : Sleeplock)
      → w.phase me ≡ entering
      → acquiresleep me w.lock ≡ some lk
      → Step w (moved me inside lk w)
  leave : (w : World) (me : ℕ) → w.phase me ≡ inside → Step w (released me w)

pub data Reach : World → World → Type 0 where
  here : (w : World) → Reach w w
  after : (u v w : World) → Reach u v → Step v w → Reach u w

abbrev pub fresh : World
fresh = record { lock = initsleeplock; phase = λ p. outside }

-- What holds of the process `p` in each phase.
abbrev Fits : Phase → Sleeplock → ℕ → Type 0
Fits outside lk p = holdingsleep p lk ≡ false
Fits entering lk p = holdingsleep p lk ≡ false
Fits asleep lk p = (holdingsleep p lk ≡ false) × (lk.locked ≡ true)
Fits inside lk p = holdingsleep p lk ≡ true

-- Every process fits the lock, and the lock has a holder when it is locked.
pub record Inv (w : World) : Type 0 where
  pub fits : (p : ℕ) → Fits (w.phase p) w.lock p
  pub holder : w.lock.locked ≡ true → w.phase w.lock.pid ≡ inside

holding_iff : (p : ℕ) (lk : Sleeplock) → holdingsleep p lk ≡ true → lk.locked ≡ true × (lk.pid ≡ p)
unfolding holdingsleep
holding_iff p lk e = (ground (arith, e), ground (arith, e))

pub was : (w : World) (me : ℕ) (p : Phase) → Inv w → w.phase me ≡ p → Fits p w.lock me
was w me p inv e = subst (λ p. Fits p w.lock me) e (inv.fits me)

-- Where one process alone moves, and its lock keeps the others.
moved-Fits :
    (w : World) (me : ℕ) (q : Phase) (lk : Sleeplock)
    → Fits q lk me
    → ((p : ℕ) → me ≢ p → Fits (w.phase p) lk p)
    → (p : ℕ) → Fits (update w.phase me q p) lk p
moved-Fits w me q lk mine others p = elim (Bool-cases (me == p)) [
  | inl same ↦ let at : me ≡ p = ground (arith, same) in rw same (subst (λ k. Fits q lk k) at mine)
  | inr apart ↦ rw apart (others p (ground (arith, apart)))
]

-- The holder stays where it is when another process moves.
moved-holder :
    (w : World) (me : ℕ) (q : Phase)
    → Inv w
    → w.phase me ≢ inside
    → w.lock.locked ≡ true
    → update w.phase me q w.lock.pid ≡ inside
moved-holder w me q inv out locked = elim (Bool-cases (me == w.lock.pid)) [
  | inl same ↦
      let at : me ≡ w.lock.pid = ground (arith, same) in
      absurd (out (ap w.phase at ∙ inv.holder locked))
  | inr apart ↦ rw apart (inv.holder locked)
]

take-Fits :
    (q : Phase) (me p : ℕ) (lk : Sleeplock)
    → me ≢ p
    → lk.locked ≡ false
    → Fits q lk p
    → Fits q (record { locked = true; pid = me }) p
unfolding holdingsleep
take-Fits outside me p lk ne free fit = ground (arith, ne)
take-Fits entering me p lk ne free fit = ground (arith, ne)
take-Fits asleep me p lk ne free fit = (ground (arith, ne), refl)
take-Fits inside me p lk ne free fit = ground (arith, free, fit)

leave-Fits :
    (q : Phase) (me p : ℕ) (lk : Sleeplock)
    → me ≢ p
    → holdingsleep me lk ≡ true
    → Fits q lk p
    → Fits (wakeup q) (record { locked = false; pid = 0 }) p
unfolding holdingsleep
leave-Fits outside me p lk ne held fit = refl
leave-Fits entering me p lk ne held fit = refl
leave-Fits asleep me p lk ne held fit = refl
leave-Fits inside me p lk ne held fit = ground (arith, held, fit)

moved-Inv :
    (w : World) (me : ℕ) (q : Phase)
    → Inv w
    → w.phase me ≢ inside
    → Fits q w.lock me
    → Inv (moved me q w.lock w)
moved-Inv w me q inv out mine = record {
  fits = moved-Fits w me q w.lock mine (λ p ne. inv.fits p);
  holder = λ locked. moved-holder w me q inv out locked;
}

taken-Inv :
    (w : World) (me : ℕ)
    → Inv w
    → w.lock.locked ≡ false
    → Inv (moved me inside (record { locked = true; pid = me }) w)
unfolding holdingsleep
taken-Inv w me inv free = record {
  fits =
      let lk : Sleeplock = record { locked = true; pid = me } in
      moved-Fits w me inside lk (ground arith)
        (λ p ne. take-Fits (w.phase p) me p w.lock ne free (inv.fits p));
  holder = λ locked. let same : (me == me) ≡ true = ground arith in rw same refl;
}

released-Inv : (w : World) (me : ℕ) → Inv w → w.phase me ≡ inside → Inv (released me w)
unfolding releasesleep holdingsleep
released-Inv w me inv inn = record {
  fits =
      moved-Fits (record { lock = w.lock; phase = λ p. wakeup (w.phase p) }) me outside
        initsleeplock refl
        (λ p ne. leave-Fits (w.phase p) me p w.lock ne (was w me inside inv inn) (inv.fits p));
  holder = λ locked. ground (arith, locked);
}

Step-Inv : (v w : World) → Step v w → Inv v → Inv w
unfolding acquiresleep
Step-Inv _ _ (enter w me out) inv =
    moved-Inv w me entering inv (λ inn. ground (arith, out, inn)) (was w me outside inv out)
Step-Inv _ _ (sleep w me at e) inv =
    let locked : w.lock.locked ≡ true = ground (arith, e) in
    moved-Inv w me asleep inv (λ inn. ground (arith, at, inn)) (was w me entering inv at, locked)
Step-Inv _ _ (take w me lk at e) inv =
    let free : w.lock.locked ≡ false = ground (arith, e) in
    let owned : record { locked = true; pid = me } ≡ lk = ground (arith, e, free) in
    subst (λ lk. Inv (moved me inside lk w)) owned (taken-Inv w me inv free)
Step-Inv _ _ (leave w me inn) inv = released-Inv w me inv inn

pub fresh-Inv : Inv fresh
unfolding holdingsleep
fresh-Inv = record { fits = λ p. refl; holder = λ locked. ground (arith, locked) }

pub Reach_Inv : (v w : World) → Reach v w → Inv v → Inv w
Reach_Inv _ _ (here w) inv = inv
Reach_Inv _ _ (after u v w r s) inv = Step-Inv v w s (Reach_Inv u v r inv)

-- What the lock is for.
pub record IsKept (w : World) : Type 0 where
  pub one : (p q : ℕ) → w.phase p ≡ inside → w.phase q ≡ inside → p ≡ q
  pub held : (p : ℕ) → (holdingsleep p w.lock ≡ true) ↔ (w.phase p ≡ inside)
  pub awaited : (p : ℕ) → w.phase p ≡ asleep → w.phase w.lock.pid ≡ inside

-- However the processes interleave: at most one is between `acquiresleep` and `releasesleep`,
-- `holdingsleep` says just of that one that it holds the lock, and a process sleeps on the lock
-- only while another one is inside, so no wakeup is lost.
pub Reach-IsKept : (w : World) → Reach fresh w → IsKept w
unfolding holdingsleep
Reach-IsKept w r =
    let inv = Reach_Inv fresh w r fresh-Inv in
    record {
      one = λ p q in_p in_q.
          let a = (holding_iff p w.lock (was w p inside inv in_p)).1 in
          let b = (holding_iff q w.lock (was w q inside inv in_q)).1 in sym a ∙ b;
      held = λ p. (
        λ h. let (locked, at) = holding_iff p w.lock h in ap w.phase (sym at) ∙ inv.holder locked,
        λ inn. was w p inside inv inn,
      );
      awaited = λ p sleeps. inv.holder (was w p asleep inv sleeps).1;
    }
