-- ===== src/Spinlock/Moves.antt =====
-- The steps at a spin lock (spinlock.c), one by one, keep its invariant.
use ducko_unix.Prelude.{
  ℕ, ◌==◌, ◌≡◌, ◌≢◌, refl, sym, ap, subst, ◌∙◌, Bool, true, false, none, some, arith, Bool-cases,
  inl, inr,
}
use ducko_unix.Spinlock.{Cpu, Lock, record_cpu, clear_cpu, unlock}
use ducko_unix.Spinlock.Steps.{
  Phase, spinning, taken, inside, leaving, cleared, unlocked, World, at, holds, Fits, Inv,
  other_lock, locked_by, at-Fits, at-one,
}

-- A step that leaves the lock alone and takes it from nobody.
pub move-Inv :
    (w : World) (me : ℕ) (c : Cpu) (p q : Phase)
    → Inv w
    → w.phase me ≡ q
    → Fits p w.machine.lock me c
    → (holds p ≡ true → holds q ≡ true)
    → Inv (at me c w.machine.lock p w)
move-Inv w me c p q inv was fit keeps = record {
  fits = at-Fits w me c w.machine.lock p fit (λ d ne. inv.fits d);
  one = at-one w me p inv.one (λ h d hd. inv.one me d (ap holds was ∙ keeps h) hd);
  no_cpu = inv.no_cpu;
}

-- A step of a CPU that has the lock when the step is done, or had it before.
holder-Inv :
    (w : World) (me : ℕ) (lk : Lock) (p : Phase)
    → Inv w
    → ((d : ℕ) → me ≢ d → holds (w.phase d) ≡ false)
    → Fits p lk me (w.machine.cpus me)
    → ((d : ℕ) → me ≢ d → lk.cpu ≢ some d)
    → (lk.locked ≡ false → lk.cpu ≡ none)
    → Inv (at me (w.machine.cpus me) lk p w)
holder-Inv w me lk p inv alone fit owner no_cpu = record {
  fits = at-Fits w me (w.machine.cpus me) lk p fit (λ d ne.
      other_lock (w.phase d) w.machine.lock lk d (w.machine.cpus d) (alone d ne) (owner d ne)
        (inv.fits d));
  one = at-one w me p inv.one (λ h d hd. elim (Bool-cases (me == d)) [
    | inl same ↦ let here : me ≡ d = ground (arith, same) in here
    | inr apart ↦ let out = alone d (λ e. ground (arith, apart, e)) in absurd (clash hd out)
  ]);
  no_cpu = no_cpu;
}
  where
    clash : {b : Bool} → b ≡ true → b ≡ false → ⊥
    clash h out = cc

pub was :
    (w : World) (me : ℕ) (p : Phase)
    → Inv w
    → w.phase me ≡ p
    → Fits p w.machine.lock me (w.machine.cpus me)
was w me p inv e = subst (λ p. Fits p w.machine.lock me (w.machine.cpus me)) e (inv.fits me)

others_out :
    (w : World) (me : ℕ) (p : Phase)
    → Inv w
    → w.phase me ≡ p
    → holds p ≡ true
    → (d : ℕ) → me ≢ d
    → holds (w.phase d) ≡ false
others_out w me p inv e h d ne = elim (Bool-cases (holds (w.phase d))) [
  | inr out ↦ out
  | inl hd ↦ absurd (ne (inv.one me d (ap holds e ∙ h) hd))
]

nobody : (w : World) → Inv w → w.machine.lock.locked ≡ false → (d : ℕ) → holds (w.phase d) ≡ false
nobody w inv unlocked_now d = elim (Bool-cases (holds (w.phase d))) [
  | inr out ↦ out
  | inl hd ↦
      let locked = locked_by (w.phase d) w.machine.lock d (w.machine.cpus d) hd (inv.fits d) in
      absurd (cc)
]

pub take-Inv :
    (w : World) (me : ℕ)
    → Inv w
    → w.phase me ≡ spinning
    → w.machine.lock.locked ≡ false
    → Inv (at me (w.machine.cpus me) (record w.machine.lock { locked = true }) taken w)
take-Inv w me inv spin free_now =
    let (off, deep, mine) = was w me spinning inv spin in
    let no_cpu = inv.no_cpu free_now in
    holder-Inv w me (record w.machine.lock { locked = true }) taken inv
      (λ d ne. nobody w inv free_now d) (off, deep, refl, no_cpu)
      (λ d ne e. absurd (let both : none ≡ some d = sym no_cpu ∙ e in cc)) (λ e. absurd (cc))

pub own-Inv :
    (w : World) (me : ℕ)
    → Inv w
    → w.phase me ≡ taken
    → Inv (at me (w.machine.cpus me) (record_cpu me w.machine.lock) inside w)
unfolding record_cpu
own-Inv w me inv e =
    let (off, deep, locked, owner) = was w me taken inv e in
    holder-Inv w me (record_cpu me w.machine.lock) inside inv (others_out w me taken inv e refl)
      (off, deep, locked, refl) (λ d ne e. ne (let both : some me ≡ some d = e in cc))
      (λ e. absurd (let both : true ≡ false = sym locked ∙ e in cc))

pub clear-Inv :
    (w : World) (me : ℕ)
    → Inv w
    → w.phase me ≡ leaving
    → Inv (at me (w.machine.cpus me) (clear_cpu w.machine.lock) cleared w)
unfolding clear_cpu
clear-Inv w me inv e =
    let (off, deep, locked, owner) = was w me leaving inv e in
    holder-Inv w me (clear_cpu w.machine.lock) cleared inv (others_out w me leaving inv e refl)
      (off, deep, locked, refl) (λ d ne e. absurd (let both : none ≡ some d = e in cc)) (λ e. refl)

pub free-Inv :
    (w : World) (me : ℕ)
    → Inv w
    → w.phase me ≡ cleared
    → Inv (at me (w.machine.cpus me) (unlock w.machine.lock) unlocked w)
unfolding unlock
free-Inv w me inv e =
    let (off, deep, locked, owner) = was w me cleared inv e in
    let no_owner : (d : ℕ) → w.machine.lock.cpu ≢ some d =
      λ d e. absurd (let both : none ≡ some d = sym owner ∙ e in cc) in
    holder-Inv w me (unlock w.machine.lock) unlocked inv (others_out w me cleared inv e refl)
      (off, deep, no_owner me) (λ d ne. no_owner d) (λ e. owner)
