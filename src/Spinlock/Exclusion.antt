-- ===== src/Spinlock/Exclusion.antt =====
-- A spin lock (spinlock.c) excludes: whatever the CPUs' order, one at a time has it, with its
-- interrupts off inside, and neither `acquire` nor `release` panics.
use ducko_unix.Prelude.{ℕ, ◌≡◌, ◌≢◌, sym, ap, subst, ◌∙◌, true, false, none, some, done, arith}
use ducko_unix.Spinlock.{Cpu, Lock, is_owner, acquire_start, xchg_turn, release_start, popcli}
use ducko_unix.Spinlock.Sections.{acquire_start_lem, release_start_lem, popcli-IsNested}
use ducko_unix.Spinlock.Nesting.{IsNested}
use ducko_unix.Spinlock.Steps.{
  outside, spinning, taken, inside, leaving, unlocked, World, at, Step, other, enter, take, own,
  work, leave, clear, free, pop, Reach, here, after, holds, Fits, Inv,
}
use ducko_unix.Spinlock.Moves.{move-Inv, was, take-Inv, own-Inv, clear-Inv, free-Inv}

not_owner : (me : ℕ) (lk : Lock) → lk.cpu ≢ some me → is_owner me lk ≡ false
not_owner me lk ne = ground (arith, ne)

owns : (me : ℕ) (lk : Lock) → lk.locked ≡ true → lk.cpu ≡ some me → is_owner me lk ≡ true
owns me lk locked owner = ground (arith, locked, owner)

same_cpu : {c d : Cpu} → done c ≡ done d → c ≡ d
same_cpu e = cc

Step-Inv : (v w : World) → Step v w → Inv v → Inv w
unfolding xchg_turn
Step-Inv _ _ (other w me c out nested) inv =
    move-Inv w me c outside outside inv out (nested, (was w me outside inv out).1) (λ h. h)
Step-Inv _ _ (enter w me c out e) inv =
    let (nested, mine) = was w me outside inv out in
    let (d, e', off, deep) =
      acquire_start_lem me w.machine.lock (w.machine.cpus me) nested
        (not_owner me w.machine.lock mine) in
    let same : d ≡ c = same_cpu (sym e' ∙ e) in
    move-Inv w me c spinning outside inv out
      (subst (λ (c : Cpu). Fits spinning w.machine.lock me c) same (off, deep, mine)) (λ h. h)
Step-Inv _ _ (take w me lk spin e) inv =
    let free_now : w.machine.lock.locked ≡ false = ground (arith, e) in
    let got : record w.machine.lock { locked = true } ≡ lk = ground (arith, e, free_now) in
    subst (λ lk. Inv (at me (w.machine.cpus me) lk taken w)) got (take-Inv w me inv spin free_now)
Step-Inv _ _ (own w me e) inv = own-Inv w me inv e
Step-Inv _ _ (work w me c inn off deep) inv =
    let (_, _, locked, owner) = was w me inside inv inn in
    move-Inv w me c inside inside inv inn (off, deep, locked, owner) (λ h. h)
Step-Inv _ _ (leave w me c inn e) inv =
    let (off, deep, locked, owner) = was w me inside inv inn in
    let (d, e', off', deep') =
      release_start_lem me w.machine.lock (w.machine.cpus me) off deep
        (owns me w.machine.lock locked owner) in
    let same : d ≡ c = same_cpu (sym e' ∙ e) in
    move-Inv w me c leaving inside inv inn
      (subst (λ (c : Cpu). Fits leaving w.machine.lock me c) same (off', deep', locked, owner))
      (λ h. h)
Step-Inv _ _ (clear w me e) inv = clear-Inv w me inv e
Step-Inv _ _ (free w me e) inv = free-Inv w me inv e
Step-Inv _ _ (pop w me c e popped) inv =
    let (off, deep, mine) = was w me unlocked inv e in
    let (d, e', nested) = popcli-IsNested (w.machine.cpus me) off deep in
    let same : d ≡ c = same_cpu (sym e' ∙ popped) in
    move-Inv w me c outside unlocked inv e
      (subst (λ (c : Cpu). Fits outside w.machine.lock me c) same (nested, mine)) (λ h. h)

-- What the lock is for.
pub record IsExclusive (w : World) : Type 0 where
  pub one : (c d : ℕ) → holds (w.phase c) ≡ true → holds (w.phase d) ≡ true → c ≡ d
  pub off : (c : ℕ) → w.phase c ≡ inside → (w.machine.cpus c).flag ≡ false
  pub enters :
      (c : ℕ)
      → w.phase c ≡ outside
      → (d : Cpu) × (acquire_start c w.machine.lock (w.machine.cpus c) ≡ done d)
  pub leaves :
      (c : ℕ)
      → w.phase c ≡ inside
      → (d : Cpu) × (release_start c w.machine.lock (w.machine.cpus c) ≡ done d)
  pub pops : (c : ℕ) → w.phase c ≡ unlocked → (d : Cpu) × (popcli (w.machine.cpus c) ≡ done d)

Inv-IsExclusive : (w : World) → Inv w → IsExclusive w
Inv-IsExclusive w inv = record {
  one = inv.one;
  off = λ c inn. (was w c inside inv inn).0;
  enters = λ c out.
      let (nested, mine) = was w c outside inv out in
      let (d, e, off, deep) =
        acquire_start_lem c w.machine.lock (w.machine.cpus c) nested
          (not_owner c w.machine.lock mine) in
      (d, e);
  leaves = λ c inn.
      let (off, deep, locked, owner) = was w c inside inv inn in
      let (d, e, off', deep') =
        release_start_lem c w.machine.lock (w.machine.cpus c) off deep
          (owns c w.machine.lock locked owner) in
      (d, e);
  pops = λ c gone.
      let (off, deep, mine) = was w c unlocked inv gone in
      let (d, e, nested) = popcli-IsNested (w.machine.cpus c) off deep in (d, e);
}

Reach_Inv : (v w : World) → Reach v w → Inv v → Inv w
Reach_Inv _ _ (here w) inv = inv
Reach_Inv _ _ (after u v w r s) inv = Step-Inv v w s (Reach_Inv u v r inv)

start-Inv :
    (v : World)
    → ((c : ℕ) → v.phase c ≡ outside)
    → ((c : ℕ) → IsNested (v.machine.cpus c))
    → v.machine.lock.locked ≡ false
    → v.machine.lock.cpu ≡ none
    → Inv v
start-Inv v out nested free_now no_cpu = record {
  fits = λ c.
      subst (λ p. Fits p v.machine.lock c (v.machine.cpus c)) (sym (out c))
        (nested c, λ e. absurd (let both : none ≡ some c = sym no_cpu ∙ e in cc));
  one = λ c d hc hd. absurd (let both : false ≡ true = sym (ap holds (out c)) ∙ hc in cc);
  no_cpu = λ e. no_cpu;
}

-- From a machine on which every CPU is outside and the lock is free and without a CPU, after any
-- steps of the CPUs in any order, each store to the lock a step of its own: at most one CPU is
-- between the `xchg` of `acquire` that takes the lock and the store of `release` that frees it, its
-- interrupts are off inside, and no `acquire` from outside and no `release` from inside panics.
pub Reach-IsExclusive :
    (v w : World)
    → ((c : ℕ) → v.phase c ≡ outside)
    → ((c : ℕ) → IsNested (v.machine.cpus c))
    → v.machine.lock.locked ≡ false
    → v.machine.lock.cpu ≡ none
    → Reach v w
    → IsExclusive w
Reach-IsExclusive v w out nested free_now no_cpu r =
    Inv-IsExclusive w (Reach_Inv v w r (start-Inv v out nested free_now no_cpu))
