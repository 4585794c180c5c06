-- ===== src/Spinlock/Sections.antt =====
-- `holding`, `acquire` up to its loop, and the test and the `popcli` of `release` (spinlock.c), by
-- one CPU.
use ducko_unix.Prelude.{
  ℕ, ◌-◌, ◌<◌, ◌==◌, ◌≡◌, refl, ap, ◌∙◌, true, false, ◌&&◌, not, none, if◌then◌else◌, done, panic,
  ◌>>=◌, arith, Bool-cases, inl, inr,
}
use ducko_unix.Spinlock.{
  Cpu, Lock, pushcli, popcli, is_owner, holding, acquire_start, release_start,
}
use ducko_unix.Spinlock.Nesting.{IsNested, Alike, undo, popcli_lem, push_IsNested}

holding_lem :
    (me : ℕ) (lk : Lock) (c : Cpu)
    → IsNested c
    → (d : Cpu) × (holding me lk c ≡ done (is_owner me lk, d)) × Alike c d
unfolding holding
holding_lem me lk c nested =
    let (d, e, a) = undo c (pushcli c) nested (record { ncli = refl; flag = refl; outer = refl }) in
    (d, ap (λ m. m >>= λ c. done (is_owner me lk, c)) e, a)

pub acquire_start_lem :
    (me : ℕ) (lk : Lock) (c : Cpu)
    → IsNested c
    → is_owner me lk ≡ false
    → (d : Cpu) × (acquire_start me lk c ≡ done d) × (d.flag ≡ false) × (0 < d.ncli)
unfolding acquire_start pushcli
acquire_start_lem me lk c nested free =
    let (d, e, a) = holding_lem me lk (pushcli c) (push_IsNested c) in
    (
      d,
      ap (λ m. m >>= λ r. if r.0 then panic else done r.1) e ∙ rw free refl,
      a.flag,
      (let n = a.ncli in omega arith),
    )

abbrev pub unlocked : Lock
unlocked = record { locked = false; cpu = none }

pub release_start_lem :
    (me : ℕ) (lk : Lock) (c : Cpu)
    → c.flag ≡ false
    → 0 < c.ncli
    → is_owner me lk ≡ true
    → (d : Cpu) × (release_start me lk c ≡ done d) × (d.flag ≡ false) × (0 < d.ncli)
unfolding release_start
release_start_lem me lk c off deep mine =
    let (d, e, a) = holding_lem me lk c (inr off) in
    (
      d,
      ap (λ m. m >>= λ r. if not r.0 then panic else done r.1) e ∙ rw mine refl,
      a.flag ∙ off,
      omega (arith, a.ncli, deep),
    )

pub popcli-IsNested :
    (c : Cpu) → c.flag ≡ false → 0 < c.ncli → (d : Cpu) × (popcli c ≡ done d) × IsNested d
popcli-IsNested c off deep = (
  record c { ncli = c.ncli - 1; flag = if c.ncli - 1 == 0 && c.intena then true else false },
  popcli_lem c off deep,
  elim (Bool-cases (c.ncli - 1 == 0)) [
    | inl last ↦ inl (ground (arith, last))
    | inr more ↦ inr (rw more refl)
  ],
)
