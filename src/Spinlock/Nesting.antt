-- ===== src/Spinlock/Nesting.antt =====
-- `pushcli` and `popcli` (spinlock.c) nest: each `popcli` undoes one `pushcli`.
use ducko_unix.Prelude.{
  ℕ, zero, suc, ◌+◌, ◌-◌, ◌<◌, ◌==◌, ◌≡◌, refl, ap, ◌∙◌, Bool, true, false, ◌&&◌, if◌then◌else◌,
  Outcome, done, ◌>>=◌, arith, inr, ◌⊎◌,
}
use ducko_unix.Spinlock.{Cpu, pushcli, popcli}

-- Interrupts are off while any `pushcli` is open.
abbrev pub IsNested : Cpu → Type 0
IsNested c = (c.ncli ≡ 0) ⊎ (c.flag ≡ false)

-- The flag that the CPU has once every `pushcli` is undone.
abbrev pub outer_flag : Cpu → Bool
outer_flag c = if c.ncli == 0 then c.flag else c.intena

-- The same depth, flag and outer flag; `intena` matters only inside.
pub record Alike (c d : Cpu) : Type 0 where
  pub ncli : d.ncli ≡ c.ncli
  pub flag : d.flag ≡ c.flag
  pub outer : outer_flag d ≡ outer_flag c

abbrev pub pushes : ℕ → Cpu → Cpu
pushes zero c = c
pushes (suc n) c = pushes n (pushcli c)

abbrev pub pops : ℕ → Cpu → Outcome Cpu
pops zero c = done c
pops (suc n) c = pops n c >>= λ d. popcli d

pub push_IsNested : (c : Cpu) → IsNested (pushcli c)
unfolding pushcli
push_IsNested c = inr refl

-- What a `popcli` does at an open `pushcli`.
pub popcli_lem :
    (c : Cpu)
    → c.flag ≡ false
    → 0 < c.ncli
    → popcli c
      ≡ done (record c {
        ncli = c.ncli - 1;
        flag = if c.ncli - 1 == 0 && c.intena then true else false;
      })
unfolding popcli
popcli_lem c f h =
    let open_push : (c.ncli == 0) ≡ false = ground arith in rw (f, open_push, popcli) refl

-- `popcli` undoes one `pushcli`, also after other pairs inside it.
pub undo :
    (c d : Cpu) → IsNested c → Alike (pushcli c) d → (e : Cpu) × (popcli d ≡ done e) × Alike c e
unfolding pushcli
undo c d nested a =
    let deep : d.ncli ≡ c.ncli + 1 = a.ncli in
    let open_push : (d.ncli == 0) ≡ false = ground arith in
    let saved : d.intena ≡ outer_flag c = ground (arith, a.outer, deep) in
    let e : Cpu = record d {
      ncli = d.ncli - 1;
      flag = if d.ncli - 1 == 0 && d.intena then true else false;
    } in
    let back : e.flag ≡ c.flag = ground (arith, saved, deep, nested) in
    let depth : e.ncli ≡ c.ncli = omega (arith, deep) in
    (
      e,
      popcli_lem d a.flag (omega (arith, deep)),
      record { ncli = depth; flag = back; outer = ground (arith, saved, deep, back) },
    )

-- However deep `pushcli` and `popcli` are nested, as many of one as of the other leave interrupts
-- as they were, and never panic.
pub pops-pushes :
    (n : ℕ) (c : Cpu) → IsNested c → (d : Cpu) × (pops n (pushes n c) ≡ done d) × Alike c d
pops-pushes zero c nested = (c, refl, record { ncli = refl; flag = refl; outer = refl })
pops-pushes (suc n) c nested =
    let (d, e, a) = pops-pushes n (pushcli c) (push_IsNested c) in
    let (f, e', a') = undo c d nested a in (f, ap (λ m. m >>= λ d. popcli d) e ∙ e', a')
