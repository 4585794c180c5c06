-- ===== src/Spinlock.antt =====
-- spinlock.c: a lock between CPUs, and the nesting of disabled interrupts. A CPU is its number; the
-- machine is what each CPU has, and one lock. Memory order is that of the program, as the barriers
-- demand. The call stack that `acquire` records is left out.
pub mod Nesting
pub mod Sections
pub mod Steps
pub mod Moves
pub mod Exclusion
mod Tests
use ducko_unix.Prelude.{
  ℕ, ◌+◌, ◌-◌, ◌==◌, Bool, true, false, ◌&&◌, not, Option, none, some, if◌then◌else◌, update,
  Outcome, done, panic, ◌>>=◌,
}

-- The interrupt flag, and `ncli` and `intena` of `struct cpu`.
pub record Cpu : Type 0 where
  pub flag : Bool
  pub ncli : ℕ
  pub intena : Bool

-- `struct spinlock`; a null `cpu` is `none`.
pub record Lock : Type 0 where
  pub locked : Bool
  pub cpu : Option ℕ

pub record Machine : Type 0 where
  pub lock : Lock
  pub cpus : ℕ → Cpu

unfoldable pub pushcli : Cpu → Cpu
pushcli c = record {
  flag = false;
  ncli = c.ncli + 1;
  intena = if c.ncli == 0 then c.flag else c.intena;
}

unfoldable pub popcli : Cpu → Outcome Cpu
popcli c =
    if c.flag
    then panic
    else if c.ncli == 0
    then panic
    else done
        (record c { ncli = c.ncli - 1; flag = if c.ncli - 1 == 0 && c.intena then true else false })

abbrev pub is_owner : ℕ → Lock → Bool
is_owner me lk = lk.locked && (elim lk.cpu [ none ↦ false | some c ↦ c == me ])

-- The answer of `holding`, and the CPU after it.
unfoldable pub holding : ℕ → Lock → Cpu → Outcome (Bool × Cpu)
unfolding pushcli popcli
holding me lk c = popcli (pushcli c) >>= λ c. done (is_owner me lk, c)

-- `acquire` up to its loop.
unfoldable pub acquire_start : ℕ → Lock → Cpu → Outcome Cpu
unfolding pushcli holding
acquire_start me lk c = holding me lk (pushcli c) >>= λ r. if r.0 then panic else done r.1

-- One `xchg` of the loop: `none` where it finds the lock taken.
unfoldable pub xchg_turn : Lock → Option Lock
xchg_turn lk = if lk.locked then none else some (record lk { locked = true })

-- `lk->cpu = mycpu();`
unfoldable pub record_cpu : ℕ → Lock → Lock
record_cpu me lk = record lk { cpu = some me }

-- `release` in its steps: its test, `lk->cpu = 0;`, and the store of 0 to `lk->locked`; `popcli` is
-- the last.
unfoldable pub release_start : ℕ → Lock → Cpu → Outcome Cpu
unfolding holding
release_start me lk c = holding me lk c >>= λ r. if not r.0 then panic else done r.1

unfoldable pub clear_cpu : Lock → Lock
clear_cpu lk = record lk { cpu = none }

unfoldable pub unlock : Lock → Lock
unlock lk = record lk { locked = false }
