-- ===== src/Spinlock/Tests.antt =====
-- Two CPUs at one spin lock: the first is inside, the second spins.
use ducko_unix.Prelude.{◌≡◌, refl, true, false, inl, done, some}
use ducko_unix.Spinlock.{Cpu, acquire_start, xchg_turn, record_cpu}
use ducko_unix.Spinlock.Sections.{unlocked}
use ducko_unix.Spinlock.Steps.{
  World, outside, spinning, taken, inside, at, Reach, here, after, enter, take, own,
}
use ducko_unix.Spinlock.Exclusion.{IsExclusive, Reach-IsExclusive}

abbrev enabled : Cpu
enabled = record { flag = true; ncli = 0; intena = false }

abbrev entered : Cpu
entered = record { flag = false; ncli = 1; intena = true }

abbrev idle : World
idle = record { machine = record { lock = unlocked; cpus = λ c. enabled }; phase = λ c. outside }

starts : acquire_start 0 unlocked enabled ≡ done entered
unfolding acquire_start
starts = refl

abbrev spins : World
spins = at 0 entered unlocked spinning idle

abbrev takes : World
takes = at 0 entered (record unlocked { locked = true }) taken spins

abbrev owns : World
owns = at 0 entered (record { locked = true; cpu = some 0 }) inside takes

-- The second CPU at the lock that the first has.
abbrev waits : World
waits = at 1 entered owns.machine.lock spinning owns

owns_reached : Reach idle owns
unfolding xchg_turn record_cpu
owns_reached =
    after idle takes owns
      (after idle spins takes (after idle idle spins (here idle) (enter idle 0 entered refl starts))
        (take spins 0 takes.machine.lock refl refl))
      (own takes 0 refl)

waits_reached : Reach idle waits
unfolding acquire_start
waits_reached = after idle owns waits owns_reached (enter owns 1 entered refl refl)

Reach-IsExclusive_example : IsExclusive waits
Reach-IsExclusive_example =
    Reach-IsExclusive idle waits (λ c. refl) (λ c. inl refl) refl refl waits_reached
