-- ===== src/Sleeplock/Tests.antt =====
-- A sleep lock, held by process 1 while process 2 sleeps.
use ducko_unix.Prelude.{◌≡◌, refl, true, false, inr}
use ducko_unix.Sleeplock.{entering, asleep, inside, initsleeplock, acquiresleep, holdingsleep}
use ducko_unix.Sleeplock.Order.{
  World, moved, fresh, Reach, here, after, enter, sleep, take, IsKept, Reach-IsKept,
}
use ducko_unix.Sleeplock.Progress.{waiting-inside}

abbrev enters : World
enters = moved 1 entering initsleeplock fresh

abbrev has : World
has = moved 1 inside (record { locked = true; pid = 1 }) enters

abbrev comes : World
comes = moved 2 entering has.lock has

abbrev waits : World
waits = moved 2 asleep has.lock comes

has_reached : Reach fresh has
unfolding acquiresleep
has_reached =
    after fresh enters has (after fresh fresh enters (here fresh) (enter fresh 1 refl))
      (take enters 1 has.lock refl refl)

waits_reached : Reach fresh waits
unfolding acquiresleep
waits_reached =
    after fresh comes waits (after fresh has comes has_reached (enter has 2 refl))
      (sleep comes 2 refl refl)

held_by_one : holdingsleep 2 waits.lock ≡ false
unfolding holdingsleep
held_by_one = refl

Reach-IsKept_example : IsKept waits
Reach-IsKept_example = Reach-IsKept waits waits_reached

waiting-inside_example : (v : World) × Reach waits v × (v.phase 2 ≡ inside)
waiting-inside_example = waiting-inside waits 2 waits_reached (inr refl)
