-- ===== src/Sleeplock.antt =====
-- sleeplock.c: a lock that a process may hold while it sleeps. Each critical section under the spin
-- lock `lk->lk` is one function; `sleep` gives the spin lock up and goes to sleep in one, and its
-- caller finds itself at the loop again.
pub mod Order
pub mod Progress
mod Tests
use ducko_unix.Prelude.{ℕ, ◌==◌, Bool, true, false, ◌&&◌, Option, none, some, if◌then◌else◌}

-- `struct sleeplock` without its spin lock and name.
pub record Sleeplock : Type 0 where
  pub locked : Bool
  pub pid : ℕ

abbrev pub initsleeplock : Sleeplock
initsleeplock = record { locked = false; pid = 0 }

-- A turn of the loop of `acquiresleep` by `me`: `none` where it sleeps, the lock where it gets it.
unfoldable pub acquiresleep : ℕ → Sleeplock → Option Sleeplock
acquiresleep me lk = if lk.locked then none else some (record { locked = true; pid = me })

-- Where a process is between `acquiresleep` and `releasesleep`; `entering` is before a turn of the
-- loop, runnable.
pub data Phase : Type 0 where
  outside entering asleep inside : Phase

-- `wakeup(lk)`, on one process.
abbrev pub wakeup : Phase → Phase
wakeup asleep = entering
wakeup p = p

-- `releasesleep`: the lock, and what becomes of the other processes.
unfoldable pub releasesleep : Sleeplock → (ℕ → Phase) → Sleeplock × (ℕ → Phase)
unfolding wakeup
releasesleep lk phases = (record lk { locked = false; pid = 0 }, λ p. wakeup (phases p))

unfoldable pub holdingsleep : ℕ → Sleeplock → Bool
holdingsleep me lk = lk.locked && lk.pid == me
