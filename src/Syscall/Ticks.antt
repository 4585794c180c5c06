-- ===== src/Syscall/Ticks.antt =====
-- `sys_sleep` (sysproc.c) and the 32-bit count of ticks.
use ducko_unix.Prelude.{ℕ, ◌+◌, ◌-◌, ◌%◌, ◌<◌, ltb, ◌≡◌, refl, Bool, arith, if◌then◌else◌}
use ducko_unix.Vm.{word}
use ducko_unix.Syscall.{finished, killed, asleep, sys_sleep}

-- When `k` ticks have come since `sys_sleep` read the count, fewer than 2 ^ 32, it goes on just if
-- `k` is less than `n`, whether or not the count has wrapped round in between.
sys_sleep_lem :
    (is_killed : Bool) (ticks0 k n : ℕ)
    → ticks0 < word
    → k < word
    → sys_sleep is_killed ((ticks0 + k) % word) ticks0 n
      ≡ (if ltb k n then (if is_killed then killed else asleep) else finished)
unfolding sys_sleep
sys_sleep_lem is_killed ticks0 k n lt small =
    let passed : ((ticks0 + k) % word + word - ticks0) % word ≡ k = omega (arith, lt, small) in
    rw passed refl
