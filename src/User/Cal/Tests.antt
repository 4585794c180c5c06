-- ===== src/User/Cal/Tests.antt =====
-- Runs of cal.c.
use ducko_unix.Prelude.{ℕ, ◌<◌, ◌↔◌, ◌≡◌, refl, arith, ◌+◌, ◌%◌}
use ducko_unix.Prelude.Int.{pos, negsuc}
use ducko_unix.User.Cal.{days_in, dayofweek}
use ducko_unix.User.Cal.Weekday.{weekday, saturday, dayofweek-tomorrow}

new_year_2026 : dayofweek 1 1 2026 ≡ pos 4
unfolding dayofweek
new_year_2026 = refl

-- The sum is 2484999999, which is -1809967297 as an `int`.
overflow : dayofweek 1 1 2000000000 ≡ negsuc 4
unfolding dayofweek
overflow = refl

-- From the leap day of 2024 to the first of March.
dayofweek-tomorrow_example :
    (w : ℕ) × (w < 7) × (dayofweek 29 2 2024 ≡ pos w) × (dayofweek 1 3 2024 ≡ pos ((w + 1) % 7))
unfolding days_in
dayofweek-tomorrow_example =
    dayofweek-tomorrow 29 2 2024 (omega arith) (omega arith) (omega arith) (omega arith)
      (omega arith) (omega arith)

january_3 : ((3 + weekday 1 1 2026) % 7 ≡ 0) ↔ (weekday 3 1 2026 ≡ 6)
january_3 = saturday 3 1 2026
