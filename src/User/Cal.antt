-- ===== src/User/Cal.antt =====
-- cal.c: the calendar of a month.
pub mod Weekday
mod Tests
use ducko_unix.Prelude.{
  ℕ, zero, suc, ◌+◌, ◌-◌, ◌/◌, ◌%◌, ltb, leb, ◌==◌, Bool, true, false, ◌&&◌, List, [], ◌∷◌, ◌++◌,
  get_or, if◌then◌else◌, replicate, set, ◌*◌,
}
use ducko_unix.Prelude.Int.{ℤ, pos, negsuc}

abbrev pub month_shift : List ℕ
month_shift = 0 ∷ 3 ∷ 2 ∷ 5 ∷ 0 ∷ 3 ∷ 5 ∷ 1 ∷ 4 ∷ 6 ∷ 2 ∷ 4 ∷ []

-- The sum in `dayofweek`, before it is cut to an `int`; a year is at least 1.
unfoldable pub day_sum : ℕ → ℕ → ℕ → ℕ
day_sum d m y0 =
    let y = if ltb m 3 then y0 - 1 else y0 in
    y + y / 4 - y / 100 + y / 400 + get_or month_shift (m - 1) 0 + d

abbrev pub negated : ℕ → ℤ
negated zero = pos 0
negated (suc n) = negsuc n

-- 0 is Sunday. A sum from 2 ^ 31 on is a negative `int`, and so is the remainder then.
unfoldable pub dayofweek : ℕ → ℕ → ℕ → ℤ
unfolding day_sum
dayofweek d m y =
    let sum = day_sum d m y % 4294967296 in
    if ltb sum 2147483648 then pos (sum % 7) else negated ((4294967296 - sum) % 7)

unfoldable pub is_leap_year : ℕ → Bool
is_leap_year year =
    if year % 400 == 0
    then true
    else if year % 100 == 0
    then false
    else if year % 4 == 0
    then true
    else false

-- `days_in_month` of `main`, with February as the year has it.
unfoldable pub month_lengths : ℕ → ℕ → List ℕ
unfolding is_leap_year
month_lengths month year =
    let days = 31 ∷ 28 ∷ 31 ∷ 30 ∷ 31 ∷ 30 ∷ 31 ∷ 31 ∷ 30 ∷ 31 ∷ 30 ∷ 31 ∷ [] in
    if month == 2 && is_leap_year year then set days 1 29 else days

abbrev pub days_in : ℕ → ℕ → ℕ
unfolding month_lengths
days_in month year = get_or (month_lengths month year) (month - 1) 0

-- What `main` prints of the grid: three spaces, a day, the end of a line.
pub data Cell : Type 0 where
  space : Cell
  date : ℕ → Cell
  newline : Cell

-- The days from `day` on, with `left` of them to print.
unfoldable pub print_days : ℕ → ℕ → ℕ → List Cell
print_days start_day day zero = []
print_days start_day day (suc left) =
    let rest = print_days start_day (day + 1) left in
    if (day + start_day) % 7 == 0 then date day ∷ newline ∷ rest else date day ∷ rest

-- How many spaces a loop up to `start_day` prints, and what the test of the end of a line adds to
-- the day: a number from -6 on is as good as the one that is greater by 7.
abbrev pub spaces : ℤ → ℕ
spaces (pos n) = n
spaces (negsuc n) = 0

abbrev pub column : ℤ → ℕ
column (pos n) = n
column (negsuc n) = 7 - suc n

unfoldable pub grid : ℕ → ℕ → List Cell
unfolding dayofweek print_days month_lengths
grid month year =
    let start_day = dayofweek 1 month year in
    replicate (spaces start_day) space ++ print_days (column start_day) 1 (days_in month year)
