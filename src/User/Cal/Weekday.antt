-- ===== src/User/Cal/Weekday.antt =====
-- The days of the week follow one another through the calendar.
use ducko_unix.Prelude.{
  ℕ, zero, suc, ◌-◌, ◌==◌, ◌&&◌, true, List, [], ◌∷◌, All, get_or, ltb→lt, ◌+◌, ◌%◌, ◌<◌, ◌≤◌, ltb,
  ◌≡◌, ap, ◌∙◌, if◌then◌else◌, arith, Bool-cases, inl, inr, ◌↔◌, refl, set,
}
use ducko_unix.Prelude.Int.{pos}
use ducko_unix.User.Cal.{month_shift, day_sum, dayofweek, is_leap_year, month_lengths, days_in}

-- The day of the week without a bound on the sum.
abbrev pub weekday : ℕ → ℕ → ℕ → ℕ
weekday d m y = day_sum d m y % 7

-- The date that follows, in the Gregorian calendar.
abbrev pub tomorrow : ℕ → ℕ → ℕ → ℕ × ℕ × ℕ
tomorrow d m y =
    if ltb d (days_in m y) then (d + 1, m, y) else if ltb m 12 then (1, m + 1, y) else (1, 1, y + 1)

next_day : (d m y : ℕ) → weekday (d + 1) m y ≡ (weekday d m y + 1) % 7
unfolding day_sum
next_day d m y = omega arith

february : (y : ℕ) → 1 ≤ y → weekday 1 3 y ≡ (weekday (days_in 2 y) 2 y + 1) % 7
unfolding day_sum month_lengths is_leap_year
february y y1 = ground arith

month_end :
    (m y : ℕ) → 1 ≤ m → m < 12 → 1 ≤ y → weekday 1 (m + 1) y ≡ (weekday (days_in m y) m y + 1) % 7
unfolding day_sum month_lengths
month_end zero y lo hi y1 = absurd (omega arith)
month_end (suc zero) y lo hi y1 = omega arith
month_end (suc (suc zero)) y lo hi y1 = february y y1
month_end (suc (suc (suc zero))) y lo hi y1 = omega arith
month_end (suc (suc (suc (suc zero)))) y lo hi y1 = omega arith
month_end (suc (suc (suc (suc (suc zero))))) y lo hi y1 = omega arith
month_end (suc (suc (suc (suc (suc (suc zero)))))) y lo hi y1 = omega arith
month_end (suc (suc (suc (suc (suc (suc (suc zero))))))) y lo hi y1 = omega arith
month_end (suc (suc (suc (suc (suc (suc (suc (suc zero)))))))) y lo hi y1 = omega arith
month_end (suc (suc (suc (suc (suc (suc (suc (suc (suc zero))))))))) y lo hi y1 = omega arith
month_end (suc (suc (suc (suc (suc (suc (suc (suc (suc (suc zero)))))))))) y lo hi y1 = omega arith
month_end (suc (suc (suc (suc (suc (suc (suc (suc (suc (suc (suc zero))))))))))) y lo hi y1 =
    omega arith
month_end (suc (suc (suc (suc (suc (suc (suc (suc (suc (suc (suc (suc m)))))))))))) y lo hi y1 =
    absurd (omega arith)

year_end : (y : ℕ) → 1 ≤ y → weekday 1 1 (y + 1) ≡ (weekday 31 12 y + 1) % 7
unfolding day_sum
year_end y y1 = omega arith

weekday-tomorrow :
    (d m y : ℕ)
    → 1 ≤ d
    → d ≤ days_in m y
    → 1 ≤ m
    → m ≤ 12
    → 1 ≤ y
    → (let (d', m', y') = tomorrow d m y in weekday d' m' y') ≡ (weekday d m y + 1) % 7
unfolding days_in
weekday-tomorrow d m y d1 dn m1 mn y1 = elim (Bool-cases (ltb d (days_in m y))) [
  | inl within ↦ rw within (next_day d m y)
  | inr last ↦
      let at : d ≡ days_in m y = ground (arith, last) in
      elim (Bool-cases (ltb m 12)) [
        | inl more ↦ rw last (rw more (rw at (month_end m y m1 (ground (arith, more)) y1)))
        | inr december ↦
            let m12 : m ≡ 12 = ground (arith, december) in
            let d31 : d ≡ 31 = at ∙ ap (λ m. days_in m y) m12 in
            rw last (rw december (rw d31 (rw m12 (year_end y y1))))
      ]
]

get_or-bound : (b i : ℕ) (xs : List ℕ) → All (λ x. x ≤ b) xs → get_or xs i 0 ≤ b
get_or-bound b i [] all = omega arith
get_or-bound b zero (x ∷ xs) (le, all) = le
get_or-bound b (suc i) (x ∷ xs) (le, all) = get_or-bound b i xs all

month_shift-bound : (i : ℕ) → get_or month_shift i 0 ≤ 6
month_shift-bound i = get_or-bound 6 i month_shift (ground arith)

days_in-bound : (m y : ℕ) → days_in m y ≤ 31
unfolding month_lengths
days_in-bound m y =
    let days : List ℕ = 31 ∷ 28 ∷ 31 ∷ 30 ∷ 31 ∷ 30 ∷ 31 ∷ 31 ∷ 30 ∷ 31 ∷ 30 ∷ 31 ∷ [] in
    elim (Bool-cases (m == 2 && is_leap_year y)) [
      | inl leap ↦ rw leap (get_or-bound 31 (m - 1) (set days 1 29) (ground arith))
      | inr plain ↦ rw plain (get_or-bound 31 (m - 1) days (ground arith))
    ]

-- In these years no `int` overflows.
in_bounds : (d m y : ℕ) → d ≤ 31 → y ≤ 1727000000 → dayofweek d m y ≡ pos (weekday d m y)
unfolding dayofweek day_sum
in_bounds d m y short fits =
    let shift = month_shift-bound (m - 1) in
    let small : day_sum d m y < 2147483648 = ground (arith, shift, short, fits) in
    let whole : day_sum d m y % 4294967296 ≡ day_sum d m y = omega (arith, small) in
    let test : ltb (day_sum d m y) 2147483648 ≡ true = ground (arith, small) in
    rw (whole, test) refl

weekday-small : (d m y : ℕ) → weekday d m y < 7
weekday-small d m y = omega arith

tomorrow-bound :
    (d m y : ℕ)
    → y < 1727000000
    → let (d', m', y') = tomorrow d m y in (d' ≤ 31) × (y' ≤ 1727000000)
tomorrow-bound d m y fits = elim (Bool-cases (ltb d (days_in m y))) [
  | inl within ↦ rw within (
      let before : d < days_in m y = ltb→lt d (days_in m y) within in
      (omega (arith, before, days_in-bound m y), omega (arith, fits)))
  | inr last ↦ elim (Bool-cases (ltb m 12)) [
    | inl more ↦ rw (last, more) (omega arith, omega (arith, fits))
    | inr december ↦ rw (last, december) (omega arith, omega (arith, fits))
  ]
]

-- From a date of the Gregorian calendar in a year from 1 to 1726999999, in which no `int`
-- overflows, `dayofweek` gives a day from 0 to 6, and it moves to the next day of the week from
-- each date to the next one, through the ends of months and years, leap years included.
pub dayofweek-tomorrow :
    (d m y : ℕ)
    → 1 ≤ d
    → d ≤ days_in m y
    → 1 ≤ m
    → m ≤ 12
    → 1 ≤ y
    → y < 1727000000
    → (w : ℕ) × (w < 7)
      × (dayofweek d m y ≡ pos w)
      × (let (d', m', y') = tomorrow d m y in dayofweek d' m' y' ≡ pos ((w + 1) % 7))
dayofweek-tomorrow d m y d1 dn m1 mn y1 fits =
    let next = tomorrow d m y in
    let (short, later) = tomorrow-bound d m y fits in
    (
      weekday d m y,
      weekday-small d m y,
      in_bounds d m y (omega (arith, dn, days_in-bound m y)) (omega (arith, fits)),
      in_bounds next.0 next.1 next.2 short later ∙ ap pos (weekday-tomorrow d m y d1 dn m1 mn y1),
    )

-- The line ends just behind a Saturday.
pub saturday : (d m y : ℕ) → ((d + weekday 1 m y) % 7 ≡ 0) ↔ (weekday d m y ≡ 6)
unfolding day_sum
saturday d m y = let start : weekday 1 m y < 7 = omega arith in ground arith
