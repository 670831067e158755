-- ===== src/Protocol/Civil.antt =====
-- AddCalendarMonths and daysIn of internal/protocol/time.go. The calendar of Go's `time` package is a
-- parameter. Years and months are Go's int, whose range the sums here are far from.
pub mod Months
use subscription_bridge.Prelude.{
  ℕ, zero, suc, ◌+◌, ◌-◌, ◌*◌, ◌/◌, ◌%◌, ◌≤◌, ◌<◌, ◌≡◌, refl, ap, true, false, Bool-cases, inl, inr,
  ℤ, pos, negsuc, ltb, ltb_ℤ, if◌then◌else◌, arith,
}
use subscription_bridge.Protocol.Clock.{Time, hour, minute, second, truncate_utc}

-- `Date()` of a time in UTC, and `time.Date(…, time.UTC)` of a year, a month, a day, an hour, a minute
-- and a second, which carries a day or a month out of range over.
pub record Calendar : Type 0 where
  pub year_of : Time → ℤ
  pub month_of : Time → ℕ
  pub day_of : Time → ℕ
  pub instant : ℤ → ℤ → ℕ → ℕ → ℕ → ℕ → Time

-- A sum, and a difference, of an int and a natural number.
abbrev pub plus : ℤ → ℕ → ℤ
plus (pos n) k = pos (n + k)
plus (negsuc n) k = if ltb n k then pos (k - n - 1) else negsuc (n - k)

abbrev pub minus : ℤ → ℕ → ℤ
minus (pos n) k = if ltb n k then negsuc (k - n - 1) else pos (n - k)
minus (negsuc n) k = negsuc (n + k)

-- The loop `for month > 12`, as long as the fuel lasts.
unfoldable pub carry_years : ℕ → ℤ → ℤ → ℤ × ℤ
carry_years zero year month = (year, month)
carry_years (suc fuel) year month =
    let rest = carry_years fuel (plus year 1) (minus month 12) in
    if ltb_ℤ (pos 12) month then rest else (year, month)

-- The loop `for month < 1`, as long as the fuel lasts.
unfoldable pub borrow_years : ℕ → ℤ → ℤ → ℤ × ℤ
borrow_years zero year month = (year, month)
borrow_years (suc fuel) year month =
    let rest = borrow_years fuel (minus year 1) (plus month 12) in
    if ltb_ℤ month (pos 1) then rest else (year, month)

-- As many rounds of a loop as the month is far from 1 are enough: each brings it twelve nearer.
abbrev pub rounds : ℤ → ℕ
rounds (pos n) = suc n
rounds (negsuc n) = suc (suc n)

-- Both loops.
unfoldable pub normal_month : ℤ → ℤ → ℤ × ℤ
unfolding carry_years borrow_years
normal_month year month =
    let carried = carry_years (rounds month) year month in
    borrow_years (rounds carried.1) carried.0 carried.1

module _ (cal : Calendar) where
  -- daysIn
  unfoldable pub days_in : ℤ → ℤ → ℕ
  days_in year month = cal.day_of (cal.instant year (plus month 1) 0 0 0 0)

  -- AddCalendarMonths
  unfoldable pub add_calendar_months : Time → ℤ → Time
  add_calendar_months start₀ months =
      let start = truncate_utc start₀ in
      let (year, month) = normal_month (cal.year_of start) (plus months (cal.month_of start)) in
      let last = days_in year month in
      let day = if ltb last (cal.day_of start) then last else cal.day_of start in
      cal.instant year month day (start / hour % 24) (start / minute % 60) (start / second % 60)
