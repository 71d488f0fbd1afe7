-- ===== src/ObjectKey/Dates.antt =====
-- The dates in object names are the calendar's (crates/loadsmith-plugin-sdk/src/object_key.rs, `utc`).
use loadsmith.Prelude.{
  ℕ, suc, zero, ◌+◌, ◌-◌, ◌*◌, ◌/◌, ◌%◌, ◌≤◌, ◌<◌, ◌≡◌, Bool, not, ◌==◌, ltb, leb, if◌then◌else◌,
  arith,
}
use loadsmith.ObjectKey.Calendar.{Utc, year_of_era, month_from_march}

-- The Gregorian calendar.
unfoldable pub is_leap : ℕ → Bool
is_leap y = if y % 100 == 0 then y % 400 == 0 else y % 4 == 0

-- From March on, long months and short ones take turns, but for July and August.
unfoldable pub month_length : ℕ → ℕ → ℕ
month_length y m = if not (m == 2) then 30 + (m + m / 8) % 2 else if is_leap y then 29 else 28

unfoldable pub day_after : Utc → Utc
unfolding month_length
day_after u =
    if ltb u.day (month_length u.year u.month)
    then record u { day = u.day + 1 }
    else if ltb u.month 12
    then record u { month = u.month + 1; day = 1 }
    else record u { year = u.year + 1; month = 1; day = 1 }

pub year_bound : (doe : ℕ) → doe < 146097 → year_of_era doe ≤ 399
year_bound doe h = omega arith

-- The first day of a year of an era, which begins in March; and its length, which the leap day at its
-- end makes longer.
abbrev pub first_day : ℕ → ℕ
first_day y = 365 * y + y / 4 - y / 100

abbrev pub year_length : ℕ → ℕ
year_length y = if is_leap (y + 1) then 366 else 365

pub begun : (doe : ℕ) → doe < 146097 → first_day (year_of_era doe) ≤ doe
begun doe h = omega arith

pub not_over :
    (doe : ℕ) → doe < 146097 → doe < first_day (year_of_era doe) + year_length (year_of_era doe)
unfolding is_leap
not_over doe h = ground arith

-- The year that has begun and is not over is the year of the day.
pub unique :
    (y doe : ℕ)
    → doe < 146097
    → y ≤ 399
    → first_day y ≤ doe
    → doe < first_day y + year_length y
    → year_of_era doe ≡ y
unfolding is_leap
unique y doe h k b n = ground arith

-- The month and the day of a day of a year that begins in March.
abbrev pub march : ℕ → ℕ → ℕ → Utc
march y doy secs =
    let mp = month_from_march doy in
    let month = if ltb mp 10 then mp + 3 else mp - 9 in
    record {
      year = y + (if leb month 2 then 1 else 0);
      month = month;
      day = doy - (153 * mp + 2) / 5 + 1;
      secs_of_day = secs;
    }

pub in_month :
    (m y doy secs : ℕ)
    → month_from_march doy ≡ m
    → doy + 1 < year_length y
    → march y (doy + 1) secs ≡ day_after (march y doy secs)
unfolding is_leap day_after month_length
in_month zero y doy secs e h = ground arith
in_month (suc zero) y doy secs e h = ground arith
in_month (suc (suc zero)) y doy secs e h = ground arith
in_month (suc (suc (suc zero))) y doy secs e h = ground arith
in_month (suc (suc (suc (suc zero)))) y doy secs e h = ground arith
in_month (suc (suc (suc (suc (suc zero))))) y doy secs e h = ground arith
in_month (suc (suc (suc (suc (suc (suc zero)))))) y doy secs e h = ground arith
in_month (suc (suc (suc (suc (suc (suc (suc zero))))))) y doy secs e h = ground arith
in_month (suc (suc (suc (suc (suc (suc (suc (suc zero)))))))) y doy secs e h = ground arith
in_month (suc (suc (suc (suc (suc (suc (suc (suc (suc zero))))))))) y doy secs e h = ground arith
in_month (suc (suc (suc (suc (suc (suc (suc (suc (suc (suc zero)))))))))) y doy secs e h =
    ground arith
in_month (suc (suc (suc (suc (suc (suc (suc (suc (suc (suc (suc zero))))))))))) y doy secs e h =
    ground arith
in_month (suc (suc (suc (suc (suc (suc (suc (suc (suc (suc (suc (suc m)))))))))))) y doy secs e h =
    absurd (ground arith)

pub at_end :
    (y doy secs : ℕ) → doy + 1 ≡ year_length y → march (y + 1) 0 secs ≡ day_after (march y doy secs)
unfolding is_leap day_after month_length
at_end y doy secs h = ground arith
