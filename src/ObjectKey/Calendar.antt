-- ===== src/ObjectKey/Calendar.antt =====
-- The dates in object names (crates/loadsmith-plugin-sdk/src/object_key.rs, `Utc` and `utc`). A time
-- in `u64` milliseconds is so far below the largest `i64` that the arithmetic in days never wraps,
-- and no time before 1970 comes up.
use loadsmith.Prelude.{
  ℕ, suc, zero, ◌+◌, ◌-◌, ◌*◌, ◌/◌, ◌%◌, ◌≡◌, refl, List, [], ◌∷◌, ◌++◌, ltb, leb, length,
  if◌then◌else◌,
}
use loadsmith.Text.{codes}

pub record Utc : Type 0 where
  pub year : ℕ
  pub month : ℕ
  pub day : ℕ
  pub secs_of_day : ℕ

-- the day of the era that a day since 0000-03-01 falls on, and the year, the day of the year
-- and the month, which begin with March
abbrev pub year_of_era : ℕ → ℕ
year_of_era doe = (doe - doe / 1460 + doe / 36524 - doe / 146096) / 365

abbrev pub day_of_year : ℕ → ℕ → ℕ
day_of_year doe yoe = doe - (365 * yoe + yoe / 4 - yoe / 100)

abbrev pub month_from_march : ℕ → ℕ
month_from_march doy = (5 * doy + 2) / 153

unfoldable pub civil : ℕ → ℕ → Utc
civil z secs_of_day =
    let era = z / 146097 in
    let doe = z - era * 146097 in
    let yoe = year_of_era doe in
    let doy = day_of_year doe yoe in
    let mp = month_from_march doy in
    let month = if ltb mp 10 then mp + 3 else mp - 9 in
    record {
      year = yoe + era * 400 + (if leb month 2 then 1 else 0);
      month = month;
      day = doy - (153 * mp + 2) / 5 + 1;
      secs_of_day = secs_of_day;
    }

unfoldable pub utc : ℕ → Utc
unfolding civil
utc unix_ms = let secs = unix_ms / 1000 in civil (secs / 86400 + 719468) (secs % 86400)

-- The decimal digits of a number, with fuel for those in front of the last one.
unfoldable pub digits : ℕ → ℕ → List ℕ
digits zero n = (b'0' + n % 10) ∷ []
digits (suc fuel) n =
    let rest = digits fuel (n / 10) in
    if ltb n 10 then (b'0' + n) ∷ [] else rest ++ ((b'0' + n % 10) ∷ [])

abbrev pub zeros : ℕ → List ℕ
zeros zero = []
zeros (suc n) = b'0' ∷ zeros n

-- `{:02}` and `{:04}`
unfoldable pub padded : ℕ → ℕ → List ℕ
unfolding digits
padded width n = let ds = digits 20 n in zeros (width - length ds) ++ ds

-- `Utc::date`
unfoldable pub date : Utc → List ℕ
unfolding padded
date u = padded 4 u.year ++ b'-' ∷ padded 2 u.month ++ b'-' ∷ padded 2 u.day

-- `Utc::time`
unfoldable pub time : Utc → List ℕ
unfolding padded
time u =
    let s = u.secs_of_day in
    padded 4 u.year
    ++ padded 2 u.month
    ++ padded 2 u.day
    ++ b'T' ∷ padded 2 (s / 3600)
    ++ padded 2 (s / 60 % 60)
    ++ padded 2 (s % 60)
    ++ b'Z' ∷ []

tested : date (utc 951782400000) ≡ codes "2000-02-29"
unfolding date utc
tested = refl
