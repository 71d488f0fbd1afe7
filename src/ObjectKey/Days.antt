-- ===== src/ObjectKey/Days.antt =====
-- Each day of object names is the day after the one before it
-- (crates/loadsmith-plugin-sdk/src/object_key.rs, `utc`).
use loadsmith.Prelude.{
  ℕ, suc, zero, ◌+◌, ◌-◌, ◌*◌, ◌/◌, ◌%◌, ◌≤◌, ◌<◌, ◌≡◌, inl, inr, refl, sym, ap, ap₂, subst, ◌∙◌,
  false, ltb, ltb→lt, arith, Bool-cases,
}
use loadsmith.ObjectKey.Calendar.{Utc, year_of_era, day_of_year, month_from_march, civil, utc}
use loadsmith.ObjectKey.Dates.{
  is_leap, day_after, first_day, year_length, year_bound, begun, not_over, unique, march, in_month,
  at_end,
}

-- A day by its era, the year of the era and the day of the year.
civil-march :
    (era doe y doy secs z : ℕ)
    → z ≡ era * 146097 + doe
    → doe < 146097
    → year_of_era doe ≡ y
    → doe ≡ first_day y + doy
    → civil z secs ≡ march (y + era * 400) doy secs
unfolding civil
civil-march era doe y doy secs z e h f g =
    let same_era : z / 146097 ≡ era = omega (arith, e, h) in
    let same_doe : z - z / 146097 * 146097 ≡ doe = omega (arith, e, h) in
    ap₂ (λ x d. march (year_of_era d + x * 400) (day_of_year d (year_of_era d)) secs) same_era
      same_doe
    ∙ ap (λ x. march (x + era * 400) (day_of_year doe x) secs) f
    ∙ ap (λ d. march (y + era * 400) d secs) (omega (arith, g))

-- The leap years of an era are those of the first one.
same_length : (y era : ℕ) → year_length (y + era * 400) ≡ year_length y
unfolding is_leap
same_length y era = ground arith

next_year : (y : ℕ) → y < 399 → first_day (y + 1) ≡ first_day y + year_length y
unfolding is_leap
next_year y h = ground arith

last_year : (y : ℕ) → y ≤ 399 → first_day y + year_length y ≤ 146097
unfolding is_leap
last_year y h = ground arith

last_day : (y : ℕ) → y ≤ 399 → first_day y + year_length y ≡ 146097 → y ≡ 399
unfolding is_leap
last_day y h e = ground arith

at_length : (a b : ℕ) → ltb a b ≡ false → a < b + 1 → a ≡ b
at_length a b e h = ground arith

-- A year has a day.
begins : (y : ℕ) → 0 < year_length y
begins y = ground arith

century :
    (y doe doy : ℕ) → y ≡ 399 → doe ≡ first_day y + doy → doy + 1 ≡ year_length y → doe ≡ 146096
unfolding is_leap
century y doe doy e f g = ground arith

-- The day behind a day of an era.
step :
    (era doe y doy secs : ℕ)
    → doe < 146097
    → year_of_era doe ≡ y
    → y ≤ 399
    → doe ≡ first_day y + doy
    → doy < year_length y
    → civil (era * 146097 + doe + 1) secs ≡ day_after (march (y + era * 400) doy secs)
step era doe y doy secs h f le g within = elim (Bool-cases (ltb (doy + 1) (year_length y))) [
  | inl inside ↦
      let less : doy + 1 < year_length y = ltb→lt (doy + 1) (year_length y) inside in
      let small : doe + 1 < 146097 = omega (arith, less, g, last_year y le) in
      let same : year_of_era (doe + 1) ≡ y =
        unique y (doe + 1) small le (omega (arith, g)) (omega (arith, g, less)) in
      civil-march era (doe + 1) y (doy + 1) secs _ (omega arith) small same (omega (arith, g))
      ∙ in_month (month_from_march doy) (y + era * 400) doy secs refl
          (subst (λ n. doy + 1 < n) (sym (same_length y era)) less)
  | inr over ↦
      let full : doy + 1 ≡ year_length y =
        at_length (doy + 1) (year_length y) over (omega (arith, within)) in
      let ending : march (y + era * 400 + 1) 0 secs ≡ day_after (march (y + era * 400) doy secs) =
        at_end (y + era * 400) doy secs (full ∙ sym (same_length y era)) in
      elim (Bool-cases (ltb y 399)) [
        | inl more ↦
            let below : y < 399 = ltb→lt y 399 more in
            let next : doe + 1 ≡ first_day (y + 1) = omega (arith, g, full, next_year y below) in
            let small : doe + 1 < 146097 =
              omega (arith, next, begins (y + 1), last_year (y + 1) (omega (arith, below))) in
            let same : year_of_era (doe + 1) ≡ y + 1 =
              unique (y + 1) (doe + 1) small (omega (arith, below)) (omega (arith, next))
                (omega (arith, next, begins (y + 1))) in
            civil-march era (doe + 1) (y + 1) 0 secs _ (omega arith) small same
              (omega (arith, next))
            ∙ ap (λ x. march x 0 secs) (omega arith)
            ∙ ending
        | inr none ↦
            let last : y ≡ 399 = at_length y 399 none (omega (arith, le)) in
            let end : doe ≡ 146096 = century y doe doy last g full in
            civil-march (era + 1) 0 0 0 secs _ (omega (arith, end)) (omega arith) refl refl
            ∙ ap (λ x. march x 0 secs) (omega (arith, last))
            ∙ ending
      ]
]

-- The date of every day is the day after the date of the day before it, by the Gregorian calendar.
pub civil_next : (z secs : ℕ) → civil (z + 1) secs ≡ day_after (civil z secs)
civil_next z secs =
    let era = z / 146097 in
    let doe = z % 146097 in
    let y = year_of_era doe in
    let small : doe < 146097 = omega arith in
    let whole : z ≡ era * 146097 + doe = omega arith in
    let since : doe ≡ first_day y + (doe - first_day y) = omega (arith, begun doe small) in
    let here : civil z secs ≡ march (y + era * 400) (doe - first_day y) secs =
      civil-march era doe y (doe - first_day y) secs z whole small refl since in
    ap (λ n. civil (n + 1) secs) whole
    ∙ step era doe y (doe - first_day y) secs small refl (year_bound doe small) since
        (omega (arith, since, not_over doe small))
    ∙ ap day_after (sym here)

-- So many days after a date.
pub days_after : ℕ → Utc → Utc
days_after zero u = u
days_after (suc n) u = day_after (days_after n u)

abbrev pub epoch : ℕ → Utc
epoch secs = record { year = 1970; month = 1; day = 1; secs_of_day = secs }

civil-days_after : (n secs : ℕ) → civil (719468 + n) secs ≡ days_after n (epoch secs)
unfolding days_after
civil-days_after zero secs = unfold civil in refl
civil-days_after (suc n) secs =
    ap (λ z. civil z secs) (omega arith)
    ∙ civil_next (719468 + n) secs
    ∙ ap day_after (civil-days_after n secs)

-- The broken-down time of so many days and milliseconds after the epoch is the time of the day, on
-- the date that the Gregorian calendar reaches from 1970-01-01 in so many days.
pub utc_is_calendar :
    (days ms : ℕ) → ms < 86400000 → utc (days * 86400000 + ms) ≡ days_after days (epoch (ms / 1000))
unfolding utc
utc_is_calendar days ms h =
    ap₂ civil (omega (arith, h)) (omega (arith, h)) ∙ civil-days_after days (ms / 1000)
