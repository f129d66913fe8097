-- ===== src/Ap2/Calendar/RoundTrip.antt =====
-- Reading back what is printed, and the instant of the date that an instant has
-- (packages/ap2/src/index.ts, credential.ts).
use reapp_protocol.Common.{
  Bool-cases, List, Option, Option-cases, Text, [], ap, arith, false, if◌then◌else◌, inl, inr,
  length, ltb, ltb→lt, ok, refl, some, suc, sym, take, true, zero, ℕ, ◌%◌, ◌*◌, ◌+◌, ◌-◌, ◌/◌, ◌<◌,
  ◌==◌, ◌∷◌, ◌≡◌, ◌≤◌,
}
use mathlib.Core.Path.{subst}
use reapp_protocol.Ap2.Calendar.{
  utc, Timestamp, read_digits, read_date_time, is_leap_year, days_in_months, months_of, get_or_zero,
  is_real, sum, year_length, days_before_year, date_parse, locate, locate_year, to_civil,
  two_digits, four_digits, print_civil, read_utc, civil, civil_at,
}

read_digits_two : (n : ℕ) (s : Text) → n < 100 → read_digits 2 0 (two_digits n s) ≡ ok (n, s)
unfolding read_digits
read_digits_two n s h = ground arith

read_digits_four : (n : ℕ) (s : Text) → n < 10000 → read_digits 4 0 (four_digits n s) ≡ ok (n, s)
unfolding read_digits
read_digits_four n s h = ground arith

-- The fields fit the digits that are printed.
pub record Fits (t : Timestamp) : Type 0 where
  pub year : t.year < 10000
  pub month : t.month < 100
  pub day : t.day < 100
  pub hour : t.hour < 100
  pub minute : t.minute < 100
  pub second : t.second < 100
  pub zone : t.zone ≡ utc

-- A date and time in UTC, whose fields fit the digits that are printed, is read from its text as it
-- was.
pub read_utc-print_civil : (t : Timestamp) → Fits t → read_utc (print_civil t) ≡ ok t
unfolding read_utc print_civil read_date_time
read_utc-print_civil t f =
    simp
      (
        read_digits_four t.year _ f.year,
        read_digits_two t.month _ f.month,
        read_digits_two t.day _ f.day,
        read_digits_two t.hour _ f.hour,
        read_digits_two t.minute _ f.minute,
        read_digits_two t.second _ f.second,
      )
      (ap (λ z. ok (record t { zone = z })) (sym f.zone))

-- The three terms of DayFromYear that step at a leap year.
quarter_step : (y : ℕ) → (suc y + 3) / 4 ≡ (y + 3) / 4 + (if y % 4 == 0 then 1 else 0)
quarter_step y = ground arith

century_step : (y : ℕ) → (suc y + 99) / 100 ≡ (y + 99) / 100 + (if y % 100 == 0 then 1 else 0)
century_step y = ground arith

fourth_century_step :
    (y : ℕ) → (suc y + 399) / 400 ≡ (y + 399) / 400 + (if y % 400 == 0 then 1 else 0)
fourth_century_step y = ground arith

centuries_le : (y : ℕ) → (y + 99) / 100 ≤ 365 * y
centuries_le y = omega arith

-- A year of Date is as long as the code's rule for leap years says.
leap_lem :
    (y : ℕ) → days_before_year (suc y) ≡ days_before_year y + (if is_leap_year y then 366 else 365)
unfolding days_before_year is_leap_year
leap_lem y =
    let a = quarter_step y in
    let b = century_step y in
    let c = fourth_century_step y in
    let d = centuries_le y in
    let e : y % 400 ≡ 0 → y % 100 ≡ 0 = λ h. omega (arith, h) in
    let f : y % 100 ≡ 0 → y % 4 ≡ 0 = λ h. omega (arith, h) in ground arith

year_length-leap : (y : ℕ) → year_length y ≡ (if is_leap_year y then 366 else 365)
unfolding year_length
year_length-leap y = rw (leap_lem y) (omega arith)

days_before_year-suc : (y : ℕ) → days_before_year (suc y) ≡ days_before_year y + year_length y
days_before_year-suc y = rw (year_length-leap y) (leap_lem y)

year_length-le : (y : ℕ) → (365 ≤ year_length y) × (year_length y ≤ 366)
year_length-le y = let e = year_length-leap y in ground arith

-- The code's table of months is that of Date's calendar, in every year.
days_in_months-months_of : (y : ℕ) → months_of y ≡ days_in_months y
unfolding months_of days_in_months
days_in_months-months_of y = elim (Bool-cases (is_leap_year y)) [
  | inl leap ↦ rw (year_length-leap y, leap) refl
  | inr common ↦ rw (year_length-leap y, common) refl
]

ltb_false→le : (a b : ℕ) → ltb a b ≡ false → b ≤ a
ltb_false→le a b h = ground arith

locate_year-some :
    (left year d : ℕ) (y r : ℕ)
    → locate_year left year d ≡ some (y, r)
    → (days_before_year year + d ≡ days_before_year y + r) × (r < year_length y) × (y < year + left)
unfolding locate_year
locate_year-some zero year d y r h = absurd (cc)
locate_year-some (suc left) year d y r h = elim (Bool-cases (ltb d (year_length year))) [
  | inl here ↦
      let e = rw (here, locate_year) at h in
      let year_is : year ≡ y = cc in
      let day_is : d ≡ r = cc in
      rw (sym year_is, sym day_is) (refl, ltb→lt d (year_length year) here, omega arith)
  | inr later ↦
      let (sums, below, bound) =
        locate_year-some left (suc year) (d - year_length year) y r
          (rw (later, locate_year) at h) in
      let small : year_length year ≤ d = ltb_false→le d (year_length year) later in
      (omega (arith, days_before_year-suc year), below, omega arith)
]

locate_lem :
    (ns : List ℕ) (d : ℕ)
    → d < sum ns
    → let (i, r) = locate ns d in
      (sum (take i ns) + r ≡ d) × (r < get_or_zero ns i) × (i < length ns)
unfolding locate get_or_zero
locate_lem [] d h = absurd (omega arith)
locate_lem (n ∷ ns) d h = elim (Bool-cases (ltb d n)) [
  | inl here ↦ rw here (omega arith, ltb→lt d n here, omega arith)
  | inr later ↦
      let small : n ≤ d = ground arith in
      let (sums, below, bound) = locate_lem ns (d - n) (omega arith) in
      rw later (omega arith, below, omega arith)
]

sum-months_of : (year : ℕ) → sum (months_of year) ≡ year_length year
unfolding months_of
sum-months_of year = let bounds = year_length-le year in omega (arith, bounds)

month_le : (year i : ℕ) → get_or_zero (days_in_months year) i ≤ 31
unfolding days_in_months get_or_zero
month_le year i = ground arith

-- The date and time of an instant: it is real, it fits the digits, and it is read as that instant.
pub record IsCivil (instant : ℕ) (t : Timestamp) : Type 0 where
  pub fits : Fits t
  pub real : is_real t ≡ true
  pub same : date_parse t ≡ instant

seconds_lem : (s : ℕ) → 3600 * (s / 3600) + 60 * ((s / 60) % 60) + s % 60 ≡ s
seconds_lem s = omega arith

civil_at-Fits :
    (s year m d : ℕ) → s < 86400 → year < 10000 → m < 12 → d < 31 → Fits (civil_at s year m d)
civil_at-Fits s year m d hs hy hm hd = record {
  year = hy;
  month = omega arith;
  day = omega arith;
  hour = omega arith;
  minute = omega arith;
  second = omega arith;
  zone = refl;
}

pred_succ : (m : ℕ) → m + 1 - 1 ≡ m
pred_succ m = omega arith

is_real-civil_at :
    (s year m d : ℕ)
    → s < 86400
    → m < 12
    → d < get_or_zero (days_in_months year) m
    → is_real (civil_at s year m d) ≡ true
unfolding is_real
is_real-civil_at s year m d hs hm hd = rw (pred_succ m) (ground arith)

date_parse-civil_at :
    (instant year day_of_year m d : ℕ)
    → 86400 ≤ instant
    → days_before_year year + day_of_year ≡ instant / 86400 - 1
    → sum (take m (months_of year)) + d ≡ day_of_year
    → date_parse (civil_at (instant % 86400) year m d) ≡ instant
unfolding date_parse
date_parse-civil_at instant year doy m d late sums days =
    rw (pred_succ m) (omega (arith, seconds_lem (instant % 86400)))

civil-IsCivil :
    (instant year day_of_year : ℕ)
    → 86400 ≤ instant
    → days_before_year year + day_of_year ≡ instant / 86400 - 1
    → day_of_year < year_length year
    → year < 10000
    → IsCivil instant (civil (instant % 86400) (year, day_of_year))
unfolding months_of
civil-IsCivil instant year r late sums below bound =
    let (m, d) = locate (months_of year) r in
    let (days, counted, months) = locate_lem (months_of year) r (rw (sum-months_of year) below) in
    let inside = subst (λ ns. d < get_or_zero ns m) (days_in_months-months_of year) counted in
    let at_most = month_le year m in
    let time : instant % 86400 < 86400 = omega arith in
    record {
      fits = civil_at-Fits (instant % 86400) year m d time bound months (omega arith);
      real = is_real-civil_at (instant % 86400) year m d time months inside;
      same = date_parse-civil_at instant year r m d late sums days;
    }

from_zero :
    (y r d : ℕ) → days_before_year 0 + d ≡ days_before_year y + r → days_before_year y + r ≡ d
unfolding days_before_year
from_zero y r d h = omega arith

some_injective : {A : Type 0} {a b : A} → Option.some a ≡ some b → a ≡ b
some_injective h = cc

-- Every instant that has a date in the years 0 to 9999 has one that is real and that is read back as
-- the instant itself.
pub to_civil-IsCivil : (instant : ℕ) (t : Timestamp) → to_civil instant ≡ some t → IsCivil instant t
unfolding to_civil
to_civil-IsCivil instant t h = elim (Bool-cases (ltb instant 86400)) [
  | inl early ↦ absurd (let e = rw (early, to_civil) at h in cc)
  | inr late ↦ elim (Option-cases (locate_year 10000 0 (instant / 86400 - 1))) [
    | inl outside ↦ absurd (let e = rw (late, outside, to_civil) at h in cc)
    | inr (place, found) ↦
        let (sums, below, bound) =
          locate_year-some 10000 0 (instant / 86400 - 1) place.0 place.1 found in
        let is_t : civil (instant % 86400) place ≡ t =
          some_injective (rw (late, found, to_civil) at h) in
        rw (sym is_t) (
          civil-IsCivil instant place.0 place.1 (ltb_false→le instant 86400 late)
            (from_zero place.0 place.1 (instant / 86400 - 1) sums) below bound)
  ]
]
