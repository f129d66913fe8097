-- ===== src/Ap2/Calendar.antt =====
-- The instants of AP2 mandates: the format of `normalizeExpiry` of packages/ap2/src/index.ts, and
-- what it and `rebuildCredentialBinding` use of JavaScript's Date on such texts. An instant is the
-- number of seconds from a day before the year 0, so that every zone's offset keeps it natural.
pub mod RoundTrip
use reapp_protocol.Common.{
  ==_iff, >>=-eq-ok, All, Bool, Bool-cases, List, List-cases, Number, Option, Option-cases, Result,
  Result-cases, String, Text, [], all, and3_elim, and4_elim, and_elim, ap, arith, conjunction,
  conjunction→All, err, false, find, find-insert, find-insert_self, find-remove, find_of_not_has,
  guard, has, has-eq-find, has-insert, if◌then◌else◌, inl, inr, insert, int, is_digit, is_digits,
  is_exact, is_hex64, is_hex_digit, is_natural_safe, is_positive_safe, is_space, leb, leb→le,
  length, length-append, length-replicate, lit, lower_unit, ltb, ltb→lt, lt→ltb, map,
  max_safe_integer, natural, natural_pos, ne_of_text_eq, negsuc, non_integer, none, not, ok,
  or_elim_false, pos, refl, remove, replicate, some, suc, sym, take, text_eq, text_eq_iff,
  text_eq_refl, text_eq→eq, text_ne, to_lower, to_lower_idempotent, to_upper, trim, trim_start,
  true, upper_unit, zero, ℕ, ℤ, ◌%◌, ◌&&◌, ◌*◌, ◌++◌, ◌+◌, ◌-◌, ◌/◌, ◌<◌, ◌==◌, ◌>>=?◌, ◌>>=◌, ◌>>◌,
  ◌^◌, ◌||◌, ◌↔◌, ◌∙◌, ◌∷◌, ◌≡◌, ◌≢◌, ◌≤◌, ◌⊎◌,
}

pub data CalendarError : Type 0 where
  not_iso not_real not_four_digits : CalendarError

abbrev pub Read : Type 0 → Type 0
Read A = Result CalendarError A

pub data Zone : Type 0 where
  utc : Zone
  ahead behind : ℕ → ℕ → Zone

pub record Timestamp : Type 0 where
  pub year : ℕ
  pub month : ℕ
  pub day : ℕ
  pub hour : ℕ
  pub minute : ℕ
  pub second : ℕ
  pub zone : Zone

-- `\d{n}`, as the number that it writes.
unfoldable pub read_digits : ℕ → ℕ → Text → Read (ℕ × Text)
read_digits zero value s = ok (value, s)
read_digits (suc n) value [] = err not_iso
read_digits (suc n) value (c ∷ s) =
    if is_digit c then read_digits n (10 * value + (c - 48)) s else err not_iso

unfoldable pub read_unit : ℕ → Text → Read Text
read_unit k [] = err not_iso
read_unit k (c ∷ s) = if c == k then ok s else err not_iso

-- `$`
abbrev pub read_end : {A : Type 0} → A → Text → Read A
read_end a [] = ok a
read_end a (_ ∷ _) = err not_iso

abbrev read_offset : (ℕ → ℕ → Zone) → Text → Read Zone
read_offset sign s = do
  (hour, s1) ← read_digits 2 0 s
  s2 ← read_unit b':' s1
  (minute, s3) ← read_digits 2 0 s2
  read_end (sign hour minute) s3

-- `(Z|[+-](\d{2}):(\d{2}))$`
unfoldable pub read_zone : Text → Read Zone
unfolding read_digits read_unit
read_zone [] = err not_iso
read_zone (c ∷ s) =
    if c == b'Z'
    then read_end utc s
    else if c == b'+'
    then read_offset ahead s
    else if c == b'-'
    then read_offset behind s
    else err not_iso

-- `(?:\.000)?`
unfoldable pub skip_milliseconds : Text → Text
skip_milliseconds (a ∷ b ∷ c ∷ d ∷ s) =
    if text_eq (a ∷ b ∷ c ∷ d ∷ []) (lit ".000") then s else a ∷ b ∷ c ∷ d ∷ s
skip_milliseconds s = s

-- `^(\d{4})-(\d{2})-(\d{2})T(\d{2}):(\d{2}):(\d{2})`, with what follows it.
unfoldable pub read_date_time : (Text → Read Zone) → Text → Read Timestamp
unfolding read_digits read_unit
read_date_time rest s = do
  (year, s1) ← read_digits 4 0 s
  s2 ← read_unit b'-' s1
  (month, s3) ← read_digits 2 0 s2
  s4 ← read_unit b'-' s3
  (day, s5) ← read_digits 2 0 s4
  s6 ← read_unit b'T' s5
  (hour, s7) ← read_digits 2 0 s6
  s8 ← read_unit b':' s7
  (minute, s9) ← read_digits 2 0 s8
  s10 ← read_unit b':' s9
  (second, s11) ← read_digits 2 0 s10
  zone ← rest s11
  ok (record {
    year = year;
    month = month;
    day = day;
    hour = hour;
    minute = minute;
    second = second;
    zone = zone;
  })

unfoldable pub is_leap_year : ℕ → Bool
is_leap_year year = (year % 4 == 0) && (not (year % 100 == 0) || (year % 400 == 0))

unfoldable pub days_in_months : ℕ → List ℕ
unfolding is_leap_year
days_in_months year =
    31
    ∷ (if is_leap_year year then 29 else 28)
    ∷ 31
    ∷ 30
    ∷ 31
    ∷ 30
    ∷ 31
    ∷ 31
    ∷ 30
    ∷ 31
    ∷ 30
    ∷ 31
    ∷ []

-- The entry at an index; 0 past the end.
unfoldable pub get_or_zero : List ℕ → ℕ → ℕ
get_or_zero [] i = 0
get_or_zero (n ∷ ns) zero = n
get_or_zero (n ∷ ns) (suc i) = get_or_zero ns i

abbrev is_offset : Zone → Bool
is_offset utc = true
is_offset (ahead hour minute) = leb hour 23 && leb minute 59
is_offset (behind hour minute) = leb hour 23 && leb minute 59

unfoldable pub is_real : Timestamp → Bool
unfolding days_in_months get_or_zero
is_real t =
    (leb 1 t.month && leb t.month 12)
    && (leb 1 t.day && leb t.day (get_or_zero (days_in_months t.year) (t.month - 1)))
    && (leb t.hour 23 && leb t.minute 59 && leb t.second 59)
    && is_offset t.zone

abbrev pub sum : List ℕ → ℕ
sum [] = 0
sum (n ∷ ns) = n + sum ns

-- The calendar of Date itself, apart from the code's table of months: the days before a year, from
-- the year 0, by ECMAScript's DayFromYear; the length of a year; and the lengths of its months.
unfoldable pub days_before_year : ℕ → ℕ
days_before_year year = 365 * year + (year + 3) / 4 + (year + 399) / 400 - (year + 99) / 100

unfoldable pub year_length : ℕ → ℕ
unfolding days_before_year
year_length year = days_before_year (suc year) - days_before_year year

unfoldable pub months_of : ℕ → List ℕ
unfolding year_length
months_of year =
    31 ∷ (year_length year - 337) ∷ 31 ∷ 30 ∷ 31 ∷ 30 ∷ 31 ∷ 31 ∷ 30 ∷ 31 ∷ 30 ∷ 31 ∷ []

abbrev pub day_number : Timestamp → ℕ
day_number t = days_before_year t.year + sum (take (t.month - 1) (months_of t.year)) + (t.day - 1)

abbrev pub seconds_of_day : Timestamp → ℕ
seconds_of_day t = 3600 * t.hour + 60 * t.minute + t.second

abbrev in_zone : Zone → ℕ → ℕ
in_zone utc local = local
in_zone (ahead hour minute) local = local - (3600 * hour + 60 * minute)
in_zone (behind hour minute) local = local + (3600 * hour + 60 * minute)

-- `Date.parse` of a real timestamp, in seconds.
unfoldable pub date_parse : Timestamp → ℕ
unfolding days_before_year months_of
date_parse t = in_zone t.zone (86400 * (day_number t + 1) + seconds_of_day t)

-- The instant of 1970-01-01T00:00:00Z.
abbrev pub epoch : ℕ
epoch = 86400 * 719529

-- The index of the part that holds the `d`-th unit, and the place in that part.
unfoldable pub locate : List ℕ → ℕ → ℕ × ℕ
locate [] d = (0, d)
locate (n ∷ ns) d = let (i, r) = locate ns (d - n) in if ltb d n then (0, d) else (suc i, r)

-- The year that holds a day, from a given year on, among the years that are left.
unfoldable pub locate_year : ℕ → ℕ → ℕ → Option (ℕ × ℕ)
unfolding year_length
locate_year zero year d = none
locate_year (suc left) year d = elim (ltb d (year_length year)) [
  | true ↦ some (year, d)
  | false ↦ locate_year left (suc year) (d - year_length year)
]

abbrev pub civil_at : ℕ → ℕ → ℕ → ℕ → Timestamp
civil_at second_of_day year month day = record {
  year = year;
  month = month + 1;
  day = day + 1;
  hour = second_of_day / 3600;
  minute = (second_of_day / 60) % 60;
  second = second_of_day % 60;
  zone = utc;
}

abbrev pub civil : ℕ → ℕ × ℕ → Timestamp
civil second_of_day (year, day_of_year) =
    let (month, day) = locate (months_of year) day_of_year in civil_at second_of_day year month day

-- The date and time of an instant in the years 0 to 9999.
unfoldable pub to_civil : ℕ → Option Timestamp
unfolding locate locate_year months_of
to_civil instant = elim (ltb instant 86400) [
  | true ↦ none
  | false ↦ elim (locate_year 10000 0 (instant / 86400 - 1)) [
    | none ↦ none
    | some place ↦ some (civil (instant % 86400) place)
  ]
]

abbrev pub two_digits : ℕ → Text → Text
two_digits n s = (48 + n / 10) ∷ (48 + n % 10) ∷ s

abbrev pub four_digits : ℕ → Text → Text
four_digits n s = two_digits (n / 100) (two_digits (n % 100) s)

-- `toISOString().replace(".000Z", "Z")` in the years 0 to 9999.
unfoldable pub print_civil : Timestamp → Text
print_civil t = four_digits t.year (
    b'-'
    ∷ two_digits t.month (
        b'-'
        ∷ two_digits t.day (
            b'T'
            ∷ two_digits t.hour
                (b':' ∷ two_digits t.minute (b':' ∷ two_digits t.second (b'Z' ∷ []))))))

-- `^\d{4}-\d{2}-\d{2}T\d{2}:\d{2}:\d{2}Z$`, read.
abbrev read_z : Text → Read Zone
read_z s = do rest ← read_unit b'Z' s; read_end utc rest

unfoldable pub read_utc : Text → Read Timestamp
unfolding read_date_time
read_utc s = read_date_time read_z s

-- The format of `normalizeExpiry`.
unfoldable pub read_timestamp : Text → Read Timestamp
unfolding read_date_time read_zone skip_milliseconds
read_timestamp s = read_date_time (λ rest. read_zone (skip_milliseconds rest)) s
