-- ===== src/Jalali/RoundTrip.antt =====
-- The two conversions are inverse to one another on the supported years.
use garnet_trader.Prelude.{
  ℕ, zero, suc, ◌+◌, ◌-◌, ◌*◌, ◌≤◌, ◌<◌, ◌≡◌, refl, ap, ◌∙◌, inl, inr, Bool, arith, ltb, leb,
  if◌then◌else◌, Bool-cases,
}
use garnet_trader.Prelude.Int.{ℤ, pos, ◌+ℤ◌, ◌-ℤ◌, ◌*ℤ◌}
use garnet_trader.Prelude.Result.{ok}
use garnet_trader.Jalali.{
  days_before_year, climb, year_of, last_ordinal, add_days, year_start, days_before_month,
  jalali_to_gregorian, gregorian_to_jalali, of_year_before, of_day, is_jalali_leap,
  jalali_leap_and_offset, march_date, is_leap,
}
use garnet_trader.Jalali.Years.{Year, supported, days_before_year-suc}

days_before_year_mono : (a b : ℕ) → a ≤ b → days_before_year a ≤ days_before_year b
unfolding days_before_year
days_before_year_mono a b h = omega arith

le-days_before_year : (g : ℕ) → g ≤ days_before_year g + 1
unfolding days_before_year
le-days_before_year g = omega arith

days_before_3798 : days_before_year 3798 ≡ 1386826
unfolding days_before_year
days_before_3798 = refl

climb_lem :
    (fuel y o g : ℕ)
    → 0 < y
    → y ≤ g
    → g < y + fuel
    → days_before_year g < o
    → o ≤ days_before_year (suc g)
    → climb fuel y o ≡ g
unfolding climb
climb_lem zero y o g p h k lo hi = omega arith
climb_lem (suc fuel) y o g p h k lo hi = elim (Bool-cases (ltb (days_before_year (y + 1)) o)) [
  | inl more ↦ ground (arith, climb_lem fuel (y + 1) o g, days_before_year_mono (suc g) (y + 1))
  | inr stop ↦ ground (arith, days_before_year_mono (y + 1) g)
]

-- The year of a day is the one whose first day it does not come before.
year_of_lem :
    (o g : ℕ) → 0 < g → days_before_year g < o → o ≤ days_before_year (suc g) → year_of o ≡ g
unfolding year_of
year_of_lem o g p lo hi =
    climb_lem o 1 o g (omega arith) p (omega (arith, le-days_before_year g)) lo hi

of_year_before_lem :
    (y o : ℕ) (s : Year y) → of_year_before (pos (suc y)) o ≡ ok (of_day (pos y) (o - s.start))
unfolding of_year_before
of_year_before_lem y o s =
    let e : pos (suc y) -ℤ pos 1 ≡ pos y = unfold ◌-ℤ◌ in ground arith in rw (e, s.start_is)

-- A day of year `y` is found in year `y`.
gregorian_to_jalali_lem :
    (y o : ℕ) (s : Year y)
    → s.start ≤ o
    → o < s.next
    → gregorian_to_jalali o ≡ ok (of_day (pos y) (o - s.start))
unfolding gregorian_to_jalali
gregorian_to_jalali_lem y o s lo hi = elim (Bool-cases (leb o (days_before_year (suc (y + 621))))) [
  | inl same ↦
      let e : year_of o ≡ y + 621 =
        year_of_lem o (y + 621) (omega arith) (omega arith) (ground arith) in
      let e' : pos (y + 621) -ℤ pos 621 ≡ pos y = unfold ◌-ℤ◌ in ground arith in
      rw (e, e', s.start_is) (ground arith)
  | inr later ↦
      let e : year_of o ≡ suc (y + 621) =
        year_of_lem o (suc (y + 621)) (omega arith) (ground arith)
          (ground (arith, days_before_year-suc (y + 621), days_before_year-suc (suc (y + 621)))) in
      let e' : pos (suc (y + 621)) -ℤ pos 621 ≡ pos (suc y) = unfold ◌-ℤ◌ in ground arith in
      rw (e, e', s.next_is) (ground (arith, of_year_before_lem y o s))
]

-- The day of the year, in numbers.
day_number : ℕ → ℕ → ℕ
day_number m d = (if leb m 6 then (m - 1) * 31 else (m - 7) * 30 + 186) + (d - 1)

-- A month of the year and a day of it: 31 days up to the sixth month, 30 up to the eleventh, and
-- in the last 30 in a leap year and 29 in any other.
abbrev pub month_length : Bool → ℕ → ℕ
month_length leap m = if leb m 6 then 31 else if leb m 11 then 30 else if leap then 30 else 29

abbrev pub IsDay : Bool → ℕ → ℕ → Type 0
IsDay leap m d = (1 ≤ m) × (m ≤ 12) × (1 ≤ d) × (d ≤ month_length leap m)

day_number-of_day :
    (leap : Bool) (jy : ℤ) (n : ℕ)
    → n < (if leap then 366 else 365)
    → let j = of_day jy n in
      (j.year ≡ jy) × IsDay leap j.month j.day × (day_number j.month j.day ≡ n)
unfolding of_day day_number
day_number-of_day leap jy n h = ground arith

days_before_month_lem :
    (m d : ℕ) → 1 ≤ m → 1 ≤ d → days_before_month (pos m) +ℤ pos d -ℤ pos 1 ≡ pos (day_number m d)
unfolding days_before_month day_number ◌+ℤ◌ ◌-ℤ◌ ◌*ℤ◌
days_before_month_lem m d h k = ground arith

add_days_lem : (o n : ℕ) → 1 ≤ o → o + n ≤ last_ordinal → add_days o (pos n) ≡ ok (o + n)
unfolding add_days ◌+ℤ◌
add_days_lem o n h k = ground arith

jalali_to_gregorian_lem :
    (y m d : ℕ) (s : Year y)
    → y < 3177
    → IsDay s.leap m d
    → (jalali_to_gregorian (pos y) (pos m) (pos d) ≡ ok (s.start + day_number m d))
      × (s.start + day_number m d < s.next)
unfolding jalali_to_gregorian
jalali_to_gregorian_lem y m d s h v =
    let small : day_number m d < (if s.leap then 366 else 365) =
      unfold day_number in ground arith in
    let fits : s.start + day_number m d ≤ last_ordinal =
      ground (arith, days_before_year_mono (y + 621) 3798, days_before_3798) in
    (
      rw (
        s.start_is,
        days_before_month_lem m d v.0 v.2,
        add_days_lem s.start (day_number m d) (omega arith) fits,
      ),
      ground arith,
    )

-- The first of Farvardin of the years 0 and 3177.
abbrev pub first_day : ℕ
first_day = 226530

abbrev pub end_day : ℕ
end_day = 1386905

ends : (year_start (pos 0) ≡ ok first_day) × (year_start (pos 3177) ≡ ok end_day)
unfolding year_start jalali_leap_and_offset march_date days_before_year is_leap
ends = (refl, refl)

locate :
    (k o e : ℕ)
    → k ≤ 3177
    → year_start (pos k) ≡ ok e
    → o < e
    → first_day ≤ o
    → (y : ℕ) × (s : Year y) × (y < 3177) × (s.start ≤ o) × (o < s.next)
locate zero o e h starts lt le =
    let same : e ≡ first_day = cc (starts, ends.0) in absurd (omega arith)
locate (suc k) o e h starts lt le =
    let s = supported k h in
    let same : e ≡ s.next = cc (starts, s.next_is) in
    elim (Bool-cases (leb s.start o)) [
      | inl here ↦ (k, s, h, ground arith, omega arith)
      | inr before ↦ locate k o s.start (omega arith) s.start_is (ground arith) le
    ]

-- Every day of the years 0 to 3176 converts to a Jalali date whose month and day are in range, and
-- which converts back to the same day.
pub jalali_to_gregorian-gregorian_to_jalali :
    (g : ℕ)
    → first_day ≤ g
    → g < end_day
    → (y m d : ℕ) × (leap : Bool) × (gregorian_to_jalali g
        ≡ ok (record { year = pos y; month = m; day = d }))
      × (is_jalali_leap (pos y) ≡ ok leap)
      × IsDay leap m d
      × (jalali_to_gregorian (pos y) (pos m) (pos d) ≡ ok g)
jalali_to_gregorian-gregorian_to_jalali g lo hi =
    let (y, s, h, from, to) = locate 3177 g end_day (omega arith) ends.1 hi lo in
    let j = of_day (pos y) (g - s.start) in
    let (year_is, day_is, number_is) =
      day_number-of_day s.leap (pos y) (g - s.start) (ground arith) in
    (
      y,
      j.month,
      j.day,
      s.leap,
      gregorian_to_jalali_lem y g s from to
          ∙ ap (λ (z : ℤ). ok (record { year = z; month = j.month; day = j.day })) year_is,
      s.leap_is,
      day_is,
      (jalali_to_gregorian_lem y j.month j.day s h day_is).0 ∙ ap ok (omega (arith, number_is)),
    )

-- A supported year has 366 days, from its first to that of the next, if `is_jalali_leap` says that
-- it is leap, and 365 if not.
pub year_length-is_jalali_leap :
    (y : ℕ)
    → y < 3177
    → (start next : ℕ) × (leap : Bool) × (year_start (pos y) ≡ ok start)
      × (year_start (pos (suc y)) ≡ ok next)
      × (is_jalali_leap (pos y) ≡ ok leap)
      × (next ≡ start + (if leap then 366 else 365))
year_length-is_jalali_leap y h =
    let s = supported y h in (s.start, s.next, s.leap, s.start_is, s.next_is, s.leap_is, s.long)
