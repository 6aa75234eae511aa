-- ===== src/Jalali.antt =====
-- The Jalali calendar of market/trading_calendar.py. A `date` is its proleptic Gregorian ordinal,
-- as in Python's datetime: day 1 is 0001-01-01. What the module uses of that library is written
-- out here: the ordinal of a day in March, the year of an ordinal, the sum with a timedelta and the
-- day of the week. Jalali years may be negative, so they are integers.
pub mod Years
pub mod RoundTrip
mod Tests
use garnet_trader.Prelude.{
  ℕ, zero, suc, ◌+◌, ◌-◌, ◌*◌, ◌/◌, ◌%◌, Bool, true, false, not, ◌&&◌, ◌||◌, List, [], ◌∷◌, ltb,
  leb, ◌==◌, if◌then◌else◌,
}
use garnet_trader.Prelude.Int.{ℤ, pos, negsuc, pos_part, ◌+ℤ◌, ◌-ℤ◌, ◌*ℤ◌, leb_ℤ, ltb_ℤ}
use garnet_trader.Prelude.Result.{Result, ok, raised}

-- datetime's calendar.
unfoldable pub days_before_year : ℕ → ℕ
days_before_year y = let p = y - 1 in p * 365 + p / 4 - p / 100 + p / 400

unfoldable pub is_leap : ℕ → Bool
is_leap y = (y % 4 == 0) && (not (y % 100 == 0) || (y % 400 == 0))

-- `date(y, 3, d)`
unfoldable pub march_date : ℕ → ℤ → Result ℕ
march_date y d =
    if leb_ℤ (pos 1) d && leb_ℤ d (pos 31)
    then ok (days_before_year y + (if is_leap y then 60 else 59) + pos_part d)
    else raised

-- The year of an ordinal: the first year that the next one does not start after.
unfoldable pub climb : ℕ → ℕ → ℕ → ℕ
climb zero y o = y
climb (suc fuel) y o = elim (ltb (days_before_year (y + 1)) o) [
  | true ↦ climb fuel (y + 1) o
  | false ↦ y
]

unfoldable pub year_of : ℕ → ℕ
year_of o = climb o 1 o

abbrev pub last_ordinal : ℕ
last_ordinal = 3652059

-- `day + timedelta(days=n)`
unfoldable pub add_days : ℕ → ℤ → Result ℕ
add_days o n =
    let m = pos o +ℤ n in
    if leb_ℤ (pos 1) m && leb_ℤ m (pos last_ordinal) then ok (pos_part m) else raised

-- `_BREAKS`, without its first entry, which is -61.
abbrev first_break : ℤ
first_break = negsuc 60

abbrev breaks : List ℤ
breaks =
    pos 9
    ∷ pos 38
    ∷ pos 199
    ∷ pos 426
    ∷ pos 686
    ∷ pos 756
    ∷ pos 818
    ∷ pos 1111
    ∷ pos 1181
    ∷ pos 1210
    ∷ pos 1635
    ∷ pos 2060
    ∷ pos 2097
    ∷ pos 2192
    ∷ pos 2262
    ∷ pos 2324
    ∷ pos 2394
    ∷ pos 2456
    ∷ pos 3178
    ∷ []

-- The loop over the breaks, on `jp`, `jump` and `leap_j`. Each break is greater than the one before.
record Walk : Type 0 where
  jp : ℤ
  jump : ℕ
  leap_j : ℤ

walk : ℤ → List ℤ → Walk → Walk
unfolding ◌+ℤ◌ ◌-ℤ◌
walk jy [] w = w
walk jy (jm ∷ rest) w =
    let jump = pos_part (jm -ℤ w.jp) in
    elim (ltb_ℤ jy jm) [
      | true ↦ record w { jump = jump }
      | false ↦ walk jy rest (record {
        jp = jm;
        jump = jump;
        leap_j = w.leap_j +ℤ pos (jump / 33 * 8 + jump % 33 / 4);
      })
    ]

pub record Offset : Type 0 where
  pub leap : ℕ
  pub gy : ℤ
  pub march : ℤ

-- `n // 33 * 8 + (n % 33 + 3) // 4`, and one more at the end of some blocks.
leaps_in : ℕ → ℕ → ℕ
leaps_in jump n =
    n / 33 * 8 + (n % 33 + 3) / 4 + (if (jump % 33 == 4) && (jump - n == 4) then 1 else 0)

-- In Python (x - 1) % 4 is never -1: it is (x + 3) % 4, so the source's last test never succeeds.
leap_of : ℕ → ℕ → ℕ
leap_of jump n =
    let n' = if ltb jump (n + 6) then n + (jump + 4) / 33 * 33 - jump else n in
    ((n' + 1) % 33 + 3) % 4

-- `n` and `gy` are not negative past the test of the range.
unfoldable pub jalali_leap_and_offset : ℤ → Result Offset
unfolding walk leaps_in leap_of ◌+ℤ◌ ◌-ℤ◌
jalali_leap_and_offset jy =
    if ltb_ℤ jy first_break || leb_ℤ (pos 3178) jy
    then raised
    else let gy = pos_part (jy +ℤ pos 621) in
      let w = walk jy breaks (record { jp = first_break; jump = 0; leap_j = negsuc 13 }) in
      let n = pos_part (jy -ℤ w.jp) in
      let leap_j = w.leap_j +ℤ pos (leaps_in w.jump n) in
      let leap_g = pos (gy / 4) -ℤ pos ((gy / 100 + 1) * 3 / 4) -ℤ pos 150 in
      ok (record { leap = leap_of w.jump n; gy = pos gy; march = pos 20 +ℤ leap_j -ℤ leap_g })

infixl 5 ◌>>=◌
abbrev pub ◌>>=◌ {ℓ κ} : {A : Type ℓ} {B : Type κ} → Result A → (A → Result B) → Result B
ok a >>= f = f a
raised >>= f = raised

unfoldable pub is_jalali_leap : ℤ → Result Bool
is_jalali_leap jy = do o ← jalali_leap_and_offset jy; ok (o.leap == 0)

-- The first of Farvardin of a year.
unfoldable pub year_start : ℤ → Result ℕ
year_start jy = do o ← jalali_leap_and_offset jy; march_date (pos_part o.gy) o.march

unfoldable pub days_before_month : ℤ → ℤ
days_before_month jm =
    if leb_ℤ jm (pos 6) then (jm -ℤ pos 1) *ℤ pos 31 else (jm -ℤ pos 7) *ℤ pos 30 +ℤ pos 186

unfoldable pub jalali_to_gregorian : ℤ → ℤ → ℤ → Result ℕ
jalali_to_gregorian jy jm jd = do
  start ← year_start jy
  add_days start (days_before_month jm +ℤ jd -ℤ pos 1)

pub record JalaliDate : Type 0 where
  pub year : ℤ
  pub month : ℕ
  pub day : ℕ

-- The end of `gregorian_to_jalali`: the month and the day from the days since the year began.
unfoldable pub of_day : ℤ → ℕ → JalaliDate
of_day jy n =
    if ltb n 186
    then record { year = jy; month = n / 31 + 1; day = n % 31 + 1 }
    else record { year = jy; month = (n - 186) / 30 + 7; day = (n - 186) % 30 + 1 }

unfoldable pub of_year_before : ℤ → ℕ → Result JalaliDate
of_year_before jy g = do start ← year_start (jy -ℤ pos 1); ok (of_day (jy -ℤ pos 1) (g - start))

-- The year that begins in March of the same Gregorian year, or the one before it.
unfoldable pub gregorian_to_jalali : ℕ → Result JalaliDate
gregorian_to_jalali g = do
  let jy = pos (year_of g) -ℤ pos 621
  start ← year_start jy
  if ltb g start then of_year_before jy g else ok (of_day jy (g - start))

-- `FIXED_JALALI_HOLIDAYS`
unfoldable pub in_fixed_holidays : ℕ → ℕ → Bool
in_fixed_holidays jm jd =
    (jm == 1) && (leb 1 jd && leb jd 4 || (jd == 12) || (jd == 13))
    || (jm == 3) && ((jd == 14) || (jd == 15))
    || (jm == 11) && (jd == 22)
    || (jm == 12) && (jd == 29)

unfoldable pub is_fixed_holiday : ℕ → Result Bool
is_fixed_holiday day = do j ← gregorian_to_jalali day; ok (in_fixed_holidays j.month j.day)

-- `weekday()` is 0 on Monday; Thursday is 3 and Friday 4.
unfoldable pub is_weekend : ℕ → Bool
is_weekend day = let w = (day + 6) % 7 in (w == 3) || (w == 4)
