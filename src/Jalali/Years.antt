-- ===== src/Jalali/Years.antt =====
-- The supported years, by evaluation: where each begins, and how long it is.
use garnet_trader.Prelude.{
  ℕ, zero, suc, ◌+◌, ◌≤◌, ◌<◌, ◌≡◌, ◌⊎◌, inl, inr, refl, Bool, true, false, ◌&&◌, arith, ◌==◌,
  if◌then◌else◌,
}
use garnet_trader.Prelude.Int.{pos, pos_part, leb_ℤ}
use garnet_trader.Prelude.Result.{Result, ok, raised}
use garnet_trader.Jalali.{
  Offset, jalali_leap_and_offset, year_start, march_date, days_before_year, is_leap, is_jalali_leap,
}

abbrev ok_and : Result Offset → (Offset → Bool) → Bool
ok_and raised p = false
ok_and (ok o) p = p o

-- The March day of the first of Farvardin, as a number.
abbrev march_of : Offset → ℕ
march_of o = pos_part o.march

gregorian_length : ℕ → ℕ
unfolding is_leap
gregorian_length gy = if is_leap (suc gy) then 366 else 365

-- The year's first day stands in March, and from it to the next year's there are 366 days if the
-- year is leap and 365 if it is not.
good_offsets : ℕ → Offset → Offset → Bool
unfolding gregorian_length
good_offsets y o o' =
    leb_ℤ (pos 1) o.march
    && leb_ℤ o.march (pos 31)
    && leb_ℤ (pos 1) o'.march
    && leb_ℤ o'.march (pos 31)
    && (pos_part o.gy == y + 621)
    && (pos_part o'.gy == y + 622)
    && (gregorian_length (y + 621) + march_of o' == march_of o + (if o.leap == 0 then 366 else 365))

good_year : ℕ → Bool
good_year y =
    ok_and (jalali_leap_and_offset (pos y))
      λ o. ok_and (jalali_leap_and_offset (pos (suc y))) λ o'. good_offsets y o o'

all_below : ℕ → (ℕ → Bool) → Bool
all_below zero p = true
all_below (suc n) p = p n && all_below n p

good_years : all_below 3177 good_year ≡ true
unfolding all_below good_year good_offsets jalali_leap_and_offset
good_years = refl

all_below_lem : (n : ℕ) (p : ℕ → Bool) (x : ℕ) → all_below n p ≡ true → x < n → p x ≡ true
unfolding all_below
all_below_lem zero p x h lt = absurd (omega arith)
all_below_lem (suc n) p x h lt = ground (arith, all_below_lem n p x)

pub days_before_year-suc :
    (g : ℕ)
    → 0 < g
    → days_before_year (suc g) ≡ days_before_year g + (if is_leap g then 366 else 365)
unfolding days_before_year is_leap
days_before_year-suc g h = ground arith

-- The year `y`: its first day, whether it is leap, and the first day of the next year.
pub record Year (y : ℕ) : Type 0 where
  pub start : ℕ
  pub next : ℕ
  pub leap : Bool
  pub start_is : year_start (pos y) ≡ ok start
  pub next_is : year_start (pos (suc y)) ≡ ok next
  pub leap_is : is_jalali_leap (pos y) ≡ ok leap
  pub after : days_before_year (y + 621) < start
  pub before : start ≤ days_before_year (y + 621) + 91
  pub long : next ≡ start + (if leap then 366 else 365)

module _ (y : ℕ) (o o' : Offset) (good : good_offsets y o o' ≡ true) where
  march_date_lem :
      march_date (pos_part o.gy) o.march
      ≡ ok (days_before_year (y + 621) + (if is_leap (y + 621) then 60 else 59) + march_of o)
  unfolding march_date good_offsets
  march_date_lem = ground arith

  march_date_next :
      march_date (pos_part o'.gy) o'.march
      ≡ ok (
          days_before_year (suc (y + 621))
          + (if is_leap (suc (y + 621)) then 60 else 59)
          + march_of o')
  unfolding march_date good_offsets
  march_date_next = ground arith

  year_lengths :
      (gregorian_length (y + 621) + march_of o' ≡ march_of o + (if o.leap == 0 then 366 else 365))
      × (1 ≤ march_of o)
      × (march_of o ≤ 31)
  unfolding good_offsets
  year_lengths = ground arith

Year-of_offsets :
    (y : ℕ) (o o' : Offset)
    → jalali_leap_and_offset (pos y) ≡ ok o
    → jalali_leap_and_offset (pos (suc y)) ≡ ok o'
    → good_offsets y o o' ≡ true
    → Year y
unfolding gregorian_length year_start is_jalali_leap
Year-of_offsets y o o' e e' good = record {
  start = days_before_year (y + 621) + (if is_leap (y + 621) then 60 else 59) + march_of o;
  next =
      days_before_year (suc (y + 621)) + (if is_leap (suc (y + 621)) then 60 else 59) + march_of o';
  leap = o.leap == 0;
  start_is = rw (e, march_date_lem y o o' good) refl;
  next_is = rw (e', march_date_next y o o' good) refl;
  leap_is = rw e refl;
  after = ground (arith, year_lengths y o o' good);
  before = ground (arith, year_lengths y o o' good);
  long = ground (arith, year_lengths y o o' good, days_before_year-suc (y + 621) (omega arith));
}

Result-cases {ℓ} : {A : Type ℓ} (r : Result A) → (r ≡ raised) ⊎ ((a : A) × (r ≡ ok a))
Result-cases raised = inl refl
Result-cases (ok a) = inr (a, refl)

-- Every year from 0 to 3176 is such a year.
pub supported : (y : ℕ) → y < 3177 → Year y
unfolding good_year
supported y h =
    let good : good_year y ≡ true = all_below_lem 3177 good_year y good_years h in
    elim (Result-cases (jalali_leap_and_offset (pos y))) [
      | inl e ↦ absurd (ground arith)
      | inr (o, e) ↦ elim (Result-cases (jalali_leap_and_offset (pos (suc y)))) [
        | inl e' ↦ absurd (ground arith)
        | inr (o', e') ↦ Year-of_offsets y o o' e e' (ground arith)
      ]
    ]
