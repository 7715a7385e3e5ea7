-- ===== src/Services/Dates/Iso.antt =====
-- Dates as texts.
use Prim.Native.Char.{code}
use Prim.Native.String.{[], ◌∷◌}
use civic_archive_api.Prelude.{
  ℕ, Bool-cases, inl, inr, List, ◌≤◌, ◌-◌, ◌+◌, ◌/◌, ◌%◌, ◌<◌, ◌≡◌, refl, ap, ◌∙◌, Bool, true,
  false, some, arith, eqb, leb, ◌&&◌,
}
use civic_archive_api.Prelude.Decimal.{code_of_digit}
use civic_archive_api.Text.{split_by, widen}
use civic_archive_api.Text.Number.{digit_value, zeros}
use civic_archive_api.Services.Dates.{
  Date, last_digit, iso_format, parse_iso_date, year_value, month_value, day_value, make_date,
  digit_in, days_in_month,
}

code_of_last : (n : ℕ) → code (last_digit n) ≡ 48 + n % 10
unfolding last_digit
code_of_last n = code_of_digit (n % 10) (omega arith)

digit_value_ascii :
    (c : ℕ) (rest : List ℕ) → 48 ≤ c → c < 58 → digit_value c (List.◌∷◌ 48 rest) ≡ some (c - 48)
unfolding digit_value
digit_value_ascii c rest low high = ground arith

value_of_last : (n : ℕ) → digit_value (code (last_digit n)) zeros ≡ some (n % 10)
value_of_last n =
    rw (code_of_last n)
      (digit_value_ascii (48 + n % 10) _ (omega arith) (omega arith) ∙ ap some (omega arith))

no_dash : (n : ℕ) → eqb (code (last_digit n)) b'-' ≡ false
no_dash n = rw (code_of_last n) (ground arith)

-- The three parts of the text of a date.
split_iso :
    (d : Date)
    → split_by (λ c. eqb c b'-') (iso_format d)
      ≡ List.◌∷◌
          (last_digit (d.year / 1000)
            ∷ (last_digit (d.year / 100) ∷ (last_digit (d.year / 10) ∷ (last_digit d.year ∷ []))))
          (List.◌∷◌
            (last_digit (d.month / 10) ∷ (last_digit d.month ∷ []))
            (List.◌∷◌ (last_digit (d.day / 10) ∷ (last_digit d.day ∷ [])) List.[]))
unfolding split_by iso_format widen
split_iso d =
    rw
      (
        no_dash (d.year / 1000),
        no_dash (d.year / 100),
        no_dash (d.year / 10),
        no_dash d.year,
        no_dash (d.month / 10),
        no_dash d.month,
        no_dash (d.day / 10),
        no_dash d.day,
      )
      refl

year_value_iso :
    (n : ℕ)
    → n ≤ 9999
    → year_value (
        last_digit (n / 1000)
        ∷ (last_digit (n / 100) ∷ (last_digit (n / 10) ∷ (last_digit n ∷ []))))
      ≡ some n
unfolding year_value
year_value_iso n h =
    rw (value_of_last (n / 1000), value_of_last (n / 100), value_of_last (n / 10), value_of_last n)
      (ap some (omega arith))

month_value_iso :
    (n : ℕ) → 1 ≤ n → n ≤ 12 → month_value (last_digit (n / 10) ∷ (last_digit n ∷ [])) ≡ some n
unfolding month_value digit_in
month_value_iso n low high = rw (code_of_last (n / 10), code_of_last n) (ground arith)

day_value_iso :
    (n : ℕ) → 1 ≤ n → n ≤ 31 → day_value (last_digit (n / 10) ∷ (last_digit n ∷ [])) ≡ some n
unfolding day_value digit_in
day_value_iso n low high =
    rw (value_of_last n, code_of_last (n / 10), code_of_last n) (ground arith)

-- The date is one of the calendar.
abbrev pub IsDate : Date → Type 0
IsDate d = make_date d.year d.month d.day ≡ some d

-- The test of `make_date`.
abbrev is_date : ℕ → ℕ → ℕ → Bool
is_date year month day =
    leb 1 year
    && leb year 9999
    && leb 1 month
    && leb month 12
    && leb 1 day
    && leb day (days_in_month year month)

days_bound : (year month : ℕ) → days_in_month year month ≤ 31
days_bound year month = ground arith

is_date-eq-true :
    (year month day : ℕ)
    → is_date year month day ≡ true
    → (year ≤ 9999) × (1 ≤ month) × (month ≤ 12) × (1 ≤ day) × (day ≤ 31)
is_date-eq-true year month day h =
    let long = days_bound year month in
    (ground arith, ground arith, ground arith, ground arith, ground arith)

IsDate-bounds :
    (d : Date)
    → IsDate d
    → (d.year ≤ 9999) × (1 ≤ d.month) × (d.month ≤ 12) × (1 ≤ d.day) × (d.day ≤ 31)
unfolding make_date
IsDate-bounds d h = elim (Bool-cases (is_date d.year d.month d.day)) [
  | inl valid ↦ is_date-eq-true d.year d.month d.day valid
  | inr invalid ↦ let h' = rw invalid at h in cc
]

-- A date that exists is read back from its text.
pub parse_iso_date-iso_format : (d : Date) → IsDate d → parse_iso_date (iso_format d) ≡ some d
unfolding parse_iso_date
parse_iso_date-iso_format d h =
    let (year, month_low, month_high, day_low, day_high) = IsDate-bounds d h in
    rw
      (
        split_iso d,
        year_value_iso d.year year,
        month_value_iso d.month month_low month_high,
        day_value_iso d.day day_low day_high,
      )
      h
