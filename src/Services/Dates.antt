-- ===== src/Services/Dates.antt =====
-- app/parsing.py: dates, as Python's `datetime` has them.
pub mod Iso
use Prim.Native.Char.{Char, code}
use Prim.Native.String.{[], ◌∷◌}
use civic_archive_api.Prelude.{
  ℕ, zero, suc, ◌/◌, ◌+◌, ◌-◌, ◌*◌, ◌%◌, String, Bool, not, ◌&&◌, ◌||◌, Option, none, some, List,
  leb, eqb, if◌then◌else◌,
}
use civic_archive_api.Prelude.Int.{ℤ, pos}
use civic_archive_api.Prelude.Decimal.{char_or}
use civic_archive_api.Text.{split_by}
use civic_archive_api.Text.Number.{digit_value, zeros}

pub record Date : Type 0 where
  pub year : ℕ
  pub month : ℕ
  pub day : ℕ

-- A datetime: a date, the microseconds of the day, and the microseconds that it is ahead of UTC, if it
-- has an offset.
pub record DateTime : Type 0 where
  pub date : Date
  pub time : ℕ
  pub utc_offset : Option ℤ

abbrev pub is_leap : ℕ → Bool
is_leap year = eqb (year % 4) 0 && (not (eqb (year % 100) 0) || eqb (year % 400) 0)

abbrev pub days_in_month : ℕ → ℕ → ℕ
days_in_month year month =
    if eqb month 2
    then (if is_leap year then 29 else 28)
    else if eqb month 4 || eqb month 6 || eqb month 9 || eqb month 11
    then 30
    else 31

-- `date(year, month, day)`
unfoldable pub make_date : ℕ → ℕ → ℕ → Option Date
make_date year month day =
    if leb 1 year
      && leb year 9999
      && leb 1 month
      && leb month 12
      && leb 1 day
      && leb day (days_in_month year month)
    then some (record { year = year; month = month; day = day })
    else none

-- A digit between two of ASCII.
unfoldable pub digit_in : ℕ → ℕ → ℕ → Option ℕ
digit_in low high c = if leb (low + 48) c && leb c (high + 48) then some (c - 48) else none

abbrev pub two_digits : Option ℕ → Option ℕ → Option ℕ
two_digits (some a) (some b) = some (a * 10 + b)
two_digits (some a) none = none
two_digits none b = none

abbrev pub or_else : Option ℕ → Option ℕ → Option ℕ
or_else (some n) other = some n
or_else none other = other

-- `%m`: `1[0-2]|0[1-9]|[1-9]`
unfoldable pub month_value : String → Option ℕ
unfolding digit_in
month_value (c ∷ (d ∷ [])) =
    or_else (two_digits (digit_in 1 1 (code c)) (digit_in 0 2 (code d)))
      (two_digits (digit_in 0 0 (code c)) (digit_in 1 9 (code d)))
month_value (c ∷ []) = digit_in 1 9 (code c)
month_value _ = none

-- `%d`: `3[0-1]|[1-2]\d|0[1-9]|[1-9]| [1-9]`
unfoldable pub day_value : String → Option ℕ
unfolding digit_in digit_value
day_value (c ∷ (d ∷ [])) = or_else (two_digits (digit_in 3 3 (code c)) (digit_in 0 1 (code d))) (
    or_else (two_digits (digit_in 1 2 (code c)) (digit_value (code d) zeros)) (
      or_else (two_digits (digit_in 0 0 (code c)) (digit_in 1 9 (code d)))
        (if eqb (code c) b' ' then digit_in 1 9 (code d) else none)))
day_value (c ∷ []) = digit_in 1 9 (code c)
day_value _ = none

-- `%Y`: `\d\d\d\d`
unfoldable pub year_value : String → Option ℕ
unfolding digit_value
year_value (a ∷ (b ∷ (c ∷ (d ∷ [])))) =
    two_digits
      (two_digits (two_digits (digit_value (code a) zeros) (digit_value (code b) zeros))
        (digit_value (code c) zeros))
      (digit_value (code d) zeros)
year_value _ = none

abbrev pub date_of_values : Option ℕ → Option ℕ → Option ℕ → Option Date
date_of_values (some year) (some month) (some day) = make_date year month day
date_of_values (some year) (some month) none = none
date_of_values (some year) none day = none
date_of_values none month day = none

abbrev pub date_of_parts : List String → Option Date
date_of_parts (List.◌∷◌ y (List.◌∷◌ m (List.◌∷◌ d List.[]))) =
    date_of_values (year_value y) (month_value m) (day_value d)
date_of_parts _ = none

-- `datetime.strptime(s, "%Y-%m-%d").date()`; `none` is a `ValueError`
unfoldable pub parse_iso_date : String → Option Date
unfolding split_by year_value month_value day_value make_date
parse_iso_date s = date_of_parts (split_by (λ c. eqb c b'-') s)

-- The last digit of a number.
unfoldable pub last_digit : ℕ → Char
unfolding char_or
last_digit n = char_or "0" (n % 10) "0123456789"

-- `d.isoformat()`, with two and four digits
unfoldable pub iso_format : Date → String
unfolding last_digit
iso_format d =
    last_digit (d.year / 1000)
    ∷ (last_digit (d.year / 100)
        ∷ (last_digit (d.year / 10)
            ∷ (last_digit d.year
                ∷ ("-"
                    ∷ (last_digit (d.month / 10)
                        ∷ (last_digit d.month
                            ∷ ("-" ∷ (last_digit (d.day / 10) ∷ (last_digit d.day ∷ [])))))))))

-- The days of a year before a month.
abbrev pub days_before : ℕ → ℕ → ℕ
days_before year zero = 0
days_before year (suc month) =
    if eqb month 0 then 0 else days_before year month + days_in_month year month

-- `date.toordinal`, the number of the day
unfoldable pub day_number : Date → ℤ
day_number d =
    let y = d.year - 1 in
    pos (365 * y + y / 4 - y / 100 + y / 400 + days_before d.year d.month + d.day)
