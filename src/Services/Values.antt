-- ===== src/Services/Values.antt =====
-- app/utils.py and the parts of app/services that the items share: texts, dates, meeting numbers.
use Prim.Native.String
use Prim.Native.Nat.{◌^◌}
use civic_archive_api.Prelude.{suc, ◌/◌, String, true, false, Option, none, some, if◌then◌else◌}
use civic_archive_api.Prelude.Int.{ℤ, pos, negsuc, negate}
use civic_archive_api.Prelude.Decimal.{decimal}
use civic_archive_api.Text.{is_empty, or_none, strip}
use civic_archive_api.Json.{Float, finite, infinity, nan, Json, null, bool, int, float, str}
use civic_archive_api.Errors.{overflow_error, bad_request, Result, ok, raise}
use civic_archive_api.Services.Dates.{Date, DateTime, parse_iso_date}

-- A value of an item: JSON, or a date that the schema has parsed.
pub data Value : Type 0 where
  json : Json → Value
  datetime : DateTime → Value
  date : Date → Value

-- `_optional_str`
unfoldable pub optional_str : Value → Option String
unfolding strip or_none
optional_str (json (str s)) = or_none (strip s)
optional_str _ = none

-- `str(n)` of an int
abbrev pub show_ℤ : ℤ → String
show_ℤ (pos n) = decimal n
show_ℤ (negsuc n) = String.◌++◌ "-" (decimal (suc n))

-- `int(x)` of a float, which drops the fraction
unfoldable pub int_of_float : Float → Result (Option ℤ)
int_of_float (finite (pos m) k) = ok (some (pos (m / 2 ^ k)))
int_of_float (finite (negsuc m) k) = ok (some (negate (suc m / 2 ^ k)))
int_of_float infinity = raise overflow_error
int_of_float nan = ok none

-- A value that is not a number raises `TypeError`, and NaN `ValueError`: both give none.
unfoldable pub coerce_meeting_no_int : Value → Result (Option ℤ)
unfolding int_of_float
coerce_meeting_no_int (json (bool true)) = ok (some (pos 1))
coerce_meeting_no_int (json (bool false)) = ok (some (pos 0))
coerce_meeting_no_int (json (int n)) = ok (some n)
coerce_meeting_no_int (json (float x)) = int_of_float x
coerce_meeting_no_int _ = ok none

-- The text with the number: after the session, if there is one.
unfoldable pub numbered : Option String → Option ℤ → Option String
unfolding is_empty
numbered session none = session
numbered none (some n) = some (String.◌++◌ (show_ℤ n) "차")
numbered (some session) (some n) =
    if is_empty session
    then some (String.◌++◌ (show_ℤ n) "차")
    else some (String.◌++◌ session (String.◌++◌ " " (String.◌++◌ (show_ℤ n) "차")))

unfoldable pub combine_meeting_no : Option String → Value → Option ℤ → Option String
unfolding numbered strip is_empty
combine_meeting_no session (json (str raw)) n =
    if is_empty (strip raw) then numbered session n else some (strip raw)
combine_meeting_no session _ n = numbered session n

abbrev pub midnight : Date → DateTime
midnight d = record { date = d; time = 0; utc_offset = none }

-- A date that a text was parsed to, or the error.
abbrev pub parsed_date : String → Option Date → Result (Option DateTime)
parsed_date s (some d) = ok (some (midnight d))
parsed_date s none = raise (bad_request (String.◌++◌ "meeting_date format error (YYYY-MM-DD): " s))

-- `parse_date(_as_date_input(value))`, where `shown` is the text of a value in a message.
unfoldable pub parse_date : (Json → String) → Value → Result (Option DateTime)
unfolding parse_iso_date is_empty
parse_date shown (datetime t) = ok (some (midnight t.date))
parse_date shown (date d) = ok (some (midnight d))
parse_date shown (json null) = ok none
parse_date shown (json (str s)) = if is_empty s then ok none else parsed_date s (parse_iso_date s)
parse_date shown (json v) =
    raise (bad_request (String.◌++◌ "meeting_date format error (YYYY-MM-DD): " (shown v)))
