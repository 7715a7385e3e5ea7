-- ===== src/Services/News.antt =====
-- app/services/news_service.py, with `parse_datetime` of app/utils.py and `parse_datetime_value` of
-- app/parsing.py. An instant is in microseconds since 1970.
pub mod Clean
mod Tests
use Prim.Native.Char.{code}
use Prim.Native.String
use civic_archive_api.Prelude.{
  ℕ, ◌+◌, ◌*◌, String, Bool, true, false, not, ◌&&◌, ◌||◌, Option, none, some, List, eqb,
  if◌then◌else◌,
}
use civic_archive_api.Prelude.Int.{ℤ, pos, pos_part, leb_ℤ, ◌-ℤ◌}
use civic_archive_api.Text.{is_empty, strip}
use civic_archive_api.Json.{Json, null, str}
use civic_archive_api.Errors.{overflow_error, bad_request, Result, ok, raise, ◌>>=◌}
use civic_archive_api.Repositories.News.{Article}
use civic_archive_api.Services.Dates.{Date, DateTime, day_number}
use civic_archive_api.Services.Values.{Value, json, datetime, date, optional_str}

-- `datetime.fromisoformat`, `datetime.strptime` on a format and a text, and the text of a value in an
-- error message; `none` is a `ValueError`.
pub record Datetimes : Type 0 where
  pub fromisoformat : String → Option DateTime
  pub strptime : String → String → Option DateTime
  pub shown : Json → String

abbrev day_length : ℕ
day_length = 86400000000

-- Microseconds since the day before year 1.
abbrev since_start : DateTime → ℤ
since_start t = pos (pos_part (day_number t.date) * day_length + t.time)

abbrev epoch : ℤ
epoch = pos (719163 * day_length)

-- The first and the last instant that a datetime in UTC can have.
abbrev first_instant : ℤ
first_instant = pos day_length -ℤ epoch

abbrev last_instant : ℤ
last_instant = pos (3652060 * day_length) -ℤ pos 1 -ℤ epoch

abbrev is_representable : ℤ → Bool
is_representable at = leb_ℤ first_instant at && leb_ℤ at last_instant

-- `_normalize_utc`: a time without an offset is taken to be in UTC.
unfoldable pub normalize_utc : DateTime → Result ℤ
unfolding day_number
normalize_utc t = elim t.utc_offset [
  | none ↦ ok (since_start t -ℤ epoch)
  | some offset ↦
      let at = since_start t -ℤ offset -ℤ epoch in
      if is_representable at then ok at else raise overflow_error
]

abbrev datetime_formats : List String
datetime_formats =
    List.◌∷◌ "%Y-%m-%dT%H:%M:%SZ"
      (List.◌∷◌ "%Y-%m-%d %H:%M:%S" (List.◌∷◌ "%Y-%m-%dT%H:%M:%S" List.[]))

-- `"T" in value or " " in value`
unfoldable pub has_time : String → Bool
has_time String.[] = false
has_time (String.◌∷◌ c s) = eqb (code c) b'T' || eqb (code c) b' ' || has_time s

-- `value.replace("Z", "+00:00")`
unfoldable pub replace_z : String → String
replace_z String.[] = ""
replace_z (String.◌∷◌ c s) =
    let rest = replace_z s in
    if eqb (code c) b'Z' then String.◌++◌ "+00:00" rest else String.◌∷◌ c rest

abbrev instant_of : DateTime → Result (Option ℤ)
instant_of t = do at ← normalize_utc t; ok (some at)

module _ (library : Datetimes) where
  -- The loop over the formats, or the error of a text that has none of them.
  unfoldable pub try_formats : Result (Option ℤ) → String → List String → Result (Option ℤ)
  unfolding normalize_utc
  try_formats failure value List.[] = failure
  try_formats failure value (List.◌∷◌ format formats) = elim (library.strptime format value) [
    | none ↦ try_formats failure value formats
    | some t ↦ instant_of t
  ]

  unfoldable pub parse_text : Result (Option ℤ) → String → Result (Option ℤ)
  unfolding try_formats has_time replace_z normalize_utc
  parse_text failure value =
      elim (if has_time value then library.fromisoformat (replace_z value) else none) [
        | none ↦ try_formats failure value datetime_formats
        | some t ↦ instant_of t
      ]

  -- `parse_datetime(_as_datetime_input(value))`
  unfoldable pub parse_datetime : Value → Result (Option ℤ)
  unfolding parse_text normalize_utc is_empty strip
  parse_datetime (datetime t) = instant_of t
  parse_datetime (date d) =
      ok (some (since_start (record { date = d; time = 0; utc_offset = none }) -ℤ epoch))
  parse_datetime (json null) = ok none
  parse_datetime (json (str s)) =
      if is_empty (strip s)
      then ok none
      else parse_text (raise (bad_request (String.◌++◌ "published_at format error: " s))) (strip s)
  parse_datetime (json v) =
      raise (bad_request (String.◌++◌ "published_at format error: " (library.shown v)))

-- The item of a request, a dict; a missing key is like one that holds `None`.
pub record NewsItem : Type 0 where
  pub source : Value
  pub title : Value
  pub url : Value
  pub published_at : Value
  pub author : Value
  pub summary : Value
  pub content : Value
  pub keywords : Json

-- Two texts that must not be blank, stripped.
unfoldable pub require_title_and_url : Option String → Option String → Result (String × String)
require_title_and_url (some title) (some url) = ok (title, url)
require_title_and_url (some title) none = raise (bad_request "Missing required fields: title, url")
require_title_and_url none url = raise (bad_request "Missing required fields: title, url")

abbrev pub article_of : NewsItem → String × String → Option ℤ → Article
article_of item texts published_at = record {
  source = optional_str item.source;
  title = texts.0;
  url = texts.1;
  published_at = published_at;
  author = optional_str item.author;
  summary = optional_str item.summary;
  content = optional_str item.content;
  keywords = item.keywords;
}

unfoldable pub normalize_article : Datetimes → NewsItem → Result Article
unfolding require_title_and_url parse_datetime
normalize_article library item = do
  texts ← require_title_and_url (optional_str item.title) (optional_str item.url)
  published_at ← parse_datetime library item.published_at
  ok (article_of item texts published_at)
