-- ===== src/Services/Minutes.antt =====
-- `_normalize_minutes` of app/services/minutes_service.py.
pub mod Clean
use civic_archive_api.Prelude.{ℕ, String, Option, none, some, if◌then◌else◌}
use civic_archive_api.Prelude.Int.{ℤ}
use civic_archive_api.Text.{is_empty, or_none, strip}
use civic_archive_api.Json.{Json, str}
use civic_archive_api.Errors.{bad_request, Result, ok, raise, ◌>>=◌}
use civic_archive_api.Repositories.Minutes.{Minutes}
use civic_archive_api.Services.Dates.{DateTime, day_number}
use civic_archive_api.Services.Values.{
  Value, json, optional_str, coerce_meeting_no_int, combine_meeting_no, parse_date,
}

-- The item of a request, a dict; a missing key is like one that holds `None`.
pub record MinutesItem : Type 0 where
  pub council : Value
  pub committee : Value
  pub session : Value
  pub meeting_no : Value
  pub url : Value
  pub meeting_date : Value
  pub content : Value
  pub tag : Json
  pub attendee : Json
  pub agenda : Json

-- Two texts that must not be blank, stripped.
unfoldable pub require_texts : Option String → Option String → Result (String × String)
require_texts (some council) (some url) = ok (council, url)
require_texts (some council) none = raise (bad_request "Missing required fields: council, url")
require_texts none url = raise (bad_request "Missing required fields: council, url")

abbrev pub day_of : Option DateTime → Option ℤ
day_of none = none
day_of (some t) = some (day_number t.date)

-- The dict that is returned.
abbrev pub minutes_of : MinutesItem → String × String → Option ℤ → Option DateTime → Minutes
minutes_of item texts meeting_no_int meeting_date = record {
  council = texts.0;
  committee = optional_str item.committee;
  session = optional_str item.session;
  meeting_no = meeting_no_int;
  meeting_no_combined =
      combine_meeting_no (optional_str item.session) item.meeting_no meeting_no_int;
  url = texts.1;
  meeting_date = day_of meeting_date;
  content = optional_str item.content;
  tag = item.tag;
  attendee = item.attendee;
  agenda = item.agenda;
}

unfoldable pub normalize_minutes : (Json → String) → MinutesItem → Result Minutes
unfolding require_texts
normalize_minutes shown item = do
  texts ← require_texts (optional_str item.council) (optional_str item.url)
  meeting_no_int ← coerce_meeting_no_int item.meeting_no
  meeting_date ← parse_date shown item.meeting_date
  ok (minutes_of item texts meeting_no_int meeting_date)
