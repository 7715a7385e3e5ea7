-- ===== src/Services/News/Tests.antt =====
-- The times of articles.
use civic_archive_api.Prelude.{◌≡◌, refl, none, some}
use civic_archive_api.Prelude.Int.{pos}
use civic_archive_api.Text.{strip, is_empty}
use civic_archive_api.Json.{str}
use civic_archive_api.Errors.{ok, raise, bad_request, overflow_error}
use civic_archive_api.Services.Dates.{DateTime, day_number}
use civic_archive_api.Services.Values.{json, datetime}
use civic_archive_api.Services.News.{
  Datetimes, normalize_utc, has_time, replace_z, try_formats, parse_text, parse_datetime,
}

abbrev nine : DateTime
nine = record {
  date = record { year = 1970; month = 1; day = 1 };
  time = 32400000000;
  utc_offset = some (pos 32400000000);
}

abbrev first_day : DateTime
first_day = record {
  date = record { year = 1; month = 1; day = 1 };
  time = 0;
  utc_offset = some (pos 3600000000);
}

abbrev no_texts : Datetimes
no_texts = record { fromisoformat = λ s. none; strptime = λ format s. none; shown = λ v. "value" }

times : Unit {0}
unfolding parse_datetime parse_text try_formats has_time replace_z normalize_utc day_number strip
    is_empty
times = tt

offset_taken_off : parse_datetime no_texts (datetime nine) ≡ ok (some (pos 0))
unfolding times
offset_taken_off = refl

before_year_one : parse_datetime no_texts (datetime first_day) ≡ raise overflow_error
unfolding times
before_year_one = refl

no_format :
    parse_datetime no_texts (json (str "2026-1"))
    ≡ raise (bad_request "published_at format error: 2026-1")
unfolding times
no_format = refl

z_replaced : replace_z "2026-01-01T00:00:00Z" ≡ "2026-01-01T00:00:00+00:00"
unfolding times
z_replaced = refl
