-- ===== src/Routes/Tests.antt =====
-- Requests for minutes, and the theorems about them.
use civic_archive_api.Prelude.{
  ◌≡◌, ◌⊎◌, refl, all, Bool, true, false, String, none, some, [], ◌∷◌, arith, if◌then◌else◌,
}
use civic_archive_api.Prelude.Decimal.{decimal, digits}
use civic_archive_api.Prelude.Int.{pos}
use civic_archive_api.Text.{text_length, strip, is_empty, or_none, split_by}
use civic_archive_api.Json.{Json, null, str, int}
use civic_archive_api.Errors.{database_error, ok, raise, bad_request}
use civic_archive_api.Samples.{defaults}
use civic_archive_api.Repositories.Rows.{Table, Counts, upsert_rows}
use civic_archive_api.Repositories.Dedupe.{keep_last}
use civic_archive_api.Repositories.Common.{dedupe_rows_by_key, dedupe_reversed}
use civic_archive_api.Repositories.Upsert.{overlay, stored, last_with}
use civic_archive_api.Repositories.Removal.{is_found}
use civic_archive_api.Repositories.Minutes.{
  Minutes, minutes_url, minutes_fit, upsert_minutes, get_minutes,
}
use civic_archive_api.Services.Dates.{
  parse_iso_date, day_value, month_value, year_value, make_date, day_number,
}
use civic_archive_api.Services.Values.{
  json, optional_str, coerce_meeting_no_int, combine_meeting_no, numbered, parse_date,
}
use civic_archive_api.Services.Minutes.{MinutesItem, require_texts, normalize_minutes}
use civic_archive_api.Routes.{enforce_ingest_batch_limit, normalize_all, too_many, not_found}
use civic_archive_api.Routes.Minutes.{save_minutes, show_minutes, remove_minutes}
use civic_archive_api.Routes.Minutes.Laws.{AllClean, save_minutes-stored, remove_minutes-once}

abbrev shown : Json → String
shown v = "value"

abbrev takes : Minutes → Bool
takes m = true

abbrev item : MinutesItem
item = record {
  council = json (str " seoul ");
  committee = json (str " ");
  session = json (str "301");
  meeting_no = json (int (pos 4));
  url = json (str "m1");
  meeting_date = json (str "1970-1-01");
  content = json null;
  tag = null;
  attendee = null;
  agenda = null;
}

abbrev normal : Minutes
normal = record {
  council = "seoul";
  committee = none;
  session = some "301";
  meeting_no = some (pos 4);
  meeting_no_combined = some "301 4차";
  url = "m1";
  meeting_date = some (pos 719163);
  content = none;
  tag = null;
  attendee = null;
  agenda = null;
}

service : Unit {0}
unfolding normalize_minutes require_texts optional_str coerce_meeting_no_int combine_meeting_no
    numbered parse_date parse_iso_date day_value month_value year_value make_date day_number
    split_by strip is_empty or_none decimal digits normalize_all enforce_ingest_batch_limit
    save_minutes remove_minutes show_minutes
service = tt

whole_item : normalize_minutes shown item ≡ ok normal
unfolding service
whole_item = refl

no_day :
    parse_date shown (json (str "2026-02-29"))
    ≡ raise (bad_request "meeting_date format error (YYYY-MM-DD): 2026-02-29")
unfolding service
no_day = refl

one_too_many :
    save_minutes
      (record defaults { ingest_max_batch_items = pos 1 })
      takes
      shown
      9
      (item ∷ item ∷ [])
      (record { rows = []; next_id = 1 })
    ≡ raise (too_many (pos 1) 2)
unfolding service
one_too_many = refl

abbrev no_minutes : Table Minutes
no_minutes = record { rows = []; next_id = 1 }

both_normal : normalize_all (normalize_minutes shown) (item ∷ item ∷ []) ≡ ok (normal ∷ normal ∷ [])
unfolding service
both_normal = refl

save_minutes-stored_example :
    AllClean (normal ∷ normal ∷ [])
    × (((all (minutes_fit takes) (keep_last minutes_url (normal ∷ normal ∷ [])) ≡ false)
          × (save_minutes defaults takes shown 9 (item ∷ item ∷ []) no_minutes
              ≡ raise database_error))
        ⊎ ((all (minutes_fit takes) (keep_last minutes_url (normal ∷ normal ∷ [])) ≡ true)
            × (counts : Counts) × (t' : Table Minutes) × (save_minutes defaults takes shown 9
                  (item ∷ item ∷ [])
                  no_minutes
                ≡ ok (counts, t'))
            × ((url : String)
                → stored minutes_url url t'.rows
                  ≡ overlay
                      (last_with minutes_url url (normal ∷ normal ∷ []))
                      (stored minutes_url url no_minutes.rows))))
save_minutes-stored_example =
    save_minutes-stored defaults 200 takes shown 9 (item ∷ item ∷ []) (normal ∷ normal ∷ [])
      no_minutes refl (omega arith) both_normal

-- A number of more than 32 bits is normalised, and fails in the database.
too_great :
    save_minutes defaults takes shown 9
      (record item { meeting_no = json (int (pos 3_000_000_000)) } ∷ [])
      no_minutes
    ≡ raise database_error
unfolding service upsert_minutes upsert_rows dedupe_rows_by_key dedupe_reversed text_length
too_great = refl

abbrev one_sitting : Table Minutes
one_sitting = record {
  rows = record { id = 1; columns = normal; created_at = 5; updated_at = 5 } ∷ [];
  next_id = 2;
}

remove_minutes-once_example :
    ((remove_minutes 1 one_sitting).0
      ≡ (if is_found (get_minutes 1 one_sitting) then ok 1 else raise not_found))
    × ((remove_minutes 1 (remove_minutes 1 one_sitting).1).0 ≡ raise not_found)
    × (show_minutes 1 (remove_minutes 1 one_sitting).1 ≡ raise not_found)
remove_minutes-once_example = remove_minutes-once 1 one_sitting
