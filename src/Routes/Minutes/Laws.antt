-- ===== src/Routes/Minutes/Laws.antt =====
-- What the handlers of the minutes promise.
use civic_archive_api.Prelude.{
  ℕ, ◌≤◌, ◌≡◌, sym, String, Bool, true, false, ◌⊎◌, inl, inr, all, List, [], ◌∷◌, length,
  if◌then◌else◌,
}
use civic_archive_api.Prelude.Int.{pos}
use civic_archive_api.Json.{Json}
use civic_archive_api.Errors.{database_error, ok, raise, chain-eq-ok}
use civic_archive_api.Config.{Config}
use civic_archive_api.Repositories.Rows.{Table, Counts}
use civic_archive_api.Repositories.Dedupe.{keep_last}
use civic_archive_api.Repositories.Upsert.{overlay, stored, last_with}
use civic_archive_api.Repositories.Removal.{is_found}
use civic_archive_api.Repositories.Minutes.{
  Minutes, minutes_url, minutes_fit, get_minutes, delete_minutes,
}
use civic_archive_api.Repositories.Minutes.Laws.{upsert_minutes-stored}
use civic_archive_api.Services.Minutes.{MinutesItem, normalize_minutes}
use civic_archive_api.Services.Minutes.Clean.{HasCleanTexts, normalize_minutes-HasCleanTexts}
use civic_archive_api.Routes.{normalize_all, not_found}
use civic_archive_api.Routes.Deletion.{deletion_once, enforce-within}
use civic_archive_api.Routes.Minutes.{save_minutes, show_minutes, remove_minutes}

-- Every item of a list is normalised.
abbrev pub AllClean : List Minutes → Type 0
AllClean [] = Unit
AllClean (m ∷ items) = HasCleanTexts m × AllClean items

normalize_all-AllClean :
    (shown : Json → String) (payload : List MinutesItem) {items : List Minutes}
    → normalize_all (normalize_minutes shown) payload ≡ ok items
    → AllClean items
unfolding normalize_all
normalize_all-AllClean shown [] {items = items} e = let e' : [] ≡ items = cc e in rw (sym e') tt
normalize_all-AllClean shown (item ∷ payload) {items = items} e =
    let (m, rest, first) = chain-eq-ok _ (normalize_minutes shown item) e in
    let (ms, last, others) = chain-eq-ok _ (normalize_all (normalize_minutes shown) payload) rest in
    let e' : m ∷ ms ≡ items = cc last in
    rw (sym e') (
      normalize_minutes-HasCleanTexts shown item m first,
      normalize_all-AllClean shown payload others,
    )

-- A batch within the limit whose items can all be normalised, to clean texts, is refused with an
-- error of the database if the last minutes of a URL do not fit the columns of the table. Else it is
-- stored: under each URL the table then holds the last of them, or what it held before.
pub save_minutes-stored :
    (c : Config) (limit : ℕ) (accepts : Minutes → Bool) (shown : Json → String) (now : ℕ)
    (payload : List MinutesItem) (items : List Minutes) (t : Table Minutes)
    → c.ingest_max_batch_items ≡ pos limit
    → length payload ≤ limit
    → normalize_all (normalize_minutes shown) payload ≡ ok items
    → AllClean items
      × (((all (minutes_fit accepts) (keep_last minutes_url items) ≡ false)
            × (save_minutes c accepts shown now payload t ≡ raise database_error))
          ⊎ ((all (minutes_fit accepts) (keep_last minutes_url items) ≡ true)
              × (counts : Counts) × (t' : Table Minutes) × (save_minutes c accepts shown now payload
                    t
                  ≡ ok (counts, t'))
              × ((url : String)
                  → stored minutes_url url t'.rows
                    ≡ overlay (last_with minutes_url url items) (stored minutes_url url t.rows))))
unfolding save_minutes
save_minutes-stored c limit accepts shown now payload items t bound few normal = (
  normalize_all-AllClean shown payload normal,
  elim (upsert_minutes-stored accepts now items t) [
    | inl (wide, failed) ↦
        inl (wide, rw (bound, enforce-within limit (length payload) few, normal) failed)
    | inr (fitting, counts, t', same, _, _, held) ↦ inr (
      fitting,
      counts,
      t',
      rw (bound, enforce-within limit (length payload) few, normal) same,
      held,
    )
  ],
)

-- Minutes are deleted exactly once: the first call answers with the id if they are there, and any
-- later one, like a call for what is not there, with 404.
pub remove_minutes-once :
    (id : ℕ) (t : Table Minutes)
    → ((remove_minutes id t).0 ≡ (if is_found (get_minutes id t) then ok id else raise not_found))
      × ((remove_minutes id (remove_minutes id t).1).0 ≡ raise not_found)
      × (show_minutes id (remove_minutes id t).1 ≡ raise not_found)
unfolding remove_minutes show_minutes delete_minutes get_minutes
remove_minutes-once id t = deletion_once id t
