-- ===== src/Routes/Segments/Laws.antt =====
-- What the handlers of the segments promise.
use civic_archive_api.Prelude.{
  ℕ, ◌≤◌, ◌≡◌, ◌⊎◌, inl, inr, Bool, false, ◌++◌, all, List, length, if◌then◌else◌,
}
use civic_archive_api.Prelude.Int.{pos}
use civic_archive_api.Errors.{database_error, ok, raise}
use civic_archive_api.Config.{Config}
use civic_archive_api.Repositories.Rows.{Row, Table}
use civic_archive_api.Repositories.Removal.{is_found}
use civic_archive_api.Repositories.Segments.{Segment, SegmentUpsert, get_segment, delete_segment}
use civic_archive_api.Repositories.Segments.Insert.{
  AllPresent, AllSent, is_storable, insert_segments-again,
}
use civic_archive_api.Services.Segments.{Library, SegmentItem, normalize_segment}
use civic_archive_api.Routes.{normalize_all, not_found}
use civic_archive_api.Routes.Deletion.{deletion_once, enforce-within}
use civic_archive_api.Routes.Segments.{save_segments, show_segment, remove_segment}

-- A batch of segments within the limit whose items can all be normalised fails, with an error of the
-- database, only if a segment of it is not storable. Else the rows that it adds hold what a segment of
-- the batch says, under its hash; every segment of the batch is then in the table, under one of its
-- hashes; and to send the batch again, at any later time, answers that nothing is inserted and leaves
-- the table as it is.
pub save_segments-again :
    (c : Config) (limit : ℕ) (accepts : SegmentUpsert → Bool) (lib : Library) (now later : ℕ)
    (payload : List SegmentItem) (items : List SegmentUpsert) (t : Table Segment)
    → c.ingest_max_batch_items ≡ pos limit
    → length payload ≤ limit
    → normalize_all (normalize_segment lib) payload ≡ ok items
    → ((all (is_storable accepts) items ≡ false)
        × (save_segments c accepts lib now payload t ≡ raise database_error))
      ⊎ ((added : List (Row Segment)) × (t' : Table Segment) × (save_segments c accepts lib now
              payload t
            ≡ ok (length added, t'))
          × (t'.rows ≡ t.rows ++ added)
          × AllSent now items added
          × AllPresent items t'.rows
          × (save_segments c accepts lib later payload t' ≡ ok (0, t')))
unfolding save_segments
save_segments-again c limit accepts lib now later payload items t bound few normal =
    let within = enforce-within limit (length payload) few in
    elim (insert_segments-again accepts now later items t) [
      | inl (bad, failed) ↦ inl (bad, rw (bound, within, normal) failed)
      | inr (added, t', done, appended, sent, exist, again) ↦ inr (
        added,
        t',
        rw (bound, within, normal) done,
        appended,
        sent,
        exist,
        rw (bound, within, normal) again,
      )
    ]

-- A segment is deleted exactly once: the first call answers with the id if it is there, and any
-- later one, like a call for what is not there, with 404.
remove_segment-once :
    (id : ℕ) (t : Table Segment)
    → ((remove_segment id t).0 ≡ (if is_found (get_segment id t) then ok id else raise not_found))
      × ((remove_segment id (remove_segment id t).1).0 ≡ raise not_found)
      × (show_segment id (remove_segment id t).1 ≡ raise not_found)
unfolding remove_segment show_segment delete_segment get_segment
remove_segment-once id t = deletion_once id t
