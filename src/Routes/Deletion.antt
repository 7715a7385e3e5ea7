-- ===== src/Routes/Deletion.antt =====
-- What the handlers of the three resources have in common.
use civic_archive_api.Prelude.{
  ℕ, Bool, true, ◌≡◌, ◌≤◌, refl, none, arith, not, keep, ltb, length, eqb, if◌then◌else◌,
}
use civic_archive_api.Prelude.Int.{pos}
use civic_archive_api.Errors.{ok, raise}
use civic_archive_api.Repositories.Rows.{Table, select_row, delete_rows}
use civic_archive_api.Repositories.Removal.{is_found, select-without, without-found}
use civic_archive_api.Routes.{enforce_ingest_batch_limit, not_found, row_or_404, answer_deletion}

pub enforce-within : (limit n : ℕ) → n ≤ limit → enforce_ingest_batch_limit (pos limit) n ≡ ok tt
unfolding enforce_ingest_batch_limit
enforce-within limit n h = ground arith

module _ {V : Type 0} where
  -- The deletion of every repository.
  abbrev pub delete : ℕ → Table V → Bool × Table V
  delete id t = (ltb (length (delete_rows id t).rows) (length t.rows), delete_rows id t)

  pub deletion_once :
      (id : ℕ) (t : Table V)
      → ((answer_deletion id (delete id t)).0
          ≡ (if is_found (select_row id t.rows) then ok id else raise not_found))
        × ((answer_deletion id (delete id (delete id t).1)).0 ≡ raise not_found)
        × (row_or_404 (select_row id (delete id t).1.rows) ≡ raise not_found)
  unfolding answer_deletion row_or_404 delete_rows
  deletion_once id t =
      let rest = keep (λ r. not (eqb r.id id)) t.rows in
      let same : eqb id id ≡ true = ground arith in
      let gone : select_row id rest ≡ none = rw same at (select-without id id t.rows) in
      (rw (without-found id t.rows) refl, rw (without-found id rest, gone) refl, rw gone refl)
