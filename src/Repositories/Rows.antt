-- ===== src/Repositories/Rows.antt =====
-- Tables with a serial id, a text column that is unique, and the statements that the repositories
-- run on them, as PostgreSQL runs them.
use civic_archive_api.Prelude.{
  ℕ, suc, String, Bool, true, not, ◌||◌, ltb, leb, Option, none, some, List, [], ◌∷◌, ◌++◌, any,
  eqb, keep, ◌==◌, if◌then◌else◌,
}
use civic_archive_api.Prelude.Int.{ℤ, pos, negsuc}
use civic_archive_api.Text.{text_length}
use civic_archive_api.Errors.{database_error, Result, ok, raise, ◌>>=◌}

-- Times are microseconds of a clock that does not start below zero.
pub record Row (V : Type 0) : Type 0 where
  pub id : ℕ
  pub columns : V
  pub created_at : ℕ
  pub updated_at : ℕ

-- `next_id` is the next value of the sequence of the ids.
pub record Table (V : Type 0) : Type 0 where
  pub rows : List (Row V)
  pub next_id : ℕ

-- How many rows a statement has inserted, and how many it has updated.
pub record Counts : Type 0 where
  pub inserted : ℕ
  pub updated : ℕ

-- A text for a column `VARCHAR(width)`. The services strip texts: only of others does PostgreSQL cut
-- blanks off the end that exceed the width.
abbrev pub fits_varchar : ℕ → Option String → Bool
fits_varchar width none = true
fits_varchar width (some s) = leb (text_length s) width

-- A number from `- bound` to `bound - 1`
abbrev pub fits_signed : ℕ → Option ℤ → Bool
fits_signed bound none = true
fits_signed bound (some (pos n)) = ltb n bound
fits_signed bound (some (negsuc n)) = ltb n bound

-- A number of 32 bits, and one of 16.
abbrev pub fits_integer : Option ℤ → Bool
fits_integer = fits_signed 2_147_483_648

abbrev pub fits_smallint : Option ℤ → Bool
fits_smallint = fits_signed 32_768

abbrev pub mem : String → List String → Bool
mem k keys = any (λ j. j == k) keys

module _ {V : Type 0} (key : V → String) where
  -- The row with a key.
  unfoldable pub find_row : String → List (Row V) → Option (Row V)
  find_row k [] = none
  find_row k (r ∷ rows) = if key r.columns == k then some r else find_row k rows

  -- `DO UPDATE SET` every column, and `updated_at = CURRENT_TIMESTAMP`
  unfoldable pub update_row : ℕ → V → List (Row V) → List (Row V)
  update_row now v [] = []
  update_row now v (r ∷ rows) =
      if key r.columns == key v
      then record r { columns = v; updated_at = now } ∷ rows
      else r ∷ update_row now v rows

  abbrev pub insert_row : ℕ → V → Table V → Table V
  insert_row now v t = record {
    rows =
        t.rows ++ (record { id = t.next_id; columns = v; created_at = now; updated_at = now } ∷ []);
    next_id = suc t.next_id;
  }

  -- `ON CONFLICT DO UPDATE` on one row: the sequence moves on in either case.
  unfoldable pub upsert_found : ℕ → V → Option (Row V) → Table V → Table V
  unfolding update_row
  upsert_found now v none t = insert_row now v t
  upsert_found now v (some r) t = record { rows = update_row now v t.rows; next_id = suc t.next_id }

  abbrev pub count_row : Option (Row V) → Counts → Counts
  count_row none n = record n { inserted = suc n.inserted }
  count_row (some r) n = record n { updated = suc n.updated }

  -- `INSERT ... ON CONFLICT (key) DO UPDATE`: every row must fit the columns, and the command must not
  -- affect a row a second time.
  unfoldable pub upsert_rows :
      (V → Bool) → ℕ → List String → List V → Table V → Result (Counts × Table V)
  unfolding find_row upsert_found
  upsert_rows fits now affected [] t = ok (record { inserted = 0; updated = 0 }, t)
  upsert_rows fits now affected (v ∷ payload) t =
      let found = find_row (key v) t.rows in
      let rest = upsert_rows fits now (key v ∷ affected) payload (upsert_found now v found t) in
      if not (fits v) || mem (key v) affected
      then raise database_error
      else (do (counts, t') ← rest; ok (count_row found counts, t'))

module _ {V : Type 0} where
  -- `SELECT ... WHERE id = :id`
  unfoldable pub select_row : ℕ → List (Row V) → Option (Row V)
  select_row id [] = none
  select_row id (r ∷ rows) = if eqb r.id id then some r else select_row id rows

  -- `DELETE ... WHERE id = :id`
  unfoldable pub delete_rows : ℕ → Table V → Table V
  delete_rows id t = record t { rows = keep (λ r. not (eqb r.id id)) t.rows }
