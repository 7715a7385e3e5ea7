-- ===== src/Repositories/Common.antt =====
-- app/repositories/common.py and app/repositories/search.py: what the repositories share. A condition
-- of a statement is the test that PostgreSQL makes on a row, where `NULL` counts as false.
use Prim.Native.String
use mathlib.Core.List.{reverse}
use civic_archive_api.Prelude.{
  ℕ, ◌-◌, ◌*◌, String, Bool, false, not, ◌&&◌, ◌||◌, eqb, ltb, Option, none, some, List, [], ◌∷◌,
  all, take, drop, keep, length, ◌==◌, if◌then◌else◌,
}
use civic_archive_api.Prelude.Int.{ℤ, ltb_ℤ, eqb_ℤ}
use civic_archive_api.Text.{is_empty, or_empty, strip}
use civic_archive_api.Errors.{database_error, Result, ok, raise}
use civic_archive_api.Repositories.Rows.{Row, Table, mem}

module _ {V : Type 0} (key : V → String) where
  -- The loop of `dedupe_rows_by_key`, over the reversed items.
  unfoldable pub dedupe_reversed : List String → List V → List V
  dedupe_reversed seen [] = []
  dedupe_reversed seen (item ∷ items) =
      let known = mem (key item) seen in
      let rest = dedupe_reversed (if known then seen else key item ∷ seen) items in
      if known then rest else item ∷ rest

  unfoldable pub dedupe_rows_by_key : List V → List V
  unfolding dedupe_reversed
  dedupe_rows_by_key items = reverse (dedupe_reversed [] (reverse items))

-- What the statements ask of PostgreSQL: `ILIKE`, the text search, and dates. A date is the number of
-- its day, and `day_start` is the time at which it begins in the session's time zone.
pub record Postgres : Type 0 where
  pub ilike : String → String → Bool
  pub text_search : String → String → Bool
  pub date_of : String → ℤ
  pub day_start : ℤ → ℤ

unfoldable pub join_columns : List (Option String) → String
join_columns [] = ""
join_columns (column ∷ columns) =
    String.◌++◌ " " (String.◌++◌ (or_empty column) (join_columns columns))

unfoldable pub build_search_document : List (Option String) → String
unfolding join_columns
build_search_document [] = ""
build_search_document (column ∷ columns) = String.◌++◌ (or_empty column) (join_columns columns)

-- `build_split_search_condition` with the parameters of `build_split_search_params`
unfoldable pub search_condition : Postgres → List (Option String) → String → Bool
unfolding build_search_document strip
search_condition db columns query =
    let document = build_search_document columns in
    let normalized = strip query in
    db.ilike document (String.◌++◌ "%" (String.◌++◌ normalized "%"))
    || db.text_search document normalized

abbrev pub Condition : Type 0 → Type 0
Condition V = Row V → Bool

-- The condition on the search text `q`, if it is not blank.
unfoldable pub search_filter :
    {V : Type 0} → Postgres → (V → List (Option String)) → Option String → List (Condition V)
unfolding is_empty strip search_condition
search_filter db columns q =
    let normalized_q = strip (or_empty q) in
    if is_empty normalized_q
    then []
    else (λ r. search_condition db (columns r.columns) normalized_q) ∷ []

abbrev pub equals : Option String → String → Bool
equals none value = false
equals (some s) value = s == value

unfoldable pub add_truthy_equals_filter :
    {V : Type 0} → Option String → (V → Option String) → List (Condition V)
unfolding is_empty
add_truthy_equals_filter none column = []
add_truthy_equals_filter (some value) column =
    if is_empty value then [] else (λ r. equals (column r.columns) value) ∷ []

abbrev pub equals_ℤ : Option ℤ → ℤ → Bool
equals_ℤ none value = false
equals_ℤ (some n) value = eqb_ℤ n value

unfoldable pub add_not_none_equals_filter :
    {V : Type 0} → Option ℤ → (V → Option ℤ) → List (Condition V)
add_not_none_equals_filter none column = []
add_not_none_equals_filter (some value) column = (λ r. equals_ℤ (column r.columns) value) ∷ []

-- `if date_from:` and `if date_to:` with a test of the time or date against the bound.
unfoldable pub add_bound_filter :
    {V : Type 0} → Option String → (V → Option ℤ) → (ℤ → String → Bool) → List (Condition V)
unfolding is_empty
add_bound_filter none column within = []
add_bound_filter (some bound) column within =
    if is_empty bound
    then []
    else (λ r. elim (column r.columns) [ none ↦ false | some n ↦ within n bound ]) ∷ []

-- `ORDER BY time DESC, id DESC`: whether a row stands before another.
unfoldable pub precedes : {V : Type 0} → (Row V → ℤ) → Row V → Row V → Bool
precedes time r q = ltb_ℤ (time q) (time r) || (eqb_ℤ (time q) (time r) && ltb q.id r.id)

unfoldable pub place : {V : Type 0} → (Row V → ℤ) → Row V → List (Row V) → List (Row V)
unfolding precedes
place time r [] = r ∷ []
place time r (q ∷ rows) =
    let rest = place time r rows in if precedes time r q then r ∷ q ∷ rows else q ∷ rest

unfoldable pub order_by : {V : Type 0} → (Row V → ℤ) → List (Row V) → List (Row V)
unfolding place
order_by time [] = []
order_by time (r ∷ rows) = place time r (order_by time rows)

-- The rows that satisfy every condition.
unfoldable pub select_where : {V : Type 0} → List (Condition V) → List (Row V) → List (Row V)
select_where conditions rows = keep (λ r. all (λ condition. condition r) conditions) rows

-- The page of the ordered rows, and the number of all; a negative offset is an error.
unfoldable pub execute_paginated_query :
    {V : Type 0} → List (Row V) → ℕ → ℕ → Result (List (Row V) × ℕ)
execute_paginated_query rows page size =
    if eqb page 0 && not (eqb size 0)
    then raise database_error
    else ok (take size (drop ((page - 1) * size) rows), length rows)

unfoldable pub execute_filtered_paginated_query :
    {V : Type 0} → (Row V → ℤ) → List (Condition V) → ℕ → ℕ → Table V → Result (List (Row V) × ℕ)
unfolding execute_paginated_query order_by select_where
execute_filtered_paginated_query time conditions page size t =
    execute_paginated_query (order_by time (select_where conditions t.rows)) page size
