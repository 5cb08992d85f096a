-- ===== src/Database/Update.antt =====
-- `CTable::update_row` and `CTable::update` of src/mysqlslave/database.cpp: the rows of one event.
pub mod Changes
pub mod Endless
pub mod Ends
pub mod Images
pub mod Refines
pub mod Rounds
use mysqlslave.Base.{
  ℕ, zero, suc, ◌+◌, Option, none, some, ◌>>=◌, Bool, true, false, not, ◌&&◌, ◌||◌,
}
use mysqlslave.Base.{List, [], ◌∷◌, ◌++◌, ◌==◌, if◌then◌else◌}
use mysqlslave.Base.Int.{signed}
use mysqlslave.Base.Words.{not64}
use mysqlslave.Memory.{Memory, Headers}
use mysqlslave.LogEvent.{Status, success, failure}
use mysqlslave.LogEvent.TableMap.{TableMapEvent}
use mysqlslave.LogEvent.Rows.{RowEvent, is_update}
use mysqlslave.LogEvent.ColumnMask.{build_column_mask, mask_of, count_of}
use mysqlslave.Value.{Value}
use mysqlslave.Database.{Row, Table}
use mysqlslave.Database.Columns.{Cursor, update_columns, row_result}

-- The variables of the loop in `update`, and the rows so far.
pub record Progress : Type 0 where
  pub values : List Value
  pub source : ℕ
  pub len : ℕ
  pub rows : List (List Value)
  pub new_rows : List (List Value)

-- The variables before the loop.
abbrev pub start_of : Table → RowEvent → Progress
start_of t r = record {
  values = t.row.values;
  source = r.rows_data;
  len = r.rows_len;
  rows = [];
  new_rows = [];
}

-- How the loop ended: `stuck` is no C++ value, the fuel ran out.
pub data End : Type 0 where
  finished : Progress → End
  stuck : End

abbrev pub len_or_zero : Option ℕ → ℕ
len_or_zero none = 0
len_or_zero (some n) = n

-- The copies of `_row` in the two lists.
abbrev pub as_rows : Bool → List (List Value) → List Row
as_rows b [] = []
as_rows b (vs ∷ rest) = record { has_table = b; values = vs } ∷ as_rows b rest

-- The table when the loop has ended, and what `update` returns: `len` is 0 then.
abbrev pub close_update : Table → Option End → Option (Option (Status × Table))
close_update t none = none
close_update t (some stuck) = some none
close_update t (some (finished s)) = some (
    some (
      success,
      record t {
        row = record { has_table = t.row.has_table; values = s.values };
        rows = as_rows t.row.has_table s.rows;
        new_rows = as_rows t.row.has_table s.new_rows;
      },
    ))

module _ ⦃h : Headers⦄ where
  -- `update_row` of `ncolumns` columns from the address `p` on, with `len` bytes left.
  unfoldable pub update_row :
      TableMapEvent → List Value → Memory → ℕ → ℕ → ℕ → ℕ → ℕ → Option (Status × List Value × ℕ × ℕ)
  update_row e values m p len ncolumns used nonnull =
      update_columns ncolumns e m used nonnull 0 (record {
        values = values;
        source = p;
        size = signed 64 len;
        pmetadata = e.metadata;
        bit = 1;
      })
      >>= λ c. some (row_result c)

  -- A bitmap of nulls and a row image; `raw` is the raw mask of the columns used. What
  -- `build_column_mask` and `update_row` return is not tested.
  unfoldable pub read_image : TableMapEvent → RowEvent → Memory → ℕ → Progress → Option Progress
  read_image e r m raw s = do
    (nulls, p, len) ← build_column_mask m s.source (some s.len) (count_of raw)
    (_, values, q, len') ←
        update_row e s.values m p (len_or_zero len) r.ncolumns (mask_of raw) (not64 nulls)
    some (record s { values = values; source = q; len = len' })

  -- The rest of a round, behind the first image.
  unfoldable pub read_second : TableMapEvent → RowEvent → Memory → Progress → Option Progress
  read_second e r m s =
      let second = read_image e r m r.used_columns_afterimage s >>= λ s'.
      some (record s' { new_rows = s'.new_rows ++ (s'.values ∷ []) }) in
      if is_update r.event_type then second else some s

  -- One round of the loop: whether it goes on behind the first image, and what it has read.
  unfoldable pub read_rows_step : TableMapEvent → RowEvent → Memory → Progress → Option Progress
  read_rows_step e r m s = do
    s₁ ← read_image e r m r.used_columns s
    let s₂ = record s₁ { rows = s₁.rows ++ (s₁.values ∷ []) }
    if s₂.len == 0 then some s₂ else read_second e r m s₂

  -- `while (len > 0)`
  unfoldable pub read_rows : ℕ → TableMapEvent → RowEvent → Memory → Progress → Option End
  read_rows zero e r m s = if s.len == 0 then some (finished s) else some stuck
  read_rows (suc fuel) e r m s =
      let more = read_rows_step e r m s >>= read_rows fuel e r m in
      if s.len == 0 then some (finished s) else more

  -- `CTable::update`, with fuel for the loop; the inner `none` is a loop that has not ended.
  unfoldable pub table_update : ℕ → Table → RowEvent → Memory → Option (Option (Status × Table))
  table_update fuel t r m =
      let run = close_update t (read_rows fuel t.event r m (start_of t r)) in
      if not r.valid || not (t.event.table_id == r.table_id) then some (some (failure, t)) else run
