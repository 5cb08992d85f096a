-- ===== src/Database.antt =====
-- include/mysqlslave/database.hpp and src/mysqlslave/database.cpp: rows, tables and databases. A
-- table is the table map that describes it (`TableMapEvent`), its columns by name, and the rows of
-- the last event.
pub mod Columns
pub mod Update
use mysqlslave.Base.{ℕ, zero, suc, ◌+◌, Option, none, some, ◌>>=◌, Bool, true, false, ◌==◌}
use mysqlslave.Base.{List, [], ◌∷◌, ◌++◌, take, replicate, set, get_elem?, if◌then◌else◌}
use mysqlslave.Base.Dict.{Dict, lookup, insert, same_name}
use mysqlslave.Memory.{Memory, Headers, load}
use mysqlslave.LogEvent.{Status, success, failure, FormatDescription, LogEvent}
use mysqlslave.LogEvent.TableMap.{TableMapEvent, table_map_tune, table_map_is_valid}
use mysqlslave.ColumnDesc
use mysqlslave.ColumnDesc.{ColumnDesc, column_desc_init}
use mysqlslave.Value.Types.{column_type}
use mysqlslave.Value.{Value, value_init}

-- `CRow`: whether its table is set, and its values.
pub record Row : Type 0 where
  pub has_table : Bool
  pub values : List Value

pub record Table : Type 0 where
  pub event : TableMapEvent
  pub columns : Dict (List ℕ) ColumnDesc
  pub row : Row
  pub rows : List Row
  pub new_rows : List Row
  pub tuned : Bool

-- `CTable::CTable()`
unfoldable pub table_init : Table
table_init = record {
  event = record {
    header = record {
      when = 0;
      server_id = 0;
      data_written = 0;
      log_pos = 0;
      flags = 0;
      checksum = 0;
    };
    table_id = 0;
    buffer = [];
    db_name = [];
    table_name = [];
    column_count = 0;
    column_types = 0;
    metadata_length = 0;
    metadata = none;
  };
  columns = [];
  row = record { has_table = false; values = [] };
  rows = [];
  new_rows = [];
  tuned = false;
}

-- `find_column`
abbrev pub find_column : Table → List ℕ → Option ColumnDesc
find_column t name = lookup same_name name t.columns

abbrev pub desc_or_new : Option ColumnDesc → ColumnDesc
desc_or_new none = column_desc_init
desc_or_new (some c) = c

-- `add_column`: an entry is made if there is none.
unfoldable pub add_column : Table → List ℕ → ℕ → List ℕ → Table
add_column t name pos type =
    let desc = ColumnDesc.update (desc_or_new (find_column t name)) pos type in
    record t { columns = insert same_name name desc t.columns }

abbrev pub value_or_null : Option Value → Value
value_or_null none = value_init
value_or_null (some v) = v

-- `CRow::operator[](const std::string&)`; `_table` is the row's own table.
unfoldable pub value_by_name : Table → Row → List ℕ → Value
value_by_name t r name =
    if r.has_table
    then elim (find_column t name) [
      | none ↦ value_init
      | some c ↦ value_or_null (get_elem? r.values c.position)
    ]
    else value_init

-- `std::vector::resize`
abbrev pub resize : ℕ → List Value → List Value
resize n vs = take n (vs ++ replicate n value_init)

-- The loop of `CTable::tune`: position and type of each value, `n` of them from `i` on.
unfoldable pub set_types : ℕ → ℕ → Memory → ℕ → List Value → Option (List Value)
set_types zero i m p vs = some vs
set_types (suc n) i m p vs = do
  code ← load m p
  v ← get_elem? vs i
  set_types n (i + 1) m (p + 1) (set vs i (record v { pos = i; ty = column_type code }))

module _ ⦃h : Headers⦄ where
  -- The part of `CTable::tune` behind a table map that has been read.
  unfoldable pub adopt : Table → TableMapEvent → Option (Status × Table)
  unfolding set_types
  adopt t e =
      let t' = record t { event = e } in
      let values = resize e.column_count t.row.values in
      let typed = set_types e.column_count 0 e.buffer e.column_types values in
      let tuned = typed >>= λ vs.
      some (success, record t' { row = record { has_table = true; values = vs }; tuned = true }) in
      if table_map_is_valid e then tuned else some (success, t')

  -- `CTable::tune`: a tuned table is left alone.
  unfoldable pub table_tune : Table → Memory → ℕ → ℕ → FormatDescription → Option (Status × Table)
  unfolding adopt
  table_tune t m start size fmt =
      let read = table_map_tune m start size fmt >>= λ (_, e). adopt t e in
      if t.tuned then some (success, t) else read

-- `CDatabase`
abbrev pub Database : Type 0
Database = Dict (List ℕ) Table

abbrev pub get_table : Database → List ℕ → Option Table
get_table db name = lookup same_name name db

abbrev pub set_table : Database → List ℕ → Table → Database
set_table db name t = insert same_name name t db
