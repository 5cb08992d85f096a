-- ===== src/LogEvent/TableMap.antt =====
-- `CTableMapLogEvent` of src/mysqlslave/logevent.cpp: the names and column types of a table, and
-- the id that row events call it by.
pub mod Bytes
pub mod Layout
use mysqlslave.Base.{ℕ, ◌+◌, Option, none, some, ◌>>=◌, ◌==◌, ltb, if◌then◌else◌}
use mysqlslave.Base.{Bool, true, not, ◌&&◌, List, [], drop, length, get_or}
use mysqlslave.Base.Words.{sub64}
use mysqlslave.Memory.{Memory, Headers, load, load_bytes, c_string, uint_korr}
use mysqlslave.LogEvent.{
  EventType, header_len_of, Status, success, FormatDescription, LogEvent, header_tune,
}
use mysqlslave.LogEvent.FieldLength.{net_field_length}

-- `buffer` is `_data`, the copy of the event that the table keeps; `column_types` and `metadata`
-- are addresses in it. A name is the bytes before its NUL.
pub record TableMapEvent : Type 0 where
  pub header : LogEvent
  pub table_id : ℕ
  pub buffer : Memory
  pub db_name : List ℕ
  pub table_name : List ℕ
  pub column_count : ℕ
  pub column_types : ℕ
  pub metadata_length : ℕ
  pub metadata : Option ℕ

-- The first byte of the post-header, and the first behind it.
abbrev pub map_id_start : ℕ → FormatDescription → ℕ
map_id_start start fmt = start + fmt.common_header_len

abbrev pub map_names_start : ℕ → FormatDescription → ℕ
map_names_start start fmt =
    start + fmt.common_header_len + header_len_of fmt EventType.table_map_event

-- The C string at an address.
abbrev pub string_at : Memory → ℕ → Option (List ℕ)
string_at m p = c_string (drop p m)

-- `strcpy` into a `char[255]`.
unfoldable pub strcpy_255 : Memory → ℕ → Option (List ℕ)
strcpy_255 m p = string_at m p >>= λ s. if ltb (length s) 255 then some s else none

-- `get_database_name`, as the string at the pointer that it returns.
unfoldable pub get_database_name : Memory → ℕ → FormatDescription → Option (List ℕ)
get_database_name m start fmt = string_at m (map_names_start start fmt + 1)

-- `get_table_name`, likewise.
unfoldable pub get_table_name : Memory → ℕ → FormatDescription → Option (List ℕ)
get_table_name m start fmt =
    load m (map_names_start start fmt) >>= λ len. string_at m (map_names_start start fmt + len + 3)

-- `CTableMapLogEvent::is_valid`
unfoldable pub table_map_is_valid : TableMapEvent → Bool
table_map_is_valid e =
    ltb 0 (length e.db_name) && ltb 0 (length e.table_name) && not (e.column_count == 0)
    -- `_column_types` and, behind a metadata length that is not 0, `_metadata` are addresses in
    -- `_data` after `tune`; before it, `_column_count` is 0.

module _ ⦃h : Headers⦄ where
  unfoldable pub get_table_id : Memory → ℕ → FormatDescription → Option ℕ
  get_table_id m start fmt =
      if header_len_of fmt EventType.table_map_event == 6
      then uint_korr 4 m (map_id_start start fmt)
      else uint_korr 6 m (map_id_start start fmt)

  -- A name behind its length byte and before its NUL: the name, and the address behind it.
  unfoldable pub read_name : Memory → ℕ → Option (List ℕ × ℕ)
  unfolding strcpy_255
  read_name m p = do len ← load m p; name ← strcpy_255 m (p + 1); some (name, p + 1 + (len + 1))

  -- `CTableMapLogEvent::tune` on the event of `size` bytes at `start`.
  unfoldable pub table_map_tune :
      Memory → ℕ → ℕ → FormatDescription → Option (Status × TableMapEvent)
  unfolding get_table_id read_name
  table_map_tune m start size fmt = do
    header ← header_tune m start size fmt
    let size' = if fmt.use_checksum then sub64 size 4 else size
    buffer ← load_bytes size' m start
    table_id ← get_table_id buffer 0 fmt
    (db_name, p₁) ← read_name buffer (map_names_start 0 fmt)
    (table_name, p₂) ← read_name buffer p₁
    (column_count, column_types) ← net_field_length buffer p₂
    (metadata_length, p₃) ← net_field_length buffer (column_types + column_count)
    some (
      success,
      record {
        header = header;
        table_id = table_id;
        buffer = buffer;
        db_name = db_name;
        table_name = table_name;
        column_count = column_count;
        column_types = column_types;
        metadata_length = metadata_length;
        metadata = if metadata_length == 0 then none else some p₃;
      },
    )
