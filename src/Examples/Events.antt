-- ===== src/Examples/Events.antt =====
-- A table map and a rows event of a table `d.t` with an INT and a TINYINT, as bytes.
use mysqlslave.Base.{ℕ, ◌≡◌, ◌^◌, ◌<◌, refl, arith, none, some, [], ◌∷◌, ◌++◌, drop}
use mysqlslave.Base.{true}
use mysqlslave.Memory.{Memory}
use mysqlslave.LogEvent.{success}
use mysqlslave.LogEvent.Header.{header_bytes, IsHeader, IsEvent, read_header}
use mysqlslave.LogEvent.FieldLength.RoundTrip.{field_length_bytes}
use mysqlslave.LogEvent.ColumnMask.{update_n1bits}
use mysqlslave.LogEvent.Rows.{row_tune}
use mysqlslave.LogEvent.Rows.Bytes.{RowHead, IsRowHead, row_head_bytes}
use mysqlslave.LogEvent.Rows.Layout.{row_tune-event}
use mysqlslave.LogEvent.TableMap.{table_map_tune}
use mysqlslave.LogEvent.TableMap.Bytes.{TableLayout, IsTableLayout, table_map_block, sized_block}
use mysqlslave.LogEvent.TableMap.Layout.{table_map_tune-event}
use mysqlslave.Examples.{client_headers, example_format, example_header, no_rows}

abbrev pub example_table : TableLayout
example_table = record {
  table_id = 77;
  map_flags = 1;
  db_name = b'd' ∷ [];
  table_name = b't' ∷ [];
  types = 3 ∷ 1 ∷ [];
  metadata = [];
  null_bits = 0 ∷ [];
}

abbrev pub map_packet : Memory
map_packet = 0 ∷ (header_bytes (example_header 38) 19 ++ table_map_block example_table [])

abbrev pub example_rows : RowHead
example_rows = record {
  table_id = 77;
  row_flags = 1;
  extra = [];
  ncolumns = 2;
  columns = 3;
  afterimage = 3;
}

-- An INSERT of (5, 6).
abbrev pub rows_packet : Memory
rows_packet =
    0
    ∷ (header_bytes (example_header 35) 23
        ++ row_head_bytes 23 example_rows (0 ∷ 5 ∷ 0 ∷ 0 ∷ 0 ∷ 6 ∷ []))

pub example_header-IsHeader : (n : ℕ) → n < 256 ^ 4 → IsHeader (example_header n)
example_header-IsHeader n fits = record {
  when_fits = omega arith;
  server_id_fits = omega arith;
  data_written_fits = fits;
  log_pos_fits = omega arith;
  flags_fits = omega arith;
}

example_table-IsTableLayout : IsTableLayout example_table
example_table-IsTableLayout = record {
  table_id_fits = omega arith;
  db_name_valid = record { no_nul = (omega arith, tt); short = omega arith };
  table_name_valid = record { no_nul = (omega arith, tt); short = omega arith };
  types_fit = omega arith;
  metadata_fits = omega arith;
}

map_packet-IsEvent :
    IsEvent
      (example_header 38)
      19
      (table_map_block example_table [])
      0
      example_format
      map_packet
      1
      38
      []
unfolding field_length_bytes
map_packet-IsEvent = record {
  header_valid = example_header-IsHeader 38 (omega arith);
  crc_fits = omega arith;
  placed = refl;
  sized = refl;
  size_fits = omega arith;
  header_len = refl;
}

example_rows-IsRowHead : IsRowHead example_rows
example_rows-IsRowHead = record {
  table_id_fits = omega arith;
  row_flags_fits = omega arith;
  extra_fits = omega arith;
  some_columns = omega arith;
  few_columns = omega arith;
  columns_fit = omega arith;
  afterimage_fits = omega arith;
}

rows_packet-IsEvent :
    IsEvent
      (example_header 35)
      23
      (row_head_bytes 23 example_rows (0 ∷ 5 ∷ 0 ∷ 0 ∷ 0 ∷ 6 ∷ []))
      0
      example_format
      rows_packet
      1
      35
      []
unfolding field_length_bytes
rows_packet-IsEvent = record {
  header_valid = example_header-IsHeader 35 (omega arith);
  crc_fits = omega arith;
  placed = refl;
  sized = refl;
  size_fits = omega arith;
  header_len = refl;
}

table_map_tune-event_example :
    (types_at metadata_at : ℕ) × (table_map_tune map_packet 1 38 example_format
      ≡ some (
        success,
        record {
          header = read_header (example_header 38) 0 example_format;
          table_id = 77;
          buffer = drop 1 map_packet;
          db_name = b'd' ∷ [];
          table_name = b't' ∷ [];
          column_count = 2;
          column_types = types_at;
          metadata_length = 0;
          metadata = none;
        },
      ))
    × (drop types_at (drop 1 map_packet) ≡ 3 ∷ 1 ∷ sized_block [] (0 ∷ []))
    × (drop metadata_at (drop 1 map_packet) ≡ 0 ∷ [])
table_map_tune-event_example =
    table_map_tune-event (example_header 38) 19 example_table 0 map_packet 1 38 example_format []
      example_table-IsTableLayout refl map_packet-IsEvent

row_tune-event_example :
    (at : ℕ) × (row_tune no_rows rows_packet 1 35 example_format
      ≡ some (
        success,
        record {
          header = read_header (example_header 35) 0 example_format;
          event_type = 23;
          row_flags = 1;
          table_id = 77;
          ncolumns = 2;
          extra_data_len = 0;
          extra_data = none;
          used_columns = update_n1bits 3;
          used_columns_afterimage = 0;
          rows_data = at;
          rows_len = 6;
          valid = true;
        },
      ))
    × (drop at rows_packet ≡ 0 ∷ 5 ∷ 0 ∷ 0 ∷ 0 ∷ 6 ∷ [])
row_tune-event_example =
    row_tune-event no_rows (example_header 35) 23 example_rows (0 ∷ 5 ∷ 0 ∷ 0 ∷ 0 ∷ 6 ∷ []) 0
      rows_packet 1 35 example_format [] example_rows-IsRowHead rows_packet-IsEvent
