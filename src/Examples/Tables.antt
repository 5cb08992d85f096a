-- ===== src/Examples/Tables.antt =====
-- An UPDATE of a table `d.t` with an INT and a VARCHAR(20), from (5, 'ab') to (NULL, 'abc').
use mysqlslave.Base.{
  ℕ, ◌≡◌, ◌≢◌, refl, arith, none, some, List, [], ◌∷◌, ◌++◌, length, drop, true, false,
}
use mysqlslave.LogEvent.{success}
use mysqlslave.LogEvent.TableMap.{TableMapEvent}
use mysqlslave.LogEvent.Rows.{RowEvent}
use mysqlslave.Value.Types.{column_type, calc_metadata_size}
use mysqlslave.Value.{value_init}
use mysqlslave.Value.Numbers.Widths.{int32}
use mysqlslave.Database.{Table}
use mysqlslave.Database.Columns.Image.{Cell}
use mysqlslave.Database.Columns.Image.Cells.{
  int_cell, varchar_cell, null_cell, int_cell-IsCell, varchar_cell-IsCell, null_cell-IsCell,
}
use mysqlslave.Database.Update.{table_update, as_rows}
use mysqlslave.Database.Update.Images.{IsRow, all_columns}
use mysqlslave.Database.Update.Changes.{
  Change, updated, changes_bytes, old_rows, new_rows_of, final_values,
}
use mysqlslave.Database.Update.Refines.{table_update-refines}
use mysqlslave.LogEvent.ColumnMask.{update_n1bits, count_bits}
use mysqlslave.Database.Update.Ends.{table_update-ends}
use mysqlslave.Database.Update.Endless.{table_update-goes_on}
use mysqlslave.Base.Dict.{lookup, same_name}
use mysqlslave.LogEvent.FieldLength.RoundTrip.{field_length_bytes}
use mysqlslave.Memory.{Memory}
use mysqlslave.LogEvent.Header.{IsEvent, header_bytes}
use mysqlslave.LogEvent.Rows.Bytes.{RowHead, IsRowHead, row_head_bytes}
use mysqlslave.Parser.{Parser, TablePointer, returned, find_table}
use mysqlslave.Parser.Handlers.{update}
use mysqlslave.Parser.Handlers.Delivery.{after_rows}
use mysqlslave.Parser.Dispatch.{packet, handle_packet}
use mysqlslave.Parser.Dispatch.Delivery.{handle_packet-rows}
use mysqlslave.Examples.{
  client_headers, sum_zlib, example_header, example_format, no_rows, fresh_parser,
}
use mysqlslave.Examples.Events.{example_header-IsHeader}

abbrev old_cells : List Cell
old_cells = int_cell int32 5 ∷ varchar_cell 20 (b'a' ∷ b'b' ∷ []) ∷ []

abbrev new_cells : List Cell
new_cells = null_cell 3 [] ∷ varchar_cell 20 (b'a' ∷ b'b' ∷ b'c' ∷ []) ∷ []

abbrev changes : List Change
changes = updated old_cells new_cells ∷ []

-- The map: two types, then two bytes of metadata for the VARCHAR.
abbrev table_map : TableMapEvent
table_map = record {
  header = example_header 0;
  table_id = 77;
  buffer = 3 ∷ 15 ∷ 20 ∷ 0 ∷ [];
  db_name = b'd' ∷ [];
  table_name = b't' ∷ [];
  column_count = 2;
  column_types = 0;
  metadata_length = 2;
  metadata = some 2;
}

abbrev table : Table
table = record {
  event = table_map;
  row = record { has_table = true; values = value_init ∷ value_init ∷ [] };
  rows = [];
  new_rows = [];
  columns = [];
  tuned = true;
}

abbrev update_event : RowEvent
update_event = record no_rows {
  event_type = 31;
  table_id = 77;
  ncolumns = 2;
  used_columns = all_columns 2;
  used_columns_afterimage = all_columns 2;
  rows_data = 0;
  rows_len = length (changes_bytes changes);
  valid = true;
}

old_cells-IsRow : IsRow table_map 2 old_cells
old_cells-IsRow = record {
  cells_valid = (
    int_cell-IsCell int32 5,
    (varchar_cell-IsCell 20 (b'a' ∷ b'b' ∷ []) (omega arith) (omega arith), tt),
  );
  cell_count = refl;
  codes_at = (20 ∷ 0 ∷ [], refl);
  metadata_at = ([], ([], refl));
}

new_cells-IsRow : IsRow table_map 2 new_cells
unfolding column_type calc_metadata_size
new_cells-IsRow = record {
  cells_valid = (
    null_cell-IsCell 3 [] refl (omega arith),
    (varchar_cell-IsCell 20 (b'a' ∷ b'b' ∷ b'c' ∷ []) (omega arith) (omega arith), tt),
  );
  cell_count = refl;
  codes_at = (20 ∷ 0 ∷ [], refl);
  metadata_at = ([], ([], refl));
}

table_update-refines_example :
    table_update 1 table update_event (changes_bytes changes)
    ≡ some (
        some (
          success,
          record table {
            row = record {
              has_table = true;
              values = final_values changes (value_init ∷ value_init ∷ []) 0;
            };
            rows = as_rows true (old_rows changes (value_init ∷ value_init ∷ []) 0);
            new_rows = as_rows true (new_rows_of changes (value_init ∷ value_init ∷ []) 0);
          },
        ))
table_update-refines_example =
    table_update-refines changes 1 2 table update_event (changes_bytes changes) [] (omega arith)
      (omega arith) refl refl refl refl refl ((refl, refl, old_cells-IsRow, new_cells-IsRow), tt)
      (omega arith) refl (omega arith) refl

table_update-ends_example : table_update 13 table update_event (changes_bytes changes) ≢ some none
unfolding update_n1bits count_bits
table_update-ends_example =
    table_update-ends 13 table update_event (changes_bytes changes) (omega arith) (omega arith)
      (omega arith) (omega arith)

-- An event that uses no column, with the bytes of the rows behind it.
abbrev unused_event : RowEvent
unused_event = record update_event { used_columns = 0; used_columns_afterimage = 0 }

table_update-goes_on_example :
    table_update 1000 table unused_event (changes_bytes changes) ≡ some none
table_update-goes_on_example =
    table_update-goes_on 1000 table unused_event (changes_bytes changes) old_cells refl refl
      old_cells-IsRow refl (omega arith) (omega arith) refl refl

-- The same UPDATE as a packet, for a client that watches the table.
abbrev update_head : RowHead
update_head = record {
  table_id = 77;
  row_flags = 1;
  extra = [];
  ncolumns = 2;
  columns = 3;
  afterimage = 3;
}

abbrev update_body : List ℕ
update_body = row_head_bytes 24 update_head (changes_bytes changes)

abbrev update_packet : Memory
update_packet = 0 ∷ (header_bytes (example_header 43) 24 ++ update_body)

update_packet-IsEvent :
    IsEvent (example_header 43) 24 update_body 0 example_format update_packet 1 43 []
unfolding field_length_bytes
update_packet-IsEvent = record {
  header_valid = example_header-IsHeader 43 (omega arith);
  crc_fits = omega arith;
  placed = refl;
  sized = refl;
  size_fits = omega arith;
  header_len = refl;
}

update_head-IsRowHead : IsRowHead update_head
update_head-IsRowHead = record {
  table_id_fits = omega arith;
  row_flags_fits = omega arith;
  extra_fits = omega arith;
  some_columns = omega arith;
  few_columns = omega arith;
  columns_fit = omega arith;
  afterimage_fits = omega arith;
}

abbrev at_table : TablePointer
at_table = (b'd' ∷ [], b't' ∷ [])

abbrev watching : Parser
watching = record fresh_parser {
  id_2_table = (77, at_table) ∷ [];
  databases = (b'd' ∷ [], (b't' ∷ [], table) ∷ []) ∷ [];
}

table_found : find_table watching at_table ≡ some table
unfolding find_table lookup same_name
table_found = refl

handle_packet-rows_example :
    (a : ℕ) × (r : RowEvent) × (drop a update_packet ≡ changes_bytes changes)
    × (handle_packet 1 watching (packet update_packet)
        ≡ returned (after_rows update watching at_table table changes a r))
unfolding lookup field_length_bytes
handle_packet-rows_example =
    handle_packet-rows 1 update false watching 0
      (header_bytes (example_header 43) 24 ++ update_body) (example_header 43) update_head changes 0
      at_table table update_packet-IsEvent refl (λ off. cc) update_head-IsRowHead (refl, refl) refl
      table_found (refl, refl, ((old_cells-IsRow, new_cells-IsRow), tt)) (omega arith) (omega arith)
