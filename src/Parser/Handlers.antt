-- ===== src/Parser/Handlers.antt =====
-- The `switch` of `CLogParser::dispatch_events` in src/mysqlslave/logparser.cpp: what an event of
-- each type does to the parser. The event has `size` bytes from address 1 of the packet on: byte 0
-- of the packet is the status of the network layer.
pub mod Delivery
pub mod Effects
pub mod Pointers
pub mod Wired
pub mod Positions
use mysqlslave.Base.{ℕ, Option, none, some, ◌>>=◌, ◌==◌, not, if◌then◌else◌, Bool, true, false}
use mysqlslave.Base.{List, [], ◌∷◌, ◌++◌, ◌||◌}
use mysqlslave.Base.Dict.{Dict, lookup, insert}
use mysqlslave.Base.Words.{u32}
use mysqlslave.Memory.{Memory, Headers, load_bytes}
use mysqlslave.LogEvent.{EventType, event_code, Status, success, failure}
use mysqlslave.LogEvent.Rotate.{RotateEvent, rotate_tune, UnhandledEvent, unhandled_tune}
use mysqlslave.LogEvent.Query.{QueryEvent, query_tune}
use mysqlslave.LogEvent.Rows.{RowEvent, row_tune}
use mysqlslave.LogEvent.TableMap.{get_table_id, get_database_name, get_table_name}
use mysqlslave.ColumnDesc.{eq_bytes}
use mysqlslave.Database.{Table, Database, get_table, table_tune}
use mysqlslave.Database.Update.{table_update}
use mysqlslave.Parser.{
  Parser, Result, returned, thrown, undefined, stuck, Exception, Call, on_insert, on_update,
  on_delete, defined, find_database, find_table, put_table, TablePointer,
}

-- Which of the client's functions a rows event calls.
pub data RowsKind : Type 0 where
  write update delete : RowsKind

abbrev pub call_of : RowsKind → Table → Call
call_of write t = on_insert t t.rows
call_of update t = on_update t t.new_rows t.rows
call_of delete t = on_delete t t.rows

-- `it_prev_id != _table_2_id.end() && it_prev_id->second != table_id`
abbrev pub id_changed : Option ℕ → ℕ → Bool
id_changed none table_id = false
id_changed (some previous) table_id = not (previous == table_id)

module _ ⦃h : Headers⦄ where
  unfoldable pub handle_rotate : Parser → Memory → ℕ → Result
  handle_rotate p m size = defined (rotate_tune m 1 size p.fmt) λ e.
      defined (load_bytes e.len m e.new_log)
        λ name. returned (record p { binlog_name = name; binlog_pos = u32 e.position })

  -- `event_query` is what `tune` has read; a failure is dropped.
  abbrev pub query_result : Parser → Status × QueryEvent → Result
  query_result p (success, e) =
      returned (record p { event_query = e; binlog_pos = u32 e.header.log_pos })
  query_result p (failure, e) = returned (record p { event_query = e })

  unfoldable pub handle_query : Parser → Memory → ℕ → Result
  handle_query p m size = defined (query_tune p.event_query m 1 size p.fmt) (query_result p)

  unfoldable pub handle_unhandled : Parser → Memory → ℕ → Result
  handle_unhandled p m size =
      defined (unhandled_tune m 1 size p.fmt)
        λ e. returned (record p { binlog_pos = u32 e.header.log_pos })

  -- The result of `CTable::tune` on a table map.
  abbrev pub map_result : Parser → TablePointer → Status × Table → Result
  map_result p at (success, t) = returned (put_table p at t)
  map_result p at (failure, t) = thrown Exception.tuning_failed (put_table p at t)

  -- A table map of a watched table: both maps learn the table's id, and a table that had another id
  -- before is read anew.
  unfoldable pub map_table : Parser → Memory → ℕ → TablePointer → Table → ℕ → Result
  map_table p m size at t table_id =
      let previous = lookup eq_bytes at.1 p.table_2_id in
      let t' = if id_changed previous table_id then record t { tuned = false } else t in
      let p' = record p {
        id_2_table = insert ◌==◌ table_id at p.id_2_table;
        table_2_id = insert eq_bytes at.1 table_id p.table_2_id;
      } in
      defined (table_tune t' m 1 size p.fmt) (map_result p' at)

  -- `if (tbl)`
  abbrev pub map_if_found : Parser → Memory → ℕ → TablePointer → Option Table → Result
  map_if_found p m size at none = returned p
  map_if_found p m size at (some t) = defined (get_table_id m 1 p.fmt) (map_table p m size at t)

  -- `if (it_dbs != _databases.end())`
  abbrev pub map_in_database : Parser → Memory → ℕ → List ℕ → Option Database → Result
  map_in_database p m size db_name none = returned p
  map_in_database p m size db_name (some db) =
      defined (get_table_name m 1 p.fmt)
        λ table_name. map_if_found p m size (db_name, table_name) (get_table db table_name)

  unfoldable pub handle_table_map : Parser → Memory → ℕ → Result
  unfolding map_table
  handle_table_map p m size =
      defined (get_database_name m 1 p.fmt)
        λ db_name. map_in_database p m size db_name (find_database p db_name)

  -- What `update` returns is not tested. A loop that has not ended leaves nothing.
  abbrev pub call_client : RowsKind → Parser → TablePointer → Option (Status × Table) → Result
  call_client kind p at none = stuck
  call_client kind p at (some (_, t)) =
      let p' = put_table p at t in
      returned (record p' { calls = p'.calls ++ (call_of kind t ∷ []) })

  -- The rows of a table that is known.
  unfoldable pub deliver_rows :
      ℕ → RowsKind → Parser → Memory → RowEvent → TablePointer → Table → Result
  deliver_rows fuel kind p m r at t = defined (table_update fuel t r m) (call_client kind p at)

  -- The pointer in `_id_2_table` is followed unseen: a null or lost one would be undefined.
  abbrev pub deliver_to : ℕ → RowsKind → Parser → Memory → RowEvent → Option TablePointer → Result
  deliver_to fuel kind p m r none = returned p
  deliver_to fuel kind p m r (some at) = defined (find_table p at) (deliver_rows fuel kind p m r at)

  -- `event_row` is what `tune` has read, whether it succeeds or not.
  abbrev pub deliver_if_read : ℕ → RowsKind → Parser → Memory → Status × RowEvent → Result
  deliver_if_read fuel kind p m (success, r) =
      deliver_to fuel kind (record p { event_row = r }) m r (lookup ◌==◌ r.table_id p.id_2_table)
  deliver_if_read fuel kind p m (failure, r) =
      thrown Exception.tuning_failed (record p { event_row = r })

  unfoldable pub handle_rows : ℕ → RowsKind → Parser → Memory → ℕ → Result
  unfolding deliver_rows
  handle_rows fuel kind p m size =
      defined (row_tune p.event_row m 1 size p.fmt) (deliver_if_read fuel kind p m)

  -- The `switch (event_type)`.
  unfoldable pub handle_event : ℕ → Parser → Memory → ℕ → ℕ → Result
  handle_event fuel p m size t =
      if t == event_code EventType.rotate_event
      then handle_rotate p m size
      else if t == event_code EventType.format_description_event
      then returned p
      else if t == event_code EventType.query_event
      then handle_query p m size
      else if t == event_code EventType.table_map_event
      then handle_table_map p m size
      else if t == event_code EventType.write_rows_event
          || t == event_code EventType.write_rows_v2_event
      then handle_rows fuel RowsKind.write p m size
      else if t == event_code EventType.update_rows_event
          || t == event_code EventType.update_rows_v2_event
      then handle_rows fuel RowsKind.update p m size
      else if t == event_code EventType.delete_rows_event
          || t == event_code EventType.delete_rows_v2_event
      then handle_rows fuel RowsKind.delete p m size
      else handle_unhandled p m size
