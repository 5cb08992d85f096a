-- ===== src/Parser/Handlers/Wired.antt =====
-- The pointers in `_id_2_table`: each leads to a table.
use mysqlslave.Base.{ℕ, ◌≡◌, ◌≢◌, refl, Option, some, none, List}
use mysqlslave.Base.{◌==◌}
use mysqlslave.Base.Dict.{lookup, insert}
use mysqlslave.Memory.{Memory, Headers, load_bytes}
use mysqlslave.ColumnDesc.{eq_bytes}
use mysqlslave.LogEvent.{Status, success, failure}
use mysqlslave.LogEvent.Rows.{RowEvent}
use mysqlslave.Database.{Table, Database, get_table}
use mysqlslave.Database.Update.{table_update}
use mysqlslave.LogEvent.Query.{QueryEvent}
use mysqlslave.LogEvent.Rotate.{rotate_tune, unhandled_tune}
use mysqlslave.Base.Words.{u32}
use mysqlslave.Parser.{Parser, Call, TablePointer, put_table, find_table, find_database}
use mysqlslave.Parser.Handlers.{
  map_result, query_result, map_if_found, map_in_database, call_client, deliver_if_read, RowsKind,
  handle_rotate, handle_query, handle_unhandled, map_table, handle_table_map, deliver_rows,
  deliver_to, handle_rows, handle_event,
}
use mysqlslave.Parser.Handlers.Effects.{Always, Always-defined, handle_event-Always}
use mysqlslave.Parser.Handlers.Pointers.{Wired, put_table-Wired, map_id-Wired, table_there}

module _ ⦃h : Headers⦄ where
  map_table-Wired :
      (p : Parser) (m : Memory) (size : ℕ) (at : TablePointer) (t : Table) (table_id : ℕ)
      → find_table p at ≢ none
      → Wired p
      → Always Wired (map_table p m size at t table_id)
  unfolding map_table
  map_table-Wired p m size at t table_id there wired =
      Always-defined Wired _ (map_result _ at) (λ r _. closed r)
    where
      mapped : Wired (record p {
        id_2_table = insert ◌==◌ table_id at p.id_2_table;
        table_2_id = insert eq_bytes at.1 table_id p.table_2_id;
      })
      mapped = map_id-Wired p table_id at _ there wired

      closed :
          (r : Status × Table)
          → Always Wired (
              map_result
                (record p {
                  id_2_table = insert ◌==◌ table_id at p.id_2_table;
                  table_2_id = insert eq_bytes at.1 table_id p.table_2_id;
                })
                at
                r)
      closed (success, t') = put_table-Wired _ at t' mapped
      closed (failure, t') = put_table-Wired _ at t' mapped

  map_in_database-Wired :
      (p : Parser) (m : Memory) (size : ℕ) (db_name : List ℕ) (o : Option Database)
      → find_database p db_name ≡ o
      → Wired p
      → Always Wired (map_in_database p m size db_name o)
  map_in_database-Wired p m size db_name none found wired = wired
  map_in_database-Wired p m size db_name (some db) found wired =
      Always-defined Wired _ _
        (λ table_name _. in_database table_name (get_table db table_name) refl)
    where
      in_database :
          (table_name : List ℕ) (o : Option Table)
          → get_table db table_name ≡ o
          → Always Wired (map_if_found p m size (db_name, table_name) o)
      in_database table_name none is = wired
      in_database table_name (some t) is = Always-defined Wired _ _ (λ table_id _.
          map_table-Wired p m size (db_name, table_name) t table_id
            (table_there p db_name table_name db t found is) wired)

  handle_table_map-Wired :
      (p : Parser) (m : Memory) (size : ℕ) → Wired p → Always Wired (handle_table_map p m size)
  unfolding handle_table_map
  handle_table_map-Wired p m size wired =
      Always-defined Wired _ _
        (λ db_name _. map_in_database-Wired p m size db_name (find_database p db_name) refl wired)

  -- The fields that the pointers do not depend on.
  other_fields-Wired :
      (p : Parser) (name : List ℕ) (pos : ℕ) (r : RowEvent) (q : QueryEvent) (cs : List Call)
      → Wired p
      → Wired (record p {
        binlog_name = name;
        binlog_pos = pos;
        event_row = r;
        event_query = q;
        calls = cs;
      })
  unfolding find_table
  other_fields-Wired p name pos r q cs wired = wired

  call_client-Wired :
      (kind : RowsKind) (p : Parser) (at : TablePointer) (o : Option (Status × Table))
      → Wired p
      → Always Wired (call_client kind p at o)
  call_client-Wired kind p at none wired = tt
  call_client-Wired kind p at (some (st, t)) wired =
      let p' = put_table p at t in
      other_fields-Wired p' p'.binlog_name p'.binlog_pos p'.event_row p'.event_query _
        (put_table-Wired p at t wired)

  handle_rows-Wired :
      (fuel : ℕ) (kind : RowsKind) (p : Parser) (m : Memory) (size : ℕ)
      → Wired p
      → Always Wired (handle_rows fuel kind p m size)
  unfolding handle_rows deliver_rows
  handle_rows-Wired fuel kind p m size wired =
      Always-defined Wired _ (deliver_if_read fuel kind p m) (λ r _. read r)
    where
      delivered :
          (p : Parser) (r : RowEvent) (o : Option TablePointer)
          → Wired p
          → Always Wired (deliver_to fuel kind p m r o)
      delivered p r none wired = wired
      delivered p r (some at) wired =
          Always-defined Wired (find_table p at) (deliver_rows fuel kind p m r at) (λ t _.
            Always-defined Wired (table_update fuel t r m) (call_client kind p at)
              (λ o _. call_client-Wired kind p at o wired))

      read : (r : Status × RowEvent) → Always Wired (deliver_if_read fuel kind p m r)
      read (success, r) =
          delivered (record p { event_row = r }) r (lookup ◌==◌ r.table_id p.id_2_table)
            (other_fields-Wired p p.binlog_name p.binlog_pos r p.event_query p.calls wired)
      read (failure, r) =
          other_fields-Wired p p.binlog_name p.binlog_pos r p.event_query p.calls wired

  handle_rotate-Wired :
      (p : Parser) (m : Memory) (size : ℕ) → Wired p → Always Wired (handle_rotate p m size)
  unfolding handle_rotate
  handle_rotate-Wired p m size wired = Always-defined Wired (rotate_tune m 1 size p.fmt) _ (λ e _.
      Always-defined Wired (load_bytes e.len m e.new_log) _ (λ name _.
        other_fields-Wired p name (u32 e.position) p.event_row p.event_query p.calls wired))

  handle_query-Wired :
      (p : Parser) (m : Memory) (size : ℕ) → Wired p → Always Wired (handle_query p m size)
  unfolding handle_query
  handle_query-Wired p m size wired = Always-defined Wired _ (query_result p) (λ r _. read r)
    where
      read : (r : Status × QueryEvent) → Always Wired (query_result p r)
      read (success, e) =
          other_fields-Wired p p.binlog_name (u32 e.header.log_pos) p.event_row e p.calls wired
      read (failure, e) =
          other_fields-Wired p p.binlog_name p.binlog_pos p.event_row e p.calls wired

  handle_unhandled-Wired :
      (p : Parser) (m : Memory) (size : ℕ) → Wired p → Always Wired (handle_unhandled p m size)
  unfolding handle_unhandled
  handle_unhandled-Wired p m size wired =
      Always-defined Wired (unhandled_tune m 1 size p.fmt) _ (λ e _.
        other_fields-Wired p p.binlog_name (u32 e.header.log_pos) p.event_row p.event_query p.calls
          wired)

  -- Every handler keeps the pointers, however it ends.
  pub handle_event-Wired :
      (fuel : ℕ) (p : Parser) (m : Memory) (size t : ℕ)
      → Wired p
      → Always Wired (handle_event fuel p m size t)
  unfolding handle_event
  handle_event-Wired fuel p m size t wired =
      handle_event-Always Wired fuel p m size t (handle_rotate-Wired p m size wired) wired
        (handle_query-Wired p m size wired) (handle_table_map-Wired p m size wired)
        (λ kind. handle_rows-Wired fuel kind p m size wired) (handle_unhandled-Wired p m size wired)
