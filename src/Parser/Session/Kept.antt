-- ===== src/Parser/Session/Kept.antt =====
-- What the whole life of a parser keeps: `prepare`, and then the loop over the packets.
use mysqlslave.Base.{
  ℕ, zero, suc, Option, none, some, Bool, true, false, List, [], ◌∷◌, if◌then◌else◌,
}
use mysqlslave.Memory.{Headers}
use mysqlslave.LogEvent.{FormatDescription}
use mysqlslave.LogEvent.Rows.{RowEvent}
use mysqlslave.LogEvent.Query.{QueryEvent}
use mysqlslave.Database.{Table, Database}
use mysqlslave.Parser.{Parser, Result, Exception, TablePointer, put_table}
use mysqlslave.Parser.Handlers.Effects.{Always}
use mysqlslave.Parser.Dispatch.{Zlib, Received, handle_packet}
use mysqlslave.Parser.Session.{SqlRow, Client, Session, query_rows, throw}
use mysqlslave.Parser.Session.Outcomes.{Leaves, Keeps, Keeps-bind, keeps_rules}
use mysqlslave.Parser.Session.Connection.{connect, disconnect, reconnect, request_binlog_dump}
use mysqlslave.Parser.Session.Format.{
  server_version, adopt_format, get_binlog_format, setup_master_binlog_checksum,
}
use mysqlslave.Parser.Session.Position.{take_position, get_last_binlog_position}
use mysqlslave.Parser.Session.Structure.{
  build_table, build_listed_table, build_tables, build_listed_database, build_database,
  build_databases, build_db_structure,
}
use mysqlslave.Parser.Session.Prepare.{
  prepare, read_dispatch, wait_connected, stop_event_loop, dispatch_round, dispatch_loop,
  dispatch_events, reconnect_once, handle_received, resume,
}

-- What does not depend on the fields that the session writes.
pub record IsSteady (P : Parser → Type 0) : Type 0 where
  pub connection : (p : Parser) (b : Bool) → P p → P (record p { is_connected = b })
  pub format : (p : Parser) (f : FormatDescription) → P p → P (record p { fmt = f })
  pub position :
      (p : Parser) (name : List ℕ) (n : ℕ)
      → P p
      → P (record p { binlog_name = name; binlog_pos = n })
  pub table : (p : Parser) (at : TablePointer) (t : Table) → P p → P (put_table p at t)
  pub flag : (p : Parser) → P p → P (record p { dispatch = false })
  pub locals :
      (p : Parser) (r : RowEvent) (q : QueryEvent)
      → P p
      → P (record p { event_row = r; event_query = q })

module _ {S : Type 0} ⦃c : Client S⦄ (P : Parser → Type 0) where
  pub Keeps-query_rows : (text : List ℕ) → Keeps {S = S} P (query_rows text)
  unfolding query_rows
  Keeps-query_rows text = search keeps_rules depth 14

  pub Keeps-request : Keeps {S = S} P request_binlog_dump
  unfolding request_binlog_dump
  Keeps-request = search keeps_rules depth 14

  pub Keeps-server_version : Keeps {S = S} P server_version
  unfolding server_version
  Keeps-server_version = search (keeps_rules, Keeps-query_rows) depth 14

  pub Keeps-checksum : Keeps {S = S} P setup_master_binlog_checksum
  unfolding setup_master_binlog_checksum
  Keeps-checksum = search keeps_rules depth 14

module _ {S : Type 0} ⦃c : Client S⦄ (P : Parser → Type 0)
    (format : (p : Parser) (f : FormatDescription) → P p → P (record p { fmt = f })) where
  pub Keeps-format : Keeps {S = S} P get_binlog_format
  unfolding get_binlog_format adopt_format
  Keeps-format = search (keeps_rules, Keeps-query_rows P, Keeps-server_version P, format) depth 14

module _ {S : Type 0} ⦃c : Client S⦄ (P : Parser → Type 0)
    (position : (p : Parser) (name : List ℕ) (n : ℕ)
      → P p
      → P (record p { binlog_name = name; binlog_pos = n }))
    (table : (p : Parser) (at : TablePointer) (t : Table) → P p → P (put_table p at t)) where
  Keeps-take_position : (row : SqlRow) → Keeps {S = S} P (take_position row)
  unfolding take_position
  Keeps-take_position row = search (keeps_rules, position) depth 14

  Keeps-position : Keeps {S = S} P get_last_binlog_position
  unfolding get_last_binlog_position
  Keeps-position = search (keeps_rules, Keeps-query_rows P, Keeps-first) depth 14
    where
      Keeps-first :
          (rows : List SqlRow)
          → Keeps {S = S} P
              (elim rows [ [] ↦ throw Exception.no_master_status | row ∷ _ ↦ take_position row ])
      Keeps-first [] = search keeps_rules depth 14
      Keeps-first (row ∷ rows) = Keeps-take_position row

  Keeps-table :
      (db_name name : List ℕ) (o : Option Table) → Keeps {S = S} P (build_table db_name name o)
  unfolding build_table
  Keeps-table db_name name none = search keeps_rules depth 14
  Keeps-table db_name name (some t) = search (keeps_rules, Keeps-query_rows P, table) depth 14

  Keeps-tables :
      (db_name : List ℕ) (rows : List SqlRow) → Keeps {S = S} P (build_tables db_name rows)
  unfolding build_tables
  Keeps-tables db_name [] = search keeps_rules depth 14
  Keeps-tables db_name (row ∷ rows) =
      Keeps-bind (build_listed_table db_name row) (λ _. build_tables db_name rows)
        (unfold build_listed_table in search (keeps_rules, Keeps-table) depth 14)
        (λ _. Keeps-tables db_name rows)

  Keeps-database : (name : List ℕ) (o : Option Database) → Keeps {S = S} P (build_database name o)
  unfolding build_database
  Keeps-database name none = search keeps_rules depth 14
  Keeps-database name (some db) = search (keeps_rules, Keeps-tables) depth 14

  Keeps-databases : (rows : List SqlRow) → Keeps {S = S} P (build_databases rows)
  unfolding build_databases
  Keeps-databases [] = search keeps_rules depth 14
  Keeps-databases (row ∷ rows) =
      Keeps-bind (build_listed_database row) (λ _. build_databases rows)
        (unfold build_listed_database in search (keeps_rules, Keeps-database) depth 14)
        (λ _. Keeps-databases rows)

  pub Keeps-structure : Keeps {S = S} P build_db_structure
  unfolding build_db_structure
  Keeps-structure = search (keeps_rules, Keeps-databases, Keeps-position) depth 14

module _ {S : Type 0} ⦃c : Client S⦄ (P : Parser → Type 0)
    (connection : (p : Parser) (b : Bool) → P p → P (record p { is_connected = b })) where
  Keeps-connect : Keeps {S = S} P connect
  unfolding connect
  Keeps-connect = search (keeps_rules, connection) depth 14

  pub Keeps-disconnect : Keeps {S = S} P disconnect
  unfolding disconnect
  Keeps-disconnect = search (keeps_rules, connection) depth 14

  Keeps-reconnect : Keeps {S = S} P reconnect
  unfolding reconnect
  Keeps-reconnect = search (keeps_rules, Keeps-connect, Keeps-disconnect, Keeps-request P) depth 14

module _ {S : Type 0} ⦃c : Client S⦄ (P : Parser → Type 0) (steady : IsSteady P) where
  pub Keeps-prepare : Keeps {S = S} P prepare
  unfolding prepare
  Keeps-prepare =
      search
        (
          keeps_rules,
          Keeps-connect P steady.connection,
          Keeps-format P steady.format,
          Keeps-checksum P,
          Keeps-structure P steady.position steady.table,
          Keeps-request P,
        )
        depth 14

  Keeps-read_dispatch : Keeps {S = S} P read_dispatch
  unfolding read_dispatch stop_event_loop
  Keeps-read_dispatch = search (keeps_rules, stopped) depth 14
    where
      stopped : (b : Bool) (p : Parser) → P p → P (if b then stop_event_loop p else p)
      stopped true p now = steady.flag p now
      stopped false p now = now

  Keeps-wait_connected : Keeps {S = S} P wait_connected
  unfolding wait_connected reconnect_once
  Keeps-wait_connected =
      search (keeps_rules, Keeps-read_dispatch, Keeps-reconnect P steady.connection) depth 14

  module _ ⦃h : Headers⦄ where
    module _ ⦃z : Zlib⦄
        (handled : (fuel : ℕ) (p : Parser) (r : Received)
          → P p
          → Always P (handle_packet fuel p r)) where
      Leaves-resume : (o : Result) (w : S) → Always P o → Leaves P (resume o w)
      Leaves-resume (Result.returned p) w now = now
      Leaves-resume (Result.thrown e p) w now = now
      Leaves-resume Result.undefined w now = tt
      Leaves-resume Result.stuck w now = tt

      Keeps-handle : (rows : ℕ) (r : Received) → Keeps {S = S} P (handle_received rows r)
      unfolding handle_received
      Keeps-handle rows r = record {
        at = λ s now.
            Leaves-resume (handle_packet rows s.parser r) s.world (handled rows s.parser r now);
      }

      Keeps-round :
          (rows : ℕ) (more : Session S Unit)
          → Keeps {S = S} P more
          → Keeps {S = S} P (dispatch_round rows more)
      unfolding dispatch_round
      Keeps-round rows more keeps =
          search
            (
              keeps_rules,
              Keeps-wait_connected,
              Keeps-read_dispatch,
              Keeps-handle,
              Keeps-disconnect P steady.connection,
            )
            depth 14

      Keeps-loop : (fuel rows : ℕ) → Keeps {S = S} P (dispatch_loop fuel rows)
      unfolding dispatch_loop
      Keeps-loop zero rows = record { at = λ s now. tt }
      Keeps-loop (suc fuel) rows = Keeps-round rows (dispatch_loop fuel rows) (Keeps-loop fuel rows)

      pub Keeps-dispatch_events : (fuel rows : ℕ) → Keeps {S = S} P (dispatch_events fuel rows)
      unfolding dispatch_events
      Keeps-dispatch_events fuel rows = search (keeps_rules, Keeps-loop, steady.locals) depth 14
