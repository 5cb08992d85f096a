-- ===== src/Parser.antt =====
-- include/mysqlslave/logparser.h and src/mysqlslave/logparser.cpp: the client that follows a
-- master's binlog (`CLogParser`). The state of the object; the handlers of events, the loop, and
-- the start are child modules.
pub mod Handlers
pub mod Dispatch
pub mod Runs
pub mod Session
use mysqlslave.Base.{ℕ, ◌==◌, Option, none, some, Bool, true, false, List, [], ◌∷◌, ◌++◌}
use mysqlslave.Base.{if◌then◌else◌, ◌||◌, length}
use mysqlslave.Base.Dict.{Dict, lookup, insert, same_name}
use mysqlslave.LogEvent.{FormatDescription, format_init, table_map_header_len}
use mysqlslave.LogEvent.Rows.{RowEvent}
use mysqlslave.LogEvent.Query.{QueryEvent}
use mysqlslave.ColumnDesc.{eq_bytes}
use mysqlslave.Database.{Row, Table, table_init, Database, get_table, set_table}

-- A call of one of the virtual functions that a client overrides.
pub data Call : Type 0 where
  on_insert : Table → List Row → Call
  on_update : Table → List Row → List Row → Call
  on_delete : Table → List Row → Call

-- What the code throws.
pub data Exception : Type 0 where
  reading_packet end_packet sanity_check : Exception
  not_supported : ℕ → Exception
  tuning_failed checksum_mismatch : Exception
  connection_failed no_binlog_position dump_request_failed : Exception
  no_server_version no_checksum_variable invalid_server_version format_failed : Exception
  checksum_setup_failed no_databases listing_failed no_master_status : Exception

-- A table is pointed to by the names that its database and it were found by: entries of a
-- `std::map` stay where they are, and the code removes none.
abbrev pub TablePointer : Type 0
TablePointer = List ℕ × List ℕ

-- `event_row` and `event_query` are locals of `dispatch_events` that live through its loop; `calls`
-- are the client's functions called so far.
pub record Parser : Type 0 where
  pub id_2_table : Dict ℕ TablePointer
  pub table_2_id : Dict (List ℕ) ℕ
  pub databases : Dict (List ℕ) Database
  pub host : List ℕ
  pub slave_id : ℕ
  pub port : ℕ
  pub user : List ℕ
  pub passwd : List ℕ
  pub fmt : FormatDescription
  pub binlog_name : List ℕ
  pub binlog_pos : ℕ
  pub binlog_flags : ℕ
  pub is_connected : Bool
  pub dispatch : Bool
  pub event_row : RowEvent
  pub event_query : QueryEvent
  pub calls : List Call

-- How a call ends: it returns, it throws, it leaves the packet (`undefined`), or the loop over the
-- rows of an event has used up its fuel (`stuck`).
pub data Result : Type 0 where
  returned : Parser → Result
  thrown : Exception → Parser → Result
  undefined : Result
  stuck : Result

abbrev pub and_then : Result → (Parser → Result) → Result
and_then (returned p) f = f p
and_then (thrown e p) f = thrown e p
and_then undefined f = undefined
and_then stuck f = stuck

-- A step that may leave the packet.
abbrev pub defined {ℓ} : {A : Type ℓ} → Option A → (A → Result) → Result
defined none f = undefined
defined (some a) f = f a

-- `CLogParser::CLogParser`. `junk` is the flag of the format that its constructor does not set, and
-- the events are the locals of `dispatch_events`, which are not there yet.
unfoldable pub parser_init : Bool → RowEvent → QueryEvent → Parser
parser_init junk row query = record {
  id_2_table = [];
  table_2_id = [];
  databases = [];
  host = [];
  slave_id = 0;
  port = 0;
  user = [];
  passwd = [];
  fmt = format_init junk;
  binlog_name = [];
  binlog_pos = 0;
  binlog_flags = 0;
  is_connected = false;
  dispatch = true;
  event_row = row;
  event_query = query;
  calls = [];
}

-- `set_connection_params` and `set_binlog_position`
unfoldable pub set_connection_params : Parser → List ℕ → ℕ → List ℕ → List ℕ → ℕ → Parser
set_connection_params p host slave_id user passwd port = record p {
  host = host;
  user = user;
  passwd = passwd;
  port = port;
  slave_id = slave_id;
}

unfoldable pub set_binlog_position : Parser → List ℕ → ℕ → ℕ → Parser
set_binlog_position p fname pos flags = record p {
  binlog_name = fname;
  binlog_pos = pos;
  binlog_flags = flags;
}

abbrev pub find_database : Parser → List ℕ → Option Database
find_database p name = lookup same_name name p.databases

abbrev pub database_or_new : Option Database → Database
database_or_new none = []
database_or_new (some db) = db

abbrev pub is_empty : List ℕ → Bool
is_empty [] = true
is_empty (_ ∷ _) = false

-- The table that a pointer leads to.
unfoldable pub find_table : Parser → TablePointer → Option Table
find_table p (db_name, table_name) = elim (find_database p db_name) [
  | none ↦ none
  | some db ↦ get_table db table_name
]

-- A write through the pointer.
unfoldable pub put_table : Parser → TablePointer → Table → Parser
put_table p (db_name, table_name) t =
    let db = set_table (database_or_new (find_database p db_name)) table_name t in
    record p { databases = insert same_name db_name db p.databases }

-- The table that `get_table` gives, or makes.
abbrev pub make_if_missing : Parser → TablePointer → Option Table → Parser
make_if_missing p at none = put_table p at table_init
make_if_missing p at (some t) = p

-- `watch`: makes the database and the table, unless they are there.
unfoldable pub watch : Parser → List ℕ → List ℕ → Parser
unfolding find_table put_table
watch p db_name table_name =
    let at : TablePointer = (db_name, table_name) in
    let watched = make_if_missing p at (find_table p at) in
    if is_empty db_name || is_empty table_name then p else watched
