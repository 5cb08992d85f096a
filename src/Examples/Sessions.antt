-- ===== src/Examples/Sessions.antt =====
-- A scripted server: it answers every query with the next result, and then sends packets.
use mysqlslave.Base.{
  ℕ, ◌-◌, ◌≤◌, length, ◌≡◌, refl, arith, Option, none, some, List, [], ◌∷◌, Bool, true, false,
  replicate, length-replicate, not,
}
use mysqlslave.Base.Texts.{codes}
use mysqlslave.Base.Dict.{same_name}
use mysqlslave.ColumnDesc
use mysqlslave.ColumnDesc.{eq_bytes, column_desc_init}
use mysqlslave.LogEvent.{FormatDescription, format_is_valid}
use mysqlslave.Value.{value_init}
use mysqlslave.Database.{Row, Table, table_init, find_column, value_by_name}
use mysqlslave.Parser.{Parser, Exception, parser_init, watch}
use mysqlslave.Parser.Handlers.Pointers.{Wired}
use mysqlslave.Parser.Dispatch.{Received, packet_error, packet}
use mysqlslave.Parser.Session.{SqlRow, Client, State, done, throw, ◌>>◌}
use mysqlslave.Parser.Session.Connection.{request_binlog_dump}
use mysqlslave.Parser.Session.Requests.{answered, request_binlog_dump-sends}
use mysqlslave.Parser.Session.Format.{accepted_version, get_binlog_format}
use mysqlslave.Parser.Session.Versions.{get_binlog_format-accepts}
use mysqlslave.Parser.Session.Position.{get_last_binlog_position}
use mysqlslave.Parser.Session.Positions.{get_last_binlog_position-row}
use mysqlslave.Parser.Session.Structure.{add_columns}
use mysqlslave.Parser.Session.Columns.{ListedColumn, listing, add_columns-value_by_name}
use mysqlslave.Parser.Session.Prepare.{prepare, dispatch_events, dispatch_loop}
use mysqlslave.Parser.Session.Outcomes.{Leaves}
use mysqlslave.Parser.Session.Ready.{Returns, Ready, prepare-Ready}
use mysqlslave.Parser.Session.FromNew.{Settings, configured, from_new-Wired}
use mysqlslave.Parser.Session.Rounds.{IsStopped, rounds, dispatch_loop-enough}
use mysqlslave.Parser.Session.Stops.{Stopped, dispatch_events-Stopped}
use mysqlslave.Examples.{client_headers, sum_zlib, fresh_parser, no_rows, no_query}
use mysqlslave.Examples.Events.{map_packet, rows_packet}

record Script : Type 0 where
  results : List (List SqlRow)
  packets : List (List ℕ)

abbrev next_result : Script → Option (List SqlRow) × Script
next_result s = elim s.results [ [] ↦ (none, s) | r ∷ rest ↦ (some r, record s { results = rest }) ]

abbrev next_packet : Script → Received × Script
next_packet s = elim s.packets [
  | [] ↦ (packet_error, s)
  | p ∷ rest ↦ (packet p, record s { packets = rest })
]

abbrev nothing_left : Script → Bool
nothing_left s = elim s.packets [ [] ↦ true | _ ∷ _ ↦ false ]

abbrev old_stack : List ℕ
old_stack = replicate 1024 7

instance abbrev scripted : Client Script
scripted = record {
  mysql_init = λ s. (true, s);
  mysql_real_connect = λ host user passwd port s. (true, s);
  mysql_close = λ s. s;
  mysql_query = λ text s. (true, s);
  mysql_store_result = next_result;
  mysql_list_dbs = next_result;
  mysql_select_db = λ name s. (true, s);
  mysql_list_tables = next_result;
  simple_command = λ code bytes s. (true, s);
  cli_safe_read = next_packet;
  pre_reconnect = λ s. s;
  post_reconnect = λ s. s;
  stop_requested = λ s. (nothing_left s, s);
  locals = λ s. (no_rows, no_query);
  stack = λ s. old_stack;
  length-stack = λ s. length-replicate {A = ℕ} 1024 7;
}

abbrev version_rows : List SqlRow
version_rows = (some (codes "5.6.51") ∷ []) ∷ []

abbrev checksum_rows : List SqlRow
checksum_rows = (some (codes "binlog_checksum") ∷ some (codes "NONE") ∷ []) ∷ []

abbrev master_rows : List SqlRow
master_rows = (some (codes "bin.000001") ∷ some (codes "107") ∷ []) ∷ []

abbrev columns : List ListedColumn
columns =
    record { name = codes "id"; type = codes "int(11)"; others = [] }
    ∷ record { name = codes "kind"; type = codes "enum('a','b')"; others = none ∷ [] }
    ∷ []

abbrev script : Script
script = record {
  results =
      version_rows
      ∷ checksum_rows
      ∷ ((some (b'd' ∷ []) ∷ []) ∷ [])
      ∷ ((some (b't' ∷ []) ∷ []) ∷ [])
      ∷ listing columns
      ∷ master_rows
      ∷ [];
  packets = map_packet ∷ rows_packet ∷ [];
}

abbrev watching : Parser
watching = watch fresh_parser (b'd' ∷ []) (b't' ∷ [])

abbrev before : State Script
before = record { parser = watching; world = script }

prepare-Ready_example : Returns Ready (prepare before)
prepare-Ready_example = prepare-Ready before

dispatch_events-Stopped_example : Returns Stopped (dispatch_events 3 6 before)
dispatch_events-Stopped_example = dispatch_events-Stopped 3 6 before

-- The packets that are left in a script; the loop is stopped behind the last one.
abbrev packets_left : Script → ℕ
packets_left s = length s.packets

none_stops :
    (packets : List (List ℕ))
    → length packets ≡ 0
    → (elim packets [ [] ↦ true | _ ∷ _ ↦ false ]) ≡ true
none_stops [] none_left = refl
none_stops (p ∷ packets) none_left = absurd (omega arith)

next_left : (w : Script) → packets_left (next_packet w).1 ≤ packets_left w - 1
next_left w = ground arith

packets-IsStopped : IsStopped packets_left
packets-IsStopped = record {
  stop = λ w none_left. none_stops w.packets none_left;
  look = λ w. omega arith;
  read = λ w. next_left w;
  init = λ w. omega arith;
  connection = λ host user passwd port w. omega arith;
  close = λ w. omega arith;
  command = λ code bytes w. omega arith;
  before = λ w. omega arith;
  behind = λ w. omega arith;
}

dispatch_loop-enough_example :
    dispatch_loop 3 6 before ≡ rounds 3 6 (throw Exception.no_master_status) before
dispatch_loop-enough_example =
    dispatch_loop-enough packets_left packets-IsStopped 3 6 (throw Exception.no_master_status)
      before (omega arith)

abbrev settings : Settings
settings = record {
  host = codes "localhost";
  slave_id = 2;
  user = codes "slave";
  passwd = [];
  port = 3306;
  fname = codes "bin.000001";
  pos = 4;
  flags = 0;
  tables = (b'd' ∷ [], b't' ∷ []) ∷ [];
}

from_new-Wired_example : Leaves Wired (
    (prepare >> dispatch_events 3 6)
      (record { parser = configured settings (parser_init true no_rows no_query); world = script }))
from_new-Wired_example = from_new-Wired settings true no_rows no_query script 3 6

abbrev positioned : State Script
positioned = record {
  parser = record fresh_parser {
    binlog_name = codes "bin.000001";
    binlog_pos = 107;
    binlog_flags = 5;
  };
  world = script;
}

request_binlog_dump-sends_example :
    request_binlog_dump positioned ≡ answered positioned.parser (true, script)
request_binlog_dump-sends_example = request_binlog_dump-sends positioned refl (omega arith)

abbrev asking : State Script
asking = record {
  parser = fresh_parser;
  world = record { results = master_rows ∷ []; packets = [] };
}

get_last_binlog_position-row_example :
    get_last_binlog_position asking
    ≡ done tt (record {
      parser = record fresh_parser { binlog_name = codes "bin.000001"; binlog_pos = 107 };
      world = record { results = []; packets = [] };
    })
get_last_binlog_position-row_example =
    get_last_binlog_position-row asking asking.world (record { results = []; packets = [] })
      (codes "bin.000001") 107 [] [] refl (omega arith) refl refl

get_binlog_format-accepts_example :
    (f : FormatDescription) × (get_binlog_format before
      ≡ done tt (record {
        parser = record watching { fmt = f };
        world = record script {
          results =
              ((some (b'd' ∷ []) ∷ []) ∷ [])
              ∷ ((some (b't' ∷ []) ∷ []) ∷ [])
              ∷ listing columns
              ∷ master_rows
              ∷ [];
        };
      }))
    × (f.use_checksum ≡ not (eq_bytes (codes "NONE") (codes "NONE")))
    × (format_is_valid f ≡ true)
unfolding accepted_version
get_binlog_format-accepts_example =
    get_binlog_format-accepts before script
      (record script {
        results =
            checksum_rows
            ∷ ((some (b'd' ∷ []) ∷ []) ∷ [])
            ∷ ((some (b't' ∷ []) ∷ []) ∷ [])
            ∷ listing columns
            ∷ master_rows
            ∷ [];
      })
      (record script {
        results =
            checksum_rows
            ∷ ((some (b'd' ∷ []) ∷ []) ∷ [])
            ∷ ((some (b't' ∷ []) ∷ []) ∷ [])
            ∷ listing columns
            ∷ master_rows
            ∷ [];
      })
      (record script {
        results =
            ((some (b'd' ∷ []) ∷ []) ∷ [])
            ∷ ((some (b't' ∷ []) ∷ []) ∷ [])
            ∷ listing columns
            ∷ master_rows
            ∷ [];
      })
      (codes "5.6.51") (codes "NONE") (codes "binlog_checksum") [] [] [] [] refl refl refl refl refl

abbrev row : Row
row = record { has_table = true; values = value_init ∷ value_init ∷ [] }

add_columns-value_by_name_example :
    (t' : Table) × (add_columns 0 (listing columns) table_init ≡ some t')
    × (find_column t' (codes "kind")
        ≡ some (ColumnDesc.update column_desc_init 1 (codes "enum('a','b')")))
    × (value_by_name t' row (codes "kind") ≡ value_init)
unfolding same_name value_init
add_columns-value_by_name_example =
    add_columns-value_by_name columns table_init 1
      (record { name = codes "kind"; type = codes "enum('a','b')"; others = none ∷ [] }) row
      ((refl, tt), (tt, tt)) refl refl

-- A server of version 8.0.
abbrev refused : State Script
refused = record {
  parser = watching;
  world = record {
    results = ((some (codes "8.0.36") ∷ []) ∷ []) ∷ checksum_rows ∷ [];
    packets = [];
  };
}
