-- ===== src/Examples/Statements.antt =====
-- A rotate event and a query event, as packets, and what they make of a parser.
use mysqlslave.Base.{◌≡◌, refl, arith, [], ◌∷◌, ◌++◌}
use mysqlslave.Base.Texts.{codes}
use mysqlslave.Memory.{Memory}
use mysqlslave.LogEvent.Header.{IsEvent, header_bytes, read_header}
use mysqlslave.LogEvent.Rotate.Layout.{rotate_body}
use mysqlslave.LogEvent.Query.Layout.{Query, IsQuery, query_body}
use mysqlslave.Parser.{Parser, returned}
use mysqlslave.Parser.Handlers.{handle_event}
use mysqlslave.Parser.Handlers.Positions.{handle_event-rotate, handle_event-query}
use mysqlslave.Examples.{client_headers, example_format, example_header, fresh_parser}
use mysqlslave.Examples.Events.{example_header-IsHeader}

abbrev rotate_packet : Memory
rotate_packet = 0 ∷ header_bytes (example_header 37) 4 ++ rotate_body 107 (codes "bin.000002")

rotate_packet-IsEvent :
    IsEvent
      (example_header 37)
      4
      (rotate_body 107 (codes "bin.000002"))
      0
      example_format
      rotate_packet
      1
      37
      []
rotate_packet-IsEvent = record {
  header_valid = example_header-IsHeader 37 (omega arith);
  crc_fits = omega arith;
  placed = refl;
  sized = refl;
  size_fits = omega arith;
  header_len = refl;
}

handle_event-rotate_example :
    handle_event 9 fresh_parser rotate_packet 37 4
    ≡ returned (record fresh_parser { binlog_name = codes "bin.000002"; binlog_pos = 107 })
handle_event-rotate_example =
    handle_event-rotate 9 fresh_parser (example_header 37) 107 0 (codes "bin.000002") []
      rotate_packet 37 rotate_packet-IsEvent (omega arith)

-- A parser whose format has 13 bytes in the post-header of a query.
abbrev query_parser : Parser
query_parser = record fresh_parser { fmt = record example_format { post_header_len = 0 ∷ 13 ∷ [] } }

abbrev begin : Query
begin = record {
  thread = 8;
  time = 1;
  error = 0;
  variables = [];
  database = codes "d";
  statement = codes "BEGIN";
}

abbrev query_packet : Memory
query_packet = 0 ∷ header_bytes (example_header 39) 2 ++ query_body begin

query_packet-IsEvent :
    IsEvent (example_header 39) 2 (query_body begin) 0 query_parser.fmt query_packet 1 39 []
query_packet-IsEvent = record {
  header_valid = example_header-IsHeader 39 (omega arith);
  crc_fits = omega arith;
  placed = refl;
  sized = refl;
  size_fits = omega arith;
  header_len = refl;
}

begin-IsQuery : IsQuery begin
begin-IsQuery = record {
  time_fits = omega arith;
  error_fits = omega arith;
  variables_few = omega arith;
  statement_fits = omega arith;
}

handle_event-query_example :
    handle_event 9 query_parser query_packet 39 2
    ≡ returned (record query_parser {
      event_query = record {
        header = read_header (example_header 39) 0 query_parser.fmt;
        q_exec_time = 1;
        q_len = 5;
        db_len = 1;
        error_code = 0;
        status_vars_len = 0;
        query = codes "BEGIN";
      };
      binlog_pos = 300;
    })
handle_event-query_example =
    handle_event-query 9 query_parser (example_header 39) begin 0 [] query_packet 39
      query_packet-IsEvent begin-IsQuery refl
