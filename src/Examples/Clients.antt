-- ===== src/Examples/Clients.antt =====
-- A client that watches `d.t`, the packets of the events of that table, and broken packets.
use mysqlslave.Base.{ℕ, ◌≡◌, ◌≢◌, ◌+◌, refl, arith, none, some, [], ◌∷◌, ◌++◌, true}
use mysqlslave.Base.{◌==◌}
use mysqlslave.Base.Dict.{lookup, insert, same_name}
use mysqlslave.Memory.{Memory, load, uint_korr, take_exact, c_string}
use mysqlslave.LogEvent.{event_type_offset}
use mysqlslave.LogEvent.{header_tune, trailing_checksum}
use mysqlslave.LogEvent.Rotate.{unhandled_tune}
use mysqlslave.LogEvent.Header.{header_bytes}
use mysqlslave.LogEvent.TableMap.{
  get_database_name, get_table_name, get_table_id, table_map_tune, table_map_is_valid,
}
use mysqlslave.LogEvent.FieldLength.{net_field_length}
use mysqlslave.LogEvent.FieldLength.RoundTrip.{field_length_bytes}
use mysqlslave.Database.{table_init, table_tune}
use mysqlslave.Parser.{
  Parser, Result, returned, thrown, undefined, stuck, Exception, watch, find_table, put_table,
}
use mysqlslave.Parser.Handlers.{handle_event, handle_unhandled, handle_table_map}
use mysqlslave.Parser.Handlers.Effects.{Always, CallsAtMostOnce, SamePosition}
use mysqlslave.Parser.Dispatch.{
  packet, packet_error, handle_packet, check_length, process_event, verify_checksum,
  compare_checksum,
}
use mysqlslave.Parser.Dispatch.Order.{
  handle_packet-calls, handle_packet-late_checksum, handle_packet-short,
}
use mysqlslave.Parser.Dispatch.Places.{handle_packets, handle_packets-position}
use mysqlslave.Parser.Runs.{Reaches, start, watched, returns, Reaches-Wired}
use mysqlslave.Examples.{client_headers, sum_zlib, example_format, example_header, fresh_parser}
use mysqlslave.Examples.Events.{map_packet, rows_packet}

handle_packet-calls_example :
    Always (CallsAtMostOnce fresh_parser) (handle_packet 6 fresh_parser (packet rows_packet))
handle_packet-calls_example = handle_packet-calls 6 fresh_parser (packet rows_packet)

abbrev watching : Parser
watching = watch fresh_parser (b'd' ∷ []) (b't' ∷ [])

-- The table map, its rows, and a read that fails.
handle_packets-position_example :
    Always
      (SamePosition watching)
      (handle_packets 6 watching (packet map_packet ∷ packet rows_packet ∷ packet_error ∷ []))
handle_packets-position_example =
    handle_packets-position 6 watching (packet map_packet ∷ packet rows_packet ∷ packet_error ∷ [])
      (refl, (refl, (tt, tt)))

handle_packet-short_example :
    handle_packet 1 fresh_parser (packet (0 ∷ 1 ∷ 2 ∷ 3 ∷ 4 ∷ 5 ∷ 6 ∷ 7 ∷ 8 ∷ 9 ∷ [])) ≡ undefined
handle_packet-short_example =
    handle_packet-short 1 fresh_parser 0 (1 ∷ 2 ∷ 3 ∷ 4 ∷ 5 ∷ 6 ∷ 7 ∷ 8 ∷ 9 ∷ []) (omega arith)
      (omega arith)

-- An XID event (type 16) with a wrong checksum.
abbrev checked_parser : Parser
checked_parser = record fresh_parser { fmt = record example_format { use_checksum = true } }

abbrev broken_event : Memory
broken_event = header_bytes (example_header 23) 16 ++ (1 ∷ 2 ∷ 3 ∷ 4 ∷ [])

broken_event_refused :
    handle_packet 1 checked_parser (packet (0 ∷ broken_event))
    ≡ thrown Exception.checksum_mismatch (record checked_parser { binlog_pos = 300 })
unfolding handle_packet check_length process_event verify_checksum compare_checksum handle_event
    handle_unhandled unhandled_tune header_tune trailing_checksum uint_korr take_exact
broken_event_refused = refl

handle_packet-late_checksum_example :
    (t : ℕ) × (load (0 ∷ broken_event) (1 + event_type_offset) ≡ some t)
    × (handle_event 1 checked_parser (0 ∷ broken_event) 23 t
        ≡ returned (record checked_parser { binlog_pos = 300 }))
handle_packet-late_checksum_example =
    handle_packet-late_checksum 1 checked_parser (record checked_parser { binlog_pos = 300 }) 0
      broken_event broken_event_refused

-- The client watches `d.t`, then the server sends its table map.
abbrev watching_parser : Parser
watching_parser = watch fresh_parser (b'd' ∷ []) (b't' ∷ [])

abbrev parser_of : Result → Parser
parser_of (returned p) = p
parser_of (thrown e p) = p
parser_of undefined = fresh_parser
parser_of stuck = fresh_parser

abbrev mapped_parser : Parser
mapped_parser = parser_of (handle_packet 1 watching_parser (packet map_packet))

map_returns : handle_packet 1 watching_parser (packet map_packet) ≡ returned mapped_parser
unfolding handle_packet check_length process_event verify_checksum handle_event handle_table_map
    uint_korr take_exact get_database_name watch find_table put_table lookup insert same_name
    field_length_bytes c_string get_table_name get_table_id table_tune table_init table_map_tune
    header_tune net_field_length table_map_is_valid
map_returns = refl

mapped_run : Reaches fresh_parser mapped_parser
mapped_run =
    returns watching_parser mapped_parser 1 (packet map_packet)
      (watched fresh_parser (b'd' ∷ []) (b't' ∷ []) start) map_returns

id_stored : lookup ◌==◌ 77 mapped_parser.id_2_table ≡ some ((b'd' ∷ []), (b't' ∷ []))
unfolding handle_packet check_length process_event verify_checksum handle_event handle_table_map
    uint_korr take_exact get_database_name watch find_table put_table lookup insert same_name
    field_length_bytes c_string get_table_name get_table_id table_tune table_init table_map_tune
    header_tune net_field_length table_map_is_valid
id_stored = refl

Reaches-Wired_example : find_table mapped_parser ((b'd' ∷ []), (b't' ∷ [])) ≢ none
unfolding lookup
Reaches-Wired_example =
    Reaches-Wired fresh_parser mapped_parser refl mapped_run 77 ((b'd' ∷ []), (b't' ∷ [])) id_stored
