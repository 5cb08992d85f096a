-- ===== src/Parser/Handlers/Positions.antt =====
-- What a rotate event and a query event on the wire make of the parser.
use mysqlslave.Base.{ℕ, ◌^◌, ◌<◌, ◌≡◌, refl, arith, List, length}
use mysqlslave.Base.Words.{u32}
use mysqlslave.Memory.{Memory, Headers}
use mysqlslave.LogEvent.{EventType, event_code, header_len_of, LogEvent}
use mysqlslave.LogEvent.Header.{IsEvent, read_header}
use mysqlslave.LogEvent.Rotate.Layout.{rotate_body, rotate_tune-event, name_at}
use mysqlslave.LogEvent.Query.Layout.{Query, IsQuery, query_body, query_tune-event}
use mysqlslave.Parser.{Parser, returned}
use mysqlslave.Parser.Handlers.{handle_rotate, handle_query, handle_event}

module _ ⦃h : Headers⦄ where
  -- A rotate event in the documented layout, with a position of 64 bits, gives the parser the name of
  -- the next binlog and the position in it modulo 2 ^ 32, and changes nothing else.
  pub handle_event-rotate :
      (fuel : ℕ) (p : Parser) (e : LogEvent) (position crc : ℕ) (name rest : List ℕ) (m : Memory)
      (size : ℕ)
      → IsEvent e
          (event_code EventType.rotate_event)
          (rotate_body position name)
          crc
          p.fmt
          m
          1
          size
          rest
      → position < 256 ^ 8
      → handle_event fuel p m size (event_code EventType.rotate_event)
        ≡ returned (record p { binlog_name = name; binlog_pos = u32 position })
  unfolding handle_event handle_rotate
  handle_event-rotate fuel p e position crc name rest m size event fits =
      rw (rotate_tune-event event fits, name_at event fits) refl

  -- A query event in the documented layout (a time of 32 bits, an error of 16, status variables of no
  -- more bytes than MySQL writes, a statement of less than 2 ^ 32 bytes), of a format whose
  -- post-header for it has 13 bytes, leaves its header, its time, its error, its statement and the
  -- lengths of its parts in the parser, with the position behind the event, and changes nothing else.
  pub handle_event-query :
      (fuel : ℕ) (p : Parser) (e : LogEvent) (q : Query) (crc : ℕ) (rest : List ℕ) (m : Memory)
      (size : ℕ)
      → IsEvent e (event_code EventType.query_event) (query_body q) crc p.fmt m 1 size rest
      → IsQuery q
      → header_len_of p.fmt EventType.query_event ≡ 13
      → handle_event fuel p m size (event_code EventType.query_event)
        ≡ returned (record p {
          event_query = record {
            header = read_header e crc p.fmt;
            q_exec_time = q.time;
            q_len = length q.statement;
            db_len = length q.database;
            error_code = q.error;
            status_vars_len = length q.variables;
            query = q.statement;
          };
          binlog_pos = e.log_pos;
        })
  unfolding handle_event handle_query
  handle_event-query fuel p e q crc rest m size event valid post_len =
      let position : u32 e.log_pos ≡ e.log_pos = omega (arith, event.header_valid.log_pos_fits) in
      rw (query_tune-event event valid post_len p.event_query, position) refl
