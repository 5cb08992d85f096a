-- ===== src/Parser/Session/Prepare.antt =====
-- `prepare` and the loop of `dispatch_events` of src/mysqlslave/logparser.cpp.
use mysqlslave.Base.{ℕ, zero, suc, not, ◌&&◌, Bool, false, if◌then◌else◌, []}
use mysqlslave.Memory.{Headers}
use mysqlslave.LogEvent.{LogEvent}
use mysqlslave.LogEvent.Rows.{RowEvent}
use mysqlslave.LogEvent.Query.{QueryEvent}
use mysqlslave.Parser.{Parser, Result}
use mysqlslave.Parser.Dispatch.{Zlib, Received, handle_packet}
use mysqlslave.Parser.Session.{
  Client, Outcome, done, failed, undefined, stuck, Session, pure, gets, call, modify, ◌>>=◌, ◌>>◌,
}
use mysqlslave.Parser.Session.Connection.{connect, disconnect, reconnect, request_binlog_dump}
use mysqlslave.Parser.Session.Format.{get_binlog_format, setup_master_binlog_checksum}
use mysqlslave.Parser.Session.Structure.{build_db_structure}

-- `stop_event_loop`, but for the closing of the socket.
unfoldable pub stop_event_loop : Parser → Parser
stop_event_loop p = record p { dispatch = false }

-- A result of the handlers, as the end of a step.
abbrev pub resume : {S : Type 0} → Result → S → Outcome S Unit
resume (Result.returned p) w = done tt (record { parser = p; world = w })
resume (Result.thrown e p) w = failed e (record { parser = p; world = w })
resume Result.undefined w = undefined
resume Result.stuck w = stuck

-- The constructors leave the other members as they find them.
abbrev pub log_event_init : LogEvent → LogEvent
log_event_init junk = record junk {
  when = 0;
  server_id = 0;
  data_written = 0;
  log_pos = 0;
  flags = 0;
}

abbrev pub row_init : RowEvent → RowEvent
row_init junk = record junk { header = log_event_init junk.header; valid = false }

abbrev pub query_init : QueryEvent → QueryEvent
query_init junk = record junk { header = log_event_init junk.header; query = [] }

module _ {S : Type 0} ⦃c : Client S⦄ where
  unfoldable pub prepare : Session S Unit
  prepare = do
    connect
    get_binlog_format
    setup_master_binlog_checksum
    build_db_structure
    request_binlog_dump

  -- A read of `_dispatch`, which another thread may have cleared by then.
  unfoldable pub read_dispatch : Session S Bool
  read_dispatch = do
    stopped ← call c.stop_requested
    modify (λ p. if stopped then stop_event_loop p else p)
    gets (λ p. p.dispatch)

  unfoldable pub reconnect_once : Session S Unit
  reconnect_once = do reconnect; read_dispatch; pure tt

  -- `while (_dispatch && !_is_connected) reconnect()`: `reconnect` connects, or throws, so the body
  -- runs once at most, and the loop then reads `_dispatch` once more.
  unfoldable pub wait_connected : Session S Unit
  unfolding read_dispatch reconnect_once
  wait_connected = do
    going ← read_dispatch
    connected ← gets (λ p. p.is_connected)
    if going && not connected then reconnect_once else pure tt

  module _ ⦃h : Headers⦄ where
    module _ ⦃z : Zlib⦄ where
      unfoldable pub handle_received : ℕ → Received → Session S Unit
      handle_received rows r s = resume (handle_packet rows s.parser r) s.world

      -- One round of the loop, and `more` rounds behind it.
      unfoldable pub dispatch_round : ℕ → Session S Unit → Session S Unit
      unfolding handle_received wait_connected read_dispatch
      dispatch_round rows more = do
        wait_connected
        received ← call c.cli_safe_read
        going ← read_dispatch
        if not going then pure tt else do
          handle_received rows received
          again ← read_dispatch
          if again then more else disconnect

      -- At most `fuel` rounds, with `rows` of fuel for the rows of an event.
      unfoldable pub dispatch_loop : ℕ → ℕ → Session S Unit
      unfolding dispatch_round
      dispatch_loop zero rows = λ s. stuck
      dispatch_loop (suc fuel) rows = dispatch_round rows (dispatch_loop fuel rows)

      -- The locals are made, and then the loop runs.
      unfoldable pub dispatch_events : ℕ → ℕ → Session S Unit
      unfolding dispatch_loop
      dispatch_events fuel rows = do
        (row, query) ← call (λ w. (c.locals w, w))
        modify (λ p. record p { event_row = row_init row; event_query = query_init query })
        dispatch_loop fuel rows
