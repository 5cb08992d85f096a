-- ===== src/Parser/Session/Connection.antt =====
-- `connect`, `disconnect`, `reconnect` and `request_binlog_dump` of src/mysqlslave/logparser.cpp.
-- The texts of the exceptions are left out.
use mysqlslave.Base.{ℕ, ◌==◌, ◌||◌, not, Bool, true, false}
use mysqlslave.Parser.{Parser, Exception, is_empty}
use mysqlslave.Parser.Session.{
  Client, Session, gets, call, call_, modify, ◌>>=◌, ◌>>◌, or_undefined, throw_unless,
}
use mysqlslave.Parser.Session.DumpRequest.{dump_request}

-- `COM_BINLOG_DUMP` of the protocol.
abbrev pub com_binlog_dump : ℕ
com_binlog_dump = 18

-- Whether there is a name and a position.
abbrev pub no_position : Parser → Bool
no_position p = is_empty p.binlog_name || p.binlog_pos == 0

module _ {S : Type 0} ⦃c : Client S⦄ where
  unfoldable pub connect : Session S Unit
  connect = do
    ready ← call c.mysql_init
    throw_unless ready Exception.connection_failed
    p ← gets (λ p. p)
    connected ← call (c.mysql_real_connect p.host p.user p.passwd p.port)
    throw_unless connected Exception.connection_failed
    modify (λ p. record p { is_connected = true })

  unfoldable pub disconnect : Session S Unit
  disconnect = do call_ c.mysql_close; modify (λ p. record p { is_connected = false })

  -- What the buffer held comes from the world.
  unfoldable pub request_binlog_dump : Session S Unit
  request_binlog_dump = do
    p ← gets (λ p. p)
    throw_unless (not (no_position p)) Exception.no_binlog_position
    stack ← call (λ w. (c.stack w, w))
    request ← or_undefined (dump_request stack p)
    sent ← call (c.simple_command com_binlog_dump request)
    throw_unless sent Exception.dump_request_failed

  unfoldable pub reconnect : Session S Unit
  reconnect = do
    call_ c.pre_reconnect
    disconnect
    connect
    call_ c.post_reconnect
    request_binlog_dump
