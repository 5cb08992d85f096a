-- ===== src/Parser/Session/Requests.antt =====
-- What `request_binlog_dump` sends, and what becomes of it.
use mysqlslave.Base.{ℕ, ◌≡◌, ◌≤◌, refl, Bool, true, false, List, ◌++◌, length}
use mysqlslave.Memory.Endian.{le_bytes}
use mysqlslave.Parser.{Parser, Exception}
use mysqlslave.Parser.Session.{Client, State, Outcome, done, failed, ◌>>=◌, throw_unless}
use mysqlslave.Parser.Session.DumpRequest.{dump_request-lem}
use mysqlslave.Parser.Session.Connection.{com_binlog_dump, no_position, request_binlog_dump}

-- The body of COM_BINLOG_DUMP as the protocol has it: position, flags, id of the slave, name.
abbrev pub dump_body : ℕ → ℕ → ℕ → List ℕ → List ℕ
dump_body position flags slave_id name =
    le_bytes 4 position ++ (le_bytes 2 flags ++ (le_bytes 4 slave_id ++ name))

module _ {S : Type 0} ⦃c : Client S⦄ where
  -- The end of the step, when the command has succeeded or failed.
  abbrev pub answered : Parser → Bool × S → Outcome S Unit
  answered p (true, w) = done tt (record { parser = p; world = w })
  answered p (false, w) = failed Exception.dump_request_failed (record { parser = p; world = w })

  -- With a name of at most 1014 bytes and a position, one command goes out: the body of a dump
  -- request from the position of the parser, with flags 0, whatever `_binlog_flags` and the buffer
  -- hold. The parser stays as it is, and the command's failure is thrown.
  pub request_binlog_dump-sends :
      (s : State S)
      → no_position s.parser ≡ false
      → length s.parser.binlog_name ≤ 1014
      → request_binlog_dump s
        ≡ answered s.parser (
            c.simple_command com_binlog_dump
              (dump_body s.parser.binlog_pos 0 s.parser.slave_id s.parser.binlog_name)
              s.world)
  unfolding request_binlog_dump ◌>>=◌
  request_binlog_dump-sends s there short =
      let request = dump_request-lem (c.stack s.world) s.parser (c.length-stack s.world) short in
      rw (there, request)
        (sent s.parser (
          c.simple_command com_binlog_dump
            (dump_body s.parser.binlog_pos 0 s.parser.slave_id s.parser.binlog_name) s.world))
    where
      sent :
          (p : Parser) (r : Bool × S)
          → throw_unless r.0 Exception.dump_request_failed (record { parser = p; world = r.1 })
            ≡ answered p r
      sent p (true, w) = refl
      sent p (false, w) = refl
