-- ===== src/Parser/Runs.antt =====
-- Runs of the parser: tables are watched, the position and the connection are set, and packets come
-- from the server, in any order.
use mysqlslave.Base.{ℕ, ◌≡◌, ◌≢◌, ap, subst, arith, some, none, List, [], ◌==◌}
use mysqlslave.Base.Dict.{lookup}
use mysqlslave.Memory.{Headers}
use mysqlslave.Parser.{
  Parser, returned, thrown, Exception, TablePointer, find_table, watch, set_binlog_position,
}
use mysqlslave.Parser.Handlers.Effects.{Always}
use mysqlslave.Parser.Handlers.Pointers.{Wired, watch-Wired, set_connection-Wired}
use mysqlslave.Parser.Dispatch.{Zlib, Received, handle_packet}
use mysqlslave.Parser.Dispatch.Order.{handle_packet-Wired}

positioned-Wired :
    (p : Parser) (name : List ℕ) (pos flags : ℕ)
    → Wired p
    → Wired (set_binlog_position p name pos flags)
unfolding set_binlog_position
positioned-Wired p name pos flags wired = set_connection-Wired p p.is_connected name pos flags wired

module _ ⦃h : Headers⦄ where
  module _ ⦃z : Zlib⦄ where
    -- What a client and a server can do to a parser. A round that throws leaves the parser as well.
    pub data Reaches (p : Parser) : Parser → Type 0 where
      start : Reaches p p
      watched :
          (q : Parser) (db_name table_name : List ℕ)
          → Reaches p q
          → Reaches p (watch q db_name table_name)
      positioned :
          (q : Parser) (name : List ℕ) (pos flags : ℕ)
          → Reaches p q
          → Reaches p (set_binlog_position q name pos flags)
      returns :
          (q q' : Parser) (fuel : ℕ) (r : Received)
          → Reaches p q
          → handle_packet fuel q r ≡ returned q'
          → Reaches p q'
      throws :
          (q q' : Parser) (fuel : ℕ) (r : Received) (e : Exception)
          → Reaches p q
          → handle_packet fuel q r ≡ thrown e q'
          → Reaches p q'

    -- On every run of a parser that has no table mapped yet, each id in `_id_2_table` leads to a
    -- table: the pointer that a rows event follows is never lost.
    pub Reaches-Wired :
        (p q : Parser)
        → p.id_2_table ≡ []
        → Reaches p q
        → (id : ℕ) (at : TablePointer) → lookup ◌==◌ id q.id_2_table ≡ some at
        → find_table q at ≢ none
    unfolding lookup
    Reaches-Wired p q unmapped start id at stored =
        ground (arith, ap (lookup ◌==◌ id) unmapped, stored)
    Reaches-Wired p _ unmapped (watched q db_name table_name run) id at stored =
        watch-Wired q db_name table_name (Reaches-Wired p q unmapped run) id at stored
    Reaches-Wired p _ unmapped (positioned q name pos flags run) id at stored =
        positioned-Wired q name pos flags (Reaches-Wired p q unmapped run) id at stored
    Reaches-Wired p q' unmapped (returns q _ fuel r run round) id at stored =
        subst (Always Wired) round (handle_packet-Wired fuel q r (Reaches-Wired p q unmapped run))
          id at stored
    Reaches-Wired p q' unmapped (throws q _ fuel r e run round) id at stored =
        subst (Always Wired) round (handle_packet-Wired fuel q r (Reaches-Wired p q unmapped run))
          id at stored
