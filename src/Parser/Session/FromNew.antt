-- ===== src/Parser/Session/FromNew.antt =====
-- A parser from its constructor on, as a client uses it: it is told where to connect and where to
-- start, it watches tables, and then it prepares and follows the binlog.
use mysqlslave.Base.{ℕ, Bool, List, [], ◌∷◌}
use mysqlslave.Base.Dict.{lookup}
use mysqlslave.Memory.{Headers}
use mysqlslave.LogEvent.Rows.{RowEvent}
use mysqlslave.LogEvent.Query.{QueryEvent}
use mysqlslave.Parser.{
  Parser, TablePointer, parser_init, set_connection_params, set_binlog_position, watch,
}
use mysqlslave.Parser.Handlers.Pointers.{Wired, watch-Wired}
use mysqlslave.Parser.Dispatch.{Zlib}
use mysqlslave.Parser.Session.{Client, ◌>>◌}
use mysqlslave.Parser.Session.Outcomes.{Leaves}
use mysqlslave.Parser.Session.Prepare.{prepare, dispatch_events}
use mysqlslave.Parser.Session.Life.{life-Wired}

-- What the client says before `prepare`: the host, its id as a slave, the user, the password, the
-- port, the name and the position of the binlog, and the tables to watch.
pub record Settings : Type 0 where
  pub host : List ℕ
  pub slave_id : ℕ
  pub user : List ℕ
  pub passwd : List ℕ
  pub port : ℕ
  pub fname : List ℕ
  pub pos : ℕ
  pub flags : ℕ
  pub tables : List TablePointer

abbrev pub watch_all : List TablePointer → Parser → Parser
watch_all [] p = p
watch_all ((db_name, table_name) ∷ tables) p = watch_all tables (watch p db_name table_name)

abbrev pub configured : Settings → Parser → Parser
configured c p = watch_all c.tables (
    set_binlog_position (set_connection_params p c.host c.slave_id c.user c.passwd c.port) c.fname
      c.pos c.flags)

watch_all-Wired : (tables : List TablePointer) (p : Parser) → Wired p → Wired (watch_all tables p)
watch_all-Wired [] p wired = wired
watch_all-Wired ((db_name, table_name) ∷ tables) p wired =
    watch_all-Wired tables (watch p db_name table_name) (watch-Wired p db_name table_name wired)

configured-Wired :
    (c : Settings) (junk : Bool) (row : RowEvent) (query : QueryEvent)
    → Wired (configured c (parser_init junk row query))
unfolding parser_init set_connection_params set_binlog_position lookup
configured-Wired c junk row query = watch_all-Wired c.tables _ (λ id at stored. cc)

module _ {S : Type 0} ⦃c : Client S⦄ ⦃h : Headers⦄ ⦃z : Zlib⦄ where
  -- For a new parser with any settings, whatever the server answers and sends, and however `prepare`
  -- and the loop behind it end, by returning or by an exception: each id in `_id_2_table` leads to a
  -- table.
  pub from_new-Wired :
      (settings : Settings) (junk : Bool) (row : RowEvent) (query : QueryEvent) (w : S)
      (fuel rows : ℕ)
      → Leaves Wired (
          (prepare >> dispatch_events fuel rows)
            (record { parser = configured settings (parser_init junk row query); world = w }))
  from_new-Wired settings junk row query w fuel rows =
      life-Wired _ fuel rows (configured-Wired settings junk row query)
