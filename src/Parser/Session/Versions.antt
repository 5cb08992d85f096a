-- ===== src/Parser/Session/Versions.antt =====
-- `get_binlog_format` with a server that answers both queries.
use mysqlslave.Base.{ℕ, ◌≡◌, refl, some, not, true, false, List, ◌∷◌}
use mysqlslave.Base.Texts.{codes}
use mysqlslave.ColumnDesc.{eq_bytes}
use mysqlslave.LogEvent.{FormatDescription, format_tune, format_is_valid}
use mysqlslave.Parser.{Exception}
use mysqlslave.Parser.Session.{SqlRow, Client, State, done, failed, query_rows, ◌>>=◌}
use mysqlslave.Parser.Session.Format.{
  accepted_version, server_version, adopt_format, get_binlog_format,
}
use mysqlslave.Parser.Session.Ready.{format_tune-valid}

module _ {S : Type 0} ⦃c : Client S⦄ (s : State S) (w₁ w₂ w₃ w₄ : S) (version value name : List ℕ)
    (columns₁ columns₂ : SqlRow) (rows₁ rows₂ : List SqlRow)
    (asked : c.mysql_query (codes "SELECT VERSION()") s.world ≡ (true, w₁))
    (answered : c.mysql_store_result w₁ ≡ (some ((some version ∷ columns₁) ∷ rows₁), w₂))
    (asked_checksum : c.mysql_query (codes "SHOW GLOBAL VARIABLES LIKE 'BINLOG_CHECKSUM'") w₂
      ≡ (true, w₃))
    (answered_checksum : c.mysql_store_result w₃
      ≡ (some ((some name ∷ some value ∷ columns₂) ∷ rows₂), w₄)) where
  -- When the server gives its version and the value of BINLOG_CHECKSUM, and the version is
  -- accepted, the parser gets a valid format that expects a checksum if and only if the value is
  -- not NONE; nothing else of it changes.
  pub get_binlog_format-accepts :
      accepted_version version ≡ true
      → (f : FormatDescription) × (get_binlog_format s
          ≡ done tt (record { parser = record s.parser { fmt = f }; world = w₄ }))
        × (f.use_checksum ≡ not (eq_bytes value (codes "NONE")))
        × (format_is_valid f ≡ true)
  unfolding get_binlog_format server_version adopt_format query_rows ◌>>=◌ format_tune
  get_binlog_format-accepts accepted = (
    (format_tune s.parser.fmt 4 (some version) (not (eq_bytes value (codes "NONE")))).1,
    rw (asked, answered, asked_checksum, answered_checksum, accepted) refl,
    refl,
    format_tune-valid s.parser.fmt version (not (eq_bytes value (codes "NONE"))) accepted,
  )

  -- When the server gives its version and a value of BINLOG_CHECKSUM, and the version is not
  -- accepted, an exception is thrown and the parser, its format included, stays as it was.
  get_binlog_format-refuses :
      accepted_version version ≡ false
      → get_binlog_format s
        ≡ failed Exception.invalid_server_version (record { parser = s.parser; world = w₄ })
  unfolding get_binlog_format server_version adopt_format query_rows ◌>>=◌
  get_binlog_format-refuses refused =
      rw (asked, answered, asked_checksum, answered_checksum, refused) refl
