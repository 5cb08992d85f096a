-- ===== src/Parser/Session/Format.antt =====
-- `get_binlog_format` and `setup_master_binlog_checksum` of src/mysqlslave/logparser.cpp.
use mysqlslave.Base.{
  ℕ, Option, none, some, not, ◌||◌, Bool, true, false, List, [], ◌∷◌, if◌then◌else◌,
}
use mysqlslave.Base.{get_elem?, get_or, take, ◌==◌}
use mysqlslave.Base.Texts.{codes}
use mysqlslave.ColumnDesc.{eq_bytes}
use mysqlslave.LogEvent.{Status, success, failure, format_tune}
use mysqlslave.Parser.{Exception}
use mysqlslave.Parser.Session.{
  SqlRow, Client, Session, pure, gets, call, modify, ◌>>=◌, ◌>>◌, or_undefined, or_throw,
  throw_unless, query_rows,
}

-- The field at `i` of the first row; the inner `none` is a result with no row, or NULL.
abbrev pub first_field : ℕ → List SqlRow → Option (Option (List ℕ))
first_field i [] = some none
first_field i (row ∷ _) = get_elem? row i

-- `strcmp(row[1], "NONE") != 0`, or false when there is no row or no value.
abbrev pub wants_checksum : Option (List ℕ) → Bool
wants_checksum none = false
wants_checksum (some value) = not (eq_bytes value (codes "NONE"))

-- The versions that are accepted: 5, 10.0, 10.1, 10.3 and 10.4. A version ends in a NUL.
unfoldable pub accepted_version : List ℕ → Bool
accepted_version version =
    get_or version 0 0 == b'5'
    || eq_bytes (take 4 version) (codes "10.0")
    || eq_bytes (take 4 version) (codes "10.1")
    || eq_bytes (take 4 version) (codes "10.3")
    || eq_bytes (take 4 version) (codes "10.4")

abbrev pub is_success : Status → Bool
is_success success = true
is_success failure = false

module _ {S : Type 0} ⦃c : Client S⦄ where
  -- `SELECT VERSION()`; the copy that `strdup` makes.
  unfoldable pub server_version : Session S (List ℕ)
  server_version = do
    result ← query_rows (codes "SELECT VERSION()")
    rows ← or_throw result Exception.no_server_version
    field ← or_undefined (first_field 0 rows)
    or_throw field Exception.no_server_version

  -- The format is stored whether or not `tune` likes it. For the exception of a version that is
  -- refused, the text is made of a copy that has been freed.
  unfoldable pub adopt_format : List ℕ → Option (List ℕ) → Session S Unit
  adopt_format version checksum = do
    throw_unless (accepted_version version) Exception.invalid_server_version
    tuned ← gets (λ p. format_tune p.fmt 4 (some version) (wants_checksum checksum))
    modify (λ p. record p { fmt = tuned.1 })
    throw_unless (is_success tuned.0) Exception.format_failed

  unfoldable pub get_binlog_format : Session S Unit
  get_binlog_format = do
    version ← server_version
    result ← query_rows (codes "SHOW GLOBAL VARIABLES LIKE 'BINLOG_CHECKSUM'")
    rows ← or_throw result Exception.no_checksum_variable
    checksum ← or_undefined (first_field 1 rows)
    adopt_format version checksum

  unfoldable pub setup_master_binlog_checksum : Session S Unit
  setup_master_binlog_checksum = do
    used ← gets (λ p. p.fmt.use_checksum)
    sent ←
        if used
        then call (c.mysql_query (codes "SET @master_binlog_checksum= @@global.binlog_checksum"))
        else pure true
    throw_unless sent Exception.checksum_setup_failed
