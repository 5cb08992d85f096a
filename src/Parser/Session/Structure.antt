-- ===== src/Parser/Session/Structure.antt =====
-- `build_db_structure` of src/mysqlslave/logparser.cpp.
use mysqlslave.Base.{
  ℕ, ◌+◌, Option, none, some, not, Bool, true, false, List, [], ◌∷◌, ◌++◌, if◌then◌else◌,
}
use mysqlslave.Base.{get_elem?, ltb, length}
use mysqlslave.Base.Texts.{codes}
use mysqlslave.Database.{Table, Database, add_column}
use mysqlslave.Parser.{Parser, Exception, find_database, find_table, put_table}
use mysqlslave.Parser.Session.{
  SqlRow, Client, Session, pure, gets, call, modify, ◌>>=◌, ◌>>◌, or_undefined, or_throw,
  throw_unless, query_rows,
}
use mysqlslave.Parser.Session.Connection.{no_position}
use mysqlslave.Parser.Session.Position.{get_last_binlog_position}

-- A field that is read as a `std::string`: NULL has no meaning.
abbrev pub text_field : ℕ → SqlRow → Option (List ℕ)
text_field i row = elim (get_elem? row i) [ none ↦ none | some field ↦ field ]

abbrev pub with_field {ℓ} : {A : Type ℓ} → Option (List ℕ) → (List ℕ → Option A) → Option A
with_field none f = none
with_field (some text) f = f text

-- The loop over the columns that are listed, from the position `i` on.
unfoldable pub add_columns : ℕ → List SqlRow → Table → Option Table
add_columns i [] t = some t
add_columns i (row ∷ rows) t = with_field (text_field 0 row) λ name.
    with_field (text_field 1 row) λ type. add_columns (i + 1) rows (add_column t name i type)

-- `sprintf(query, "SHOW COLUMNS FROM %s", name)` into 256 bytes, one of which is the NUL.
unfoldable pub show_columns : List ℕ → Option (List ℕ)
show_columns name =
    let text = codes "SHOW COLUMNS FROM " ++ name in
    if ltb (length text) 256 then some text else none

abbrev nothing_watched : Parser → Bool
nothing_watched p = elim p.databases [ [] ↦ true | _ ∷ _ ↦ false ]

module _ {S : Type 0} ⦃c : Client S⦄ where
  -- A table of a watched database: its columns, if it is watched.
  unfoldable pub build_table : List ℕ → List ℕ → Option Table → Session S Unit
  unfolding add_columns show_columns
  build_table db_name name none = pure tt
  build_table db_name name (some t) = do
    text ← or_undefined (show_columns name)
    result ← query_rows text
    rows ← or_throw result Exception.listing_failed
    t' ← or_undefined (add_columns 0 rows t)
    modify (λ p. put_table p (db_name, name) t')

  -- A row of the tables that are listed.
  unfoldable pub build_listed_table : List ℕ → SqlRow → Session S Unit
  build_listed_table db_name row = do
    name ← or_undefined (text_field 0 row)
    t ← gets (λ p. find_table p (db_name, name))
    build_table db_name name t

  unfoldable pub build_tables : List ℕ → List SqlRow → Session S Unit
  build_tables db_name [] = pure tt
  build_tables db_name (row ∷ rows) = build_listed_table db_name row >> build_tables db_name rows

  -- A database of the server: its tables, if it is watched.
  unfoldable pub build_database : List ℕ → Option Database → Session S Unit
  build_database db_name none = pure tt
  build_database db_name (some _) = do
    selected ← call (c.mysql_select_db db_name)
    result ← if selected then call c.mysql_list_tables else pure none
    rows ← or_throw result Exception.listing_failed
    build_tables db_name rows

  -- A row of the databases that are listed.
  unfoldable pub build_listed_database : SqlRow → Session S Unit
  build_listed_database row = do
    name ← or_undefined (text_field 0 row)
    db ← gets (λ p. find_database p name)
    build_database name db

  unfoldable pub build_databases : List SqlRow → Session S Unit
  build_databases [] = pure tt
  build_databases (row ∷ rows) = build_listed_database row >> build_databases rows

  unfoldable pub build_db_structure : Session S Unit
  build_db_structure = do
    watched ← gets (λ p. not (nothing_watched p))
    throw_unless watched Exception.no_databases
    result ← call c.mysql_list_dbs
    rows ← or_throw result Exception.listing_failed
    build_databases rows
    missing ← gets no_position
    if missing then get_last_binlog_position else pure tt
