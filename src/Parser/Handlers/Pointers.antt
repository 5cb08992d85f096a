-- ===== src/Parser/Handlers/Pointers.antt =====
-- The pointers behind the ids of `_id_2_table`: what writes to tables, new ids and `watch` keep.
use mysqlslave.Base.{ℕ, ◌≡◌, ◌≢◌, sym, ◌∙◌, subst, arith, Option, some, none, List}
use mysqlslave.Base.{Bool, true, false, ◌||◌, ◌==◌, if◌then◌else◌, inl, inr, Bool-cases}
use mysqlslave.Base.Dict.{
  lookup, insert, same_name, same_name-IsKey, nat-IsKey, lookup-insert_self, lookup-insert_other,
  lookup-insert_stays, lookup-insert_same, lookup-same,
}
use mysqlslave.Database.{Table, table_init, Database, get_table, set_table}
use mysqlslave.Parser.{
  Parser, TablePointer, put_table, find_table, find_database, watch, is_empty, make_if_missing,
  database_or_new,
}

-- A pointer stored for an id leads to a table.
abbrev pub Wired : Parser → Type 0
Wired p =
    (id : ℕ) (at : TablePointer) → lookup ◌==◌ id p.id_2_table ≡ some at → find_table p at ≢ none

-- A write to a table leaves every table where it is, and the written one is there.
pub put_table-stays :
    (p : Parser) (at at' : TablePointer) (t : Table)
    → find_table p at' ≢ none
    → find_table (put_table p at t) at' ≢ none
unfolding find_table put_table
put_table-stays p (d, n) (d', n') t there =
    let db = database_or_new (find_database p d) in
    let db' = set_table db n t in
    ground (
      arith,
      there,
      lookup-insert_other same_name same_name-IsKey d d' db' p.databases,
      lookup-insert_same same_name same_name-IsKey d d' db' p.databases,
      lookup-same same_name same_name-IsKey d d' p.databases,
      lookup-insert_stays same_name n n' t db,
    )

pub put_table-there :
    (p : Parser) (at : TablePointer) (t : Table) → find_table (put_table p at t) at ≡ some t
unfolding find_table put_table
put_table-there p (d, n) t =
    let db = database_or_new (find_database p d) in
    ground (
      arith,
      lookup-insert_self same_name same_name-IsKey d (set_table db n t) p.databases,
      lookup-insert_self same_name same_name-IsKey n t db,
    )

-- A write to a table keeps the pointers.
pub put_table-Wired :
    (p : Parser) (at : TablePointer) (t : Table) → Wired p → Wired (put_table p at t)
unfolding put_table
put_table-Wired p at t wired id at' stored = put_table-stays p at at' t (wired id at' stored)

pub same_pointer : {at at' : TablePointer} → some at ≡ some at' → at ≡ at'
same_pointer e = cc

-- An id that is mapped to a table that is there.
pub map_id-Wired :
    (p : Parser) (table_id : ℕ) (at : TablePointer) (ids : List (List ℕ × ℕ))
    → find_table p at ≢ none
    → Wired p
    → Wired (record p { id_2_table = insert ◌==◌ table_id at p.id_2_table; table_2_id = ids })
unfolding find_table
map_id-Wired p table_id at ids there wired id at' stored = elim (Bool-cases (table_id == id)) [
  | inl mapped ↦
      subst (λ x. find_table p x ≢ none)
        (same_pointer
          (sym (lookup-insert_same ◌==◌ nat-IsKey table_id id at p.id_2_table mapped) ∙ stored))
        there
  | inr other ↦
      wired id at'
        (sym (lookup-insert_other ◌==◌ nat-IsKey table_id id at p.id_2_table other) ∙ stored)
]

-- The state of the connection and the position do not matter.
pub set_connection-Wired :
    (p : Parser) (c : Bool) (name : List ℕ) (pos flags : ℕ)
    → Wired p
    → Wired
        (record p { is_connected = c; binlog_name = name; binlog_pos = pos; binlog_flags = flags })
unfolding find_table
set_connection-Wired p c name pos flags wired = wired

pub table_there :
    (p : Parser) (db_name table_name : List ℕ) (db : Database) (t : Table)
    → find_database p db_name ≡ some db
    → get_table db table_name ≡ some t
    → find_table p (db_name, table_name) ≢ none
unfolding find_table
table_there p db_name table_name db t found is = ground (arith, found, is)

-- `watch` keeps the pointers.
pub watch-Wired :
    (p : Parser) (db_name table_name : List ℕ) → Wired p → Wired (watch p db_name table_name)
unfolding watch
watch-Wired p db_name table_name wired =
    kept (is_empty db_name || is_empty table_name) (find_table p (db_name, table_name))
  where
    kept :
        (b : Bool) (o : Option Table)
        → Wired (if b then p else make_if_missing p (db_name, table_name) o)
    kept true o = wired
    kept false none = put_table-Wired p (db_name, table_name) table_init wired
    kept false (some t) = wired
