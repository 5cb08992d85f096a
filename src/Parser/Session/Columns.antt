-- ===== src/Parser/Session/Columns.antt =====
-- The columns that SHOW COLUMNS lists, and the values of a row under their names.
use mysqlslave.Base.{
  ℕ, zero, suc, ◌+◌, ◌≡◌, refl, sym, ap, ◌∙◌, arith, some, true, false, List, [], ◌∷◌, All,
  get_elem?,
}
use mysqlslave.Base.Dict.{same_name, same_name-IsKey, lookup-insert_self, lookup-insert_other}
use mysqlslave.ColumnDesc
use mysqlslave.ColumnDesc.{ColumnDesc, column_desc_init}
use mysqlslave.Database.{
  Row, Table, find_column, desc_or_new, add_column, value_by_name, value_or_null,
}
use mysqlslave.Parser.Session.{SqlRow}
use mysqlslave.Parser.Session.Structure.{add_columns}

-- A row of the listing: the name and the type of a column, and what is not read.
pub record ListedColumn : Type 0 where
  pub name : List ℕ
  pub type : List ℕ
  pub others : SqlRow

abbrev pub listing : List ListedColumn → List SqlRow
listing [] = []
listing (col ∷ cols) = (some col.name ∷ some col.type ∷ col.others) ∷ listing cols

-- No two names are the same, as the map of columns compares them.
abbrev pub IsDistinct : List ListedColumn → Type 0
IsDistinct [] = Unit
IsDistinct (col ∷ cols) =
    All (λ later. same_name later.name col.name ≡ false) cols × IsDistinct cols

-- The table behind the listing.
abbrev pub listed : ℕ → List ListedColumn → Table → Table
listed i [] t = t
listed i (col ∷ cols) t = listed (i + 1) cols (add_column t col.name i col.type)

add_columns-listed :
    (i : ℕ) (cols : List ListedColumn) (t : Table)
    → add_columns i (listing cols) t ≡ some (listed i cols t)
unfolding add_columns
add_columns-listed i [] t = refl
add_columns-listed i (col ∷ cols) t =
    add_columns-listed (i + 1) cols (add_column t col.name i col.type)

find_column-add :
    (t : Table) (name type : List ℕ) (i : ℕ)
    → find_column (add_column t name i type) name ≡ some (ColumnDesc.update column_desc_init i type)
unfolding add_column ColumnDesc.update
find_column-add t name type i =
    lookup-insert_self same_name same_name-IsKey name
      (ColumnDesc.update (desc_or_new (find_column t name)) i type) t.columns

-- A column that is not listed stays.
find_column-stays :
    (i : ℕ) (cols : List ListedColumn) (t : Table) (name : List ℕ)
    → All (λ col. same_name col.name name ≡ false) cols
    → find_column (listed i cols t) name ≡ find_column t name
unfolding add_column
find_column-stays i [] t name others = refl
find_column-stays i (col ∷ cols) t name others =
    find_column-stays (i + 1) cols (add_column t col.name i col.type) name others.1
    ∙ lookup-insert_other same_name same_name-IsKey col.name name
        (ColumnDesc.update (desc_or_new (find_column t col.name)) i col.type) t.columns others.0

find_column-listed :
    (i j : ℕ) (cols : List ListedColumn) (col : ListedColumn) (t : Table)
    → IsDistinct cols
    → get_elem? cols j ≡ some col
    → find_column (listed i cols t) col.name
      ≡ some (ColumnDesc.update column_desc_init (i + j) col.type)
find_column-listed i j [] col t distinct here = cc
find_column-listed i zero (first ∷ cols) col t distinct here =
    let same : first ≡ col = cc in
    ap
      (λ (l : ListedColumn).
        find_column (listed (i + 1) cols (add_column t first.name i first.type)) l.name)
      (sym same)
    ∙ find_column-stays (i + 1) cols (add_column t first.name i first.type) first.name distinct.0
    ∙ find_column-add t first.name first.type i
    ∙ ap (λ (l : ListedColumn). some (ColumnDesc.update column_desc_init i l.type)) same
    ∙ ap (λ k. some (ColumnDesc.update column_desc_init k col.type)) (omega arith)
find_column-listed i (suc j) (first ∷ cols) col t distinct here =
    find_column-listed (i + 1) j cols col (add_column t first.name i first.type) distinct.1 here
    ∙ ap (λ k. some (ColumnDesc.update column_desc_init k col.type)) (omega arith)

-- When the columns that the server lists have distinct names, the loop over the listing describes
-- each by its position and its type, and a row of the table has under a listed name the value at
-- the column's place in the listing.
pub add_columns-value_by_name :
    (cols : List ListedColumn) (t : Table) (j : ℕ) (col : ListedColumn) (r : Row)
    → IsDistinct cols
    → get_elem? cols j ≡ some col
    → r.has_table ≡ true
    → (t' : Table) × (add_columns 0 (listing cols) t ≡ some t')
      × (find_column t' col.name ≡ some (ColumnDesc.update column_desc_init j col.type))
      × (value_by_name t' r col.name ≡ value_or_null (get_elem? r.values j))
unfolding value_by_name ColumnDesc.update
add_columns-value_by_name cols t j col r distinct here owned =
    let found =
      find_column-listed 0 j cols col t distinct here
      ∙ ap (λ k. some (ColumnDesc.update column_desc_init k col.type)) {y = j} (omega arith) in
    (listed 0 cols t, add_columns-listed 0 cols t, found, rw (owned, found) refl)
