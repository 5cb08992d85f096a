-- ===== src/Database/Columns/Image/Cells.antt =====
-- The cells of some types: integers, texts, and NULL.
use mysqlslave.Base.{
  ℕ, ◌+◌, ◌^◌, ◌≤◌, ◌<◌, ◌≡◌, refl, ap, ◌∙◌, arith, none, some, false, length-append,
}
use mysqlslave.Base.{List, [], ◌++◌, length}
use mysqlslave.Memory.{Memory, Headers}
use mysqlslave.Memory.Endian.{le_bytes, length-le_bytes, little_endian-le_bytes}
use mysqlslave.Value.Types.{ColumnType, column_type, type_code, calc_metadata_size}
use mysqlslave.Value.FieldSize.{calc_field_size}
use mysqlslave.Value.FieldSize.Extent.{varchar_width, tuned_text, varchar-sized}
use mysqlslave.Value.Numbers.Widths.{IntWidth, int8, int16, int32, int64, width_bytes, sql_type}
use mysqlslave.Value.{Value, tune}
use mysqlslave.Database.Columns.Image.{Cell, IsCell}
use mathlib.Core.List.{append_assoc}

-- What `tune` makes of a value for an integer at `p`.
abbrev pub stored_int : IntWidth → Value → ℕ → Value
stored_int w v p = record v {
  metadata = 0;
  storage = some p;
  ty = sql_type w;
  size = width_bytes w;
  null_flag = false;
}

-- An integer of one, two, four or eight bytes.
abbrev pub int_cell : IntWidth → ℕ → Cell
int_cell w n = record {
  code = type_code (sql_type w);
  metadata = [];
  content = some (le_bytes (width_bytes w) n);
  value = stored_int w;
}

-- A text in a VARCHAR with room for `room` bytes.
abbrev pub varchar_cell : ℕ → List ℕ → Cell
varchar_cell room s = record {
  code = type_code ColumnType.varchar;
  metadata = le_bytes 2 room;
  content = some (le_bytes (varchar_width room) (length s) ++ s);
  value = λ v p. tuned_text v ColumnType.varchar room (p + varchar_width room) (length s);
}

-- NULL, in a column of any type.
abbrev pub null_cell : ℕ → List ℕ → Cell
null_cell code metadata = record {
  code = code;
  metadata = metadata;
  content = none;
  value = λ v p. v;
}

width_bytes-some : (w : IntWidth) → 0 < width_bytes w
width_bytes-some int8 = omega arith
width_bytes-some int16 = omega arith
width_bytes-some int32 = omega arith
width_bytes-some int64 = omega arith

width-some : (room : ℕ) → 0 < varchar_width room
width-some room = ground arith

module _ ⦃h : Headers⦄ where
  int_cell-type :
      (w : IntWidth)
      → (column_type (type_code (sql_type w)) ≡ sql_type w) × (calc_metadata_size (sql_type w) ≡ 0)
  unfolding column_type calc_metadata_size
  int_cell-type int8 = (refl, refl)
  int_cell-type int16 = (refl, refl)
  int_cell-type int32 = (refl, refl)
  int_cell-type int64 = (refl, refl)

  int_cell-tuned :
      (w : IntWidth) (v : Value) (m : Memory) (p : ℕ)
      → (calc_field_size (sql_type w) m p 0 ≡ some (width_bytes w))
        × (tune v (sql_type w) m p 0 (width_bytes w) ≡ some (stored_int w v p))
  unfolding calc_field_size tune
  int_cell-tuned int8 v m p = (refl, refl)
  int_cell-tuned int16 v m p = (refl, refl)
  int_cell-tuned int32 v m p = (refl, refl)
  int_cell-tuned int64 v m p = (refl, refl)

  pub int_cell-IsCell : (w : IntWidth) (n : ℕ) → IsCell (int_cell w n)
  int_cell-IsCell w n =
      let (type, nothing) = int_cell-type w in
      let wide : (bs : List ℕ)
          → some (le_bytes (width_bytes w) n) ≡ some bs
          → length bs ≡ width_bytes w =
        λ bs e.
          ap length {x = bs} {y = le_bytes (width_bytes w) n} (cc)
          ∙ length-le_bytes (width_bytes w) n in
      record {
        metadata_width = rw (type, nothing) refl;
        metadata_short = omega arith;
        some_bytes = λ bs e. omega (arith, wide bs e, width_bytes-some w);
        sized = λ bs e v m p rest at. rw (type, wide bs e) (int_cell-tuned w v m p);
      }

  pub null_cell-IsCell :
      (code : ℕ) (metadata : List ℕ)
      → length metadata ≡ calc_metadata_size (column_type code)
      → length metadata ≤ 2
      → IsCell (null_cell code metadata)
  null_cell-IsCell code metadata width short = record {
    metadata_width = width;
    metadata_short = short;
    some_bytes = λ bs e. cc;
    sized = λ bs e. cc;
  }

  pub varchar_cell-IsCell :
      (room : ℕ) (s : List ℕ) → room < 2 ^ 16 → length s ≤ room → IsCell (varchar_cell room s)
  unfolding column_type calc_metadata_size
  varchar_cell-IsCell room s fits short =
      let text : List ℕ = le_bytes (varchar_width room) (length s) ++ s in
      let size : length text ≡ varchar_width room + length s =
        length-append (le_bytes (varchar_width room) (length s)) s
        ∙ ap (λ k. k + length s) (length-le_bytes (varchar_width room) (length s)) in
      let same : (bs : List ℕ) → some text ≡ some bs → bs ≡ text = λ bs e. cc in
      record {
        metadata_width = refl;
        metadata_short = omega arith;
        some_bytes = λ bs e. omega (arith, ap length (same bs e), size, width-some room);
        sized = λ bs e v m p rest at.
            rw (ap length (same bs e), size, little_endian-le_bytes 2 room (omega arith))
              (varchar-sized v room m p s rest fits short (
                at
                ∙ ap (λ t. t ++ rest) (same bs e)
                ∙ append_assoc (le_bytes (varchar_width room) (length s)) s rest));
      }
