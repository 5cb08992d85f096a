-- ===== src/LogEvent/Rows/Bytes.antt =====
-- The bytes of a rows event up to its rows, as MySQL documents them.
use mysqlslave.Base.{ℕ, ◌+◌, ◌/◌, ◌^◌, ◌≤◌, ◌<◌, ◌≡◌, ◌≢◌, arith}
use mysqlslave.Base.{List, [], ◌++◌}
use mysqlslave.Base.{if◌then◌else◌, length, length-append}
use mysqlslave.Memory.Endian.{le_bytes, length-le_bytes}
use mysqlslave.LogEvent.FieldLength.RoundTrip.{field_length_bytes}
use mysqlslave.LogEvent.ColumnMask.{wrong_mask}
use mysqlslave.LogEvent.Rows.{is_v2, is_update}
use mathlib.Core.List.{append_assoc}
use native.Mathlib.Nat.{pow-le-pow_right}

-- What a rows event says before its rows.
pub record RowHead : Type 0 where
  pub table_id : ℕ
  pub row_flags : ℕ
  pub extra : List ℕ
  pub ncolumns : ℕ
  pub columns : ℕ
  pub afterimage : ℕ

pub record IsRowHead (w : RowHead) : Type 0 where
  pub table_id_fits : w.table_id < 256 ^ 6
  pub row_flags_fits : w.row_flags < 256 ^ 2
  pub extra_fits : length w.extra + 2 < 256 ^ 2
  pub some_columns : 1 ≤ w.ncolumns
  pub few_columns : w.ncolumns ≤ 48
  pub columns_fit : w.columns < 256 ^ ((w.ncolumns + 7) / 8)
  pub afterimage_fits : w.afterimage < 256 ^ ((w.ncolumns + 7) / 8)

abbrev pub extra_bytes : ℕ → List ℕ → List ℕ
extra_bytes t x = if is_v2 t then le_bytes 2 (length x + 2) ++ x else []

abbrev pub afterimage_bytes : ℕ → RowHead → List ℕ
afterimage_bytes t w = if is_update t then le_bytes ((w.ncolumns + 7) / 8) w.afterimage else []

-- The layout, from the back: the bitmaps, the number of columns, and the rest of the head.
abbrev pub masked : ℕ → RowHead → List ℕ → List ℕ
masked t w rows = le_bytes ((w.ncolumns + 7) / 8) w.columns ++ (afterimage_bytes t w ++ rows)

abbrev pub counted : ℕ → RowHead → List ℕ → List ℕ
counted t w rows = field_length_bytes w.ncolumns ++ masked t w rows

abbrev pub row_head_bytes : ℕ → RowHead → List ℕ → List ℕ
row_head_bytes t w rows =
    le_bytes 6 w.table_id ++ (le_bytes 2 w.row_flags ++ (extra_bytes t w.extra ++ counted t w rows))

-- No bitmap of up to six bytes is the result of a wrong number of columns.
pub mask-ne_wrong :
    (w : RowHead) (v : ℕ) → IsRowHead w → v < 256 ^ ((w.ncolumns + 7) / 8) → v ≢ wrong_mask
mask-ne_wrong w v valid fits = omega (arith, bound ((w.ncolumns + 7) / 8) (omega arith))
  where
    bound : (k : ℕ) → k ≤ 6 → 256 ^ k ≤ 256 ^ 6
    bound k h = pow-le-pow_right (omega arith) h

-- The addresses of the parts of the head, for a body at `b`.
module _ (t : ℕ) (w : RowHead) (b : ℕ) where
  abbrev pub extra_end : ℕ
  extra_end = b + 6 + 2 + length (extra_bytes t w.extra)

  abbrev pub count_end : ℕ
  count_end = extra_end + length (field_length_bytes w.ncolumns)

  abbrev pub mask_end : ℕ
  mask_end = count_end + (w.ncolumns + 7) / 8

  abbrev pub head_end : ℕ
  head_end = mask_end + length (afterimage_bytes t w)

pub row_head-append :
    (t : ℕ) (w : RowHead) (rows rest : List ℕ)
    → row_head_bytes t w rows ++ rest ≡ row_head_bytes t w (rows ++ rest)
row_head-append t w rows rest = simp append_assoc

pub length-row_head :
    (t : ℕ) (w : RowHead) (rows : List ℕ) (b : ℕ)
    → b + length (row_head_bytes t w rows) ≡ head_end t w b + length rows
length-row_head t w rows b = omega (
  arith,
  length-append (extra_bytes t w.extra) (counted t w rows),
  length-append (field_length_bytes w.ncolumns) (masked t w rows),
  length-append (le_bytes ((w.ncolumns + 7) / 8) w.columns) (afterimage_bytes t w ++ rows),
  length-append (afterimage_bytes t w) rows,
  length-le_bytes ((w.ncolumns + 7) / 8) w.columns,
)
