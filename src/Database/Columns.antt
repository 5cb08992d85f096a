-- ===== src/Database/Columns.antt =====
-- `CTable::update_row` of src/mysqlslave/database.cpp: one row image.
pub mod Advance
pub mod Image
use mysqlslave.Base.{ℕ, zero, suc, ◌+◌, ◌*◌, ◌%◌, ◌^◌, Option, none, some, ◌>>=◌, Bool, ◌==◌}
use mysqlslave.Base.{List, [], ◌∷◌, set, get_elem?, bit_and, not, if◌then◌else◌}
use mysqlslave.Base.Int.{ℤ, pos, negsuc, pos_part, sub_ℕ}
use mysqlslave.Base.Words.{u64}
use mysqlslave.Memory.{Memory, Headers, load}
use mysqlslave.LogEvent.{Status, success, failure}
use mysqlslave.LogEvent.TableMap.{TableMapEvent}
use mysqlslave.Value.Types.{ColumnType, column_type, calc_metadata_size}
use mysqlslave.Value.FieldSize.{calc_field_size, native_uint}
use mysqlslave.Value.{Value, reset, tune}

-- The variables of the loop: the row's values, `data`, `size` (an ssize_t), `pmetadata`, `bit`.
pub record Cursor : Type 0 where
  pub values : List Value
  pub source : ℕ
  pub size : ℤ
  pub pmetadata : Option ℕ
  pub bit : ℕ

-- `_metadata` is read through; the null pointer is not read.
abbrev pub metadata_at : ℕ → Memory → Option ℕ → Option ℕ
metadata_at width m none = none
metadata_at width m (some p) = native_uint width m p

abbrev pub advance : ℕ → Option ℕ → Option ℕ
advance n none = none
advance n (some p) = some (p + n)

-- The metadata of a column that has `width` bytes of it.
unfoldable pub read_metadata : ℕ → Memory → Option ℕ → Option (ℕ × Option ℕ)
unfolding native_uint
read_metadata width m p =
    if width == 1
    then (metadata_at 1 m p >>= λ v. some (v, advance 1 p))
    else if width == 2
    then (metadata_at 2 m p >>= λ v. some (v, advance 2 p))
    else some (0, p)

module _ ⦃h : Headers⦄ where
  -- The value of a column that is present and not null: read it and move past it.
  unfoldable pub take_value : ColumnType → ℕ → Memory → ℕ → Value → Cursor → Option Cursor
  take_value type metadata m i v c = do
    length ← calc_field_size type m c.source metadata
    v' ← tune v type m c.source metadata length
    some (record c {
      values = set c.values i v';
      source = c.source + length;
      size = sub_ℕ (pos_part c.size) length;
    })

  -- One round of the loop, for the column `i`. `used` and `nonnull` are the two masks.
  unfoldable pub update_column : TableMapEvent → Memory → ℕ → ℕ → ℕ → Cursor → Option Cursor
  update_column e m used nonnull i c = do
    v ← get_elem? c.values i
    let cleared = record c { values = set c.values i (reset v) }
    if pos_part c.size == 0 then some cleared else do
      code ← load e.buffer (e.column_types + i)
      let type = column_type code
      (metadata, pmetadata) ← read_metadata (calc_metadata_size type) e.buffer c.pmetadata
      let ready = record cleared { pmetadata = pmetadata }
      let present = not (bit_and (bit_and used nonnull) c.bit == 0)
      c' ← if present then take_value type metadata m i (reset v) ready else some ready
      some (record c' { bit = u64 (c.bit * 2) })

  -- The loop over `n` columns from `i` on.
  unfoldable pub update_columns : ℕ → TableMapEvent → Memory → ℕ → ℕ → ℕ → Cursor → Option Cursor
  update_columns zero e m used nonnull i c = some c
  update_columns (suc n) e m used nonnull i c =
      update_column e m used nonnull i c >>= update_columns n e m used nonnull (i + 1)

  -- The `int` that is returned, the values, `*pdata` and `*len`.
  abbrev pub row_result : Cursor → Status × List Value × ℕ × ℕ
  row_result c =
      (elim c.size [ pos _ ↦ success | negsuc _ ↦ failure ], c.values, c.source, pos_part c.size)
