-- ===== src/Value.antt =====
-- include/mysqlslave/value.hpp and src/mysqlslave/value.cpp: one column's value, as a view into the
-- packet (`CValue`): its type, where it starts, its length, and its metadata from the table map.
pub mod Types
pub mod FieldSize
pub mod Numbers
pub mod Dates
pub mod Text
pub mod Sets
pub mod Decimal
pub mod Real
pub mod JsonTypes
pub mod Json
pub mod Print
use mysqlslave.Base.{ℕ, ◌+◌, ◌/◌, ◌%◌, ◌^◌, Option, none, some, ◌>>=◌, ltb, ◌==◌, if◌then◌else◌}
use mysqlslave.Base.{Bool, true, false, not, ◌&&◌, ◌||◌}
use mysqlslave.Base.Words.{sub64}
use mysqlslave.Memory.{Memory, Headers, load, uint_korr}
use mysqlslave.Value.Types.{ColumnType, type_code, column_type}

-- `storage` is an address in the packet, `none` the null pointer.
pub record Value : Type 0 where
  pub ty : ColumnType
  pub storage : Option ℕ
  pub size : ℕ
  pub metadata : ℕ
  pub null_flag : Bool
  pub pos : ℕ

-- `CValue::CValue()`
unfoldable pub value_init : Value
value_init = record {
  ty = ColumnType.null;
  storage = none;
  size = 0;
  metadata = 0;
  null_flag = true;
  pos = 0;
}

-- `CValue::reset`: all but the position.
unfoldable pub reset : Value → Value
reset v = record v {
  ty = ColumnType.null;
  size = 0;
  storage = none;
  metadata = 0;
  null_flag = true;
}

abbrev pub eq_storage : Option ℕ → Option ℕ → Bool
eq_storage none none = true
eq_storage (some p) (some q) = p == q
eq_storage _ _ = false

abbrev pub eq_bool : Bool → Bool → Bool
eq_bool true b = b
eq_bool false b = not b

-- `operator==`: the addresses are compared, not the bytes behind them, and the position is not.
unfoldable pub eq_value : Value → Value → Bool
eq_value a b =
    type_code a.ty == type_code b.ty
    && eq_storage a.storage b.storage
    && a.size == b.size
    && a.metadata == b.metadata
    && eq_bool a.null_flag b.null_flag

abbrev pub is_stored : Option ℕ → Bool
is_stored none = false
is_stored (some _) = true

-- `CValue::is_valid`
abbrev pub is_valid : Value → Bool
is_valid v = not (v.size == 0) && is_stored v.storage

-- `CValue::is_null`
abbrev pub is_null : Value → Bool
is_null v = v.null_flag || type_code v.ty == type_code ColumnType.null

-- The case of MYSQL_TYPE_STRING in `tune`, by the subtype that the metadata holds.
abbrev pub tune_string : Value → ColumnType → ℕ → ℕ → Value
tune_string v ColumnType.string p length =
    if ltb 255 (v.metadata / 2 ^ 8)
    then record v { storage = some (p + 2); size = sub64 length 2; ty = ColumnType.string }
    else record v { storage = some (p + 1); size = sub64 length 1; ty = ColumnType.string }
tune_string v ColumnType.json p length = record v {
  ty = ColumnType.json;
  size = v.metadata / 2 ^ 8;
}
tune_string v ColumnType.enum p length = record v {
  ty = ColumnType.enum;
  size = v.metadata / 2 ^ 8;
}
tune_string v ColumnType.set p length = record v { ty = ColumnType.set; size = v.metadata / 2 ^ 8 }
tune_string v subtype p length = record v { null_flag = true; ty = subtype }

module _ ⦃h : Headers⦄ where
  -- The case of MYSQL_TYPE_VARCHAR.
  abbrev pub tune_varchar : Value → Memory → ℕ → Option Value
  tune_varchar v m p =
      if ltb v.metadata 256
      then (load m p >>= λ n. some (record v { size = n; storage = some (p + 1) }))
      else (uint_korr 2 m p >>= λ n. some (record v { size = n; storage = some (p + 2) }))

  -- The case of MYSQL_TYPE_BLOB: the metadata is the width of the length.
  abbrev pub tune_blob : Value → Memory → ℕ → Option Value
  tune_blob v m p =
      let found = λ (n : ℕ). some (record v { size = n; storage = some (p + v.metadata) }) in
      if v.metadata == 1
      then load m p >>= found
      else if v.metadata == 2
      then uint_korr 2 m p >>= found
      else if v.metadata == 3
      then uint_korr 3 m p >>= found
      else if v.metadata == 4
      then uint_korr 4 m p >>= found
      else some (record v { size = 0; null_flag = true })

  tune_case : ColumnType → Value → Memory → ℕ → ℕ → Option Value
  tune_case ColumnType.string v m p length =
      some (tune_string v (column_type (v.metadata % 2 ^ 8)) p length)
  tune_case ColumnType.varchar v m p length = tune_varchar v m p
  tune_case ColumnType.blob v m p length = tune_blob v m p
  tune_case _ v m p length = some v

  -- `CValue::tune`, which always returns 0.
  unfoldable pub tune : Value → ColumnType → Memory → ℕ → ℕ → ℕ → Option Value
  unfolding tune_case
  tune v ftype m p metadata length =
      tune_case ftype
        (record v {
          metadata = metadata;
          storage = some p;
          ty = ftype;
          size = length;
          null_flag = false;
        })
        m p length
