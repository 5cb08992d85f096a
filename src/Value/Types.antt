-- ===== src/Value/Types.antt =====
-- `CValue::EColumnType` of include/mysqlslave/value.hpp, and `CValue::calc_metadata_size` of
-- src/mysqlslave/value.cpp.
use mysqlslave.Base.{ℕ, ◌-◌, ltb, if◌then◌else◌, get_or, List, [], ◌∷◌}

-- `other n` is a byte that names no enumerator.
pub data ColumnType : Type 0 where
  decimal tiny short long float double null timestamp longlong int24 : ColumnType
  date time datetime year newdate varchar bit timestamp2 datetime2 time2 : ColumnType
  json newdecimal enum set tiny_blob medium_blob long_blob blob : ColumnType
  var_string string geometry : ColumnType
  other : ℕ → ColumnType

abbrev pub type_code : ColumnType → ℕ
type_code decimal = 0
type_code tiny = 1
type_code short = 2
type_code long = 3
type_code float = 4
type_code double = 5
type_code null = 6
type_code timestamp = 7
type_code longlong = 8
type_code int24 = 9
type_code date = 10
type_code time = 11
type_code datetime = 12
type_code year = 13
type_code newdate = 14
type_code varchar = 15
type_code bit = 16
type_code timestamp2 = 17
type_code datetime2 = 18
type_code time2 = 19
type_code json = 245
type_code newdecimal = 246
type_code enum = 247
type_code set = 248
type_code tiny_blob = 249
type_code medium_blob = 250
type_code long_blob = 251
type_code blob = 252
type_code var_string = 253
type_code string = 254
type_code geometry = 255
type_code (other n) = n

abbrev pub low_types : List ColumnType
low_types =
    decimal ∷ tiny ∷ short ∷ long ∷ float ∷ double ∷ null ∷ timestamp ∷ longlong ∷ int24 ∷ date
    ∷ time ∷ datetime ∷ year ∷ newdate ∷ varchar ∷ bit ∷ timestamp2 ∷ datetime2 ∷ time2 ∷ []

abbrev pub high_types : List ColumnType
high_types =
    json ∷ newdecimal ∷ enum ∷ set ∷ tiny_blob ∷ medium_blob ∷ long_blob ∷ blob ∷ var_string
    ∷ string ∷ geometry ∷ []

-- The cast `(EColumnType) n`.
unfoldable pub column_type : ℕ → ColumnType
column_type n =
    if ltb n 245 then get_or low_types n (other n) else get_or high_types (n - 245) (other n)

-- The bytes of metadata that a column has in the table map.
unfoldable pub calc_metadata_size : ColumnType → ℕ
calc_metadata_size timestamp2 = 1
calc_metadata_size float = 1
calc_metadata_size double = 1
calc_metadata_size blob = 1
calc_metadata_size geometry = 1
calc_metadata_size datetime2 = 1
calc_metadata_size varchar = 2
calc_metadata_size bit = 2
calc_metadata_size newdecimal = 2
calc_metadata_size var_string = 2
calc_metadata_size string = 2
calc_metadata_size _ = 0
