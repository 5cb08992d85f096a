-- ===== src/Value/JsonTypes.antt =====
-- jsoncpp, and the enumerations `EJSONBType` and `EJSONBLiteralType` of
-- include/mysqlslave/value.hpp.
use mysqlslave.Base.{ℕ, Bool, List}
use mysqlslave.Base.Int.{ℤ}

-- The constructors of `Json::Value`: `Json::Value::null`, which is also `Json::Value()`; `float8get`
-- is part of `of_double`, on the bytes that it reads; `value.append(v)` and `value[key] = v`.
pub record JsonValues : Type 1 where
  pub Json : Type 0
  pub null_value : Json
  pub of_bool : Bool → Json
  pub of_int : ℤ → Json
  pub of_int64 : ℤ → Json
  pub of_uint64 : ℕ → Json
  pub of_double : List ℕ → Json
  pub of_string : List ℕ → Json
  pub array_value : Json
  pub append : Json → Json → Json
  pub set_member : Json → List ℕ → Json → Json

-- `EJSONBType` and `EJSONBLiteralType`
abbrev pub small_object : ℕ
small_object = 0

abbrev pub large_object : ℕ
large_object = 1

abbrev pub small_array : ℕ
small_array = 2

abbrev pub large_array : ℕ
large_array = 3

abbrev pub literal : ℕ
literal = 4

abbrev pub int16 : ℕ
int16 = 5

abbrev pub uint16 : ℕ
uint16 = 6

abbrev pub int32 : ℕ
int32 = 7

abbrev pub uint32 : ℕ
uint32 = 8

abbrev pub int64 : ℕ
int64 = 9

abbrev pub uint64 : ℕ
uint64 = 10

abbrev pub double : ℕ
double = 11

abbrev pub text : ℕ
text = 12

abbrev pub literal_null : ℕ
literal_null = 0

abbrev pub literal_true : ℕ
literal_true = 1

abbrev pub literal_false : ℕ
literal_false = 2
