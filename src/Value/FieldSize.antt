-- ===== src/Value/FieldSize.antt =====
-- `CValue::calc_field_size` of src/mysqlslave/value.cpp: the bytes that a column's value takes in a
-- row image.
pub mod Extent
use mysqlslave.Base.{ℕ, ◌+◌, ◌-◌, ◌*◌, ◌/◌, ◌%◌, ◌^◌, Option, none, some, ◌>>=◌, ltb, ◌==◌}
use mysqlslave.Base.{if◌then◌else◌, ◌||◌, get_or, List, [], ◌∷◌}
use mysqlslave.Base.Words.{u32}
use mysqlslave.Memory.{Memory, Headers, load, load_bytes, little_endian, uint_korr}
use mysqlslave.Value.Types.{ColumnType, type_code}

-- `*(uint16_t *) p` and `*(uint32_t *) p` on a little-endian machine.
unfoldable pub native_uint : ℕ → Memory → ℕ → Option ℕ
native_uint n m p = load_bytes n m p >>= λ bs. some (little_endian bs)

-- `dig2bytes`: the bytes of a group of up to nine decimal digits.
abbrev pub dig2bytes : ℕ → ℕ
dig2bytes n = get_or (0 ∷ 1 ∷ 1 ∷ 2 ∷ 2 ∷ 3 ∷ 3 ∷ 4 ∷ 4 ∷ 4 ∷ []) n 0

-- MYSQL_TYPE_NEWDECIMAL. With more digits behind the point than in all, `intg` is negative: its
-- remainder by nine indexes before the table, unless it is 0.
unfoldable pub newdecimal_size : ℕ → Option ℕ
newdecimal_size metadata =
    let precision = metadata % 2 ^ 8 in
    let scale = metadata / 2 ^ 8 in
    let intg = precision - scale in
    let lacking = scale - precision in
    let frac = scale / 9 * 4 + dig2bytes (scale % 9) in
    if ltb precision scale
    then (if lacking % 9 == 0 then some (u32 (2 ^ 32 - lacking / 9 * 4 + frac)) else none)
    else some (intg / 9 * 4 + dig2bytes (intg % 9) + frac)

-- MYSQL_TYPE_DATETIME2: five bytes and those of the fraction.
unfoldable pub datetime2_size : ℕ → ℕ
datetime2_size metadata =
    let fraction =
      if metadata == 1 || metadata == 2
      then 1
      else if metadata == 3 || metadata == 4
      then 2
      else if metadata == 5 || metadata == 6
      then 3
      else 0 in
    fraction + 5

-- MYSQL_TYPE_BIT
unfoldable pub bit_size : ℕ → ℕ
bit_size metadata = metadata / 2 ^ 8 % 2 ^ 8 + (if ltb 0 (metadata % 2 ^ 8) then 1 else 0)

-- MYSQL_TYPE_VARCHAR: the length before the text has one byte or two.
unfoldable pub varchar_size : Memory → ℕ → ℕ → Option ℕ
varchar_size m p metadata =
    if ltb 255 metadata
    then (native_uint 2 m p >>= λ n. some (2 + n))
    else (load m p >>= λ n. some (1 + n))

-- The blobs: the metadata is the width of the length. Of a length of three bytes four are read.
unfoldable pub blob_size : Memory → ℕ → ℕ → Option ℕ
blob_size m p metadata =
    if metadata == 1
    then (load m p >>= λ n. some (1 + n))
    else if metadata == 2
    then (native_uint 2 m p >>= λ n. some (2 + n % 2 ^ 16))
    else if metadata == 3
    then (native_uint 4 m p >>= λ n. some (3 + n % 2 ^ 24))
    else if metadata == 4
    then (native_uint 4 m p >>= λ n. some (u32 (4 + n)))
    else some 0

module _ ⦃h : Headers⦄ where
  -- MYSQL_TYPE_STRING, SET and ENUM: the real type is in the metadata.
  unfoldable pub string_size : Memory → ℕ → ℕ → Option ℕ
  string_size m p metadata =
      let real = metadata % 2 ^ 8 in
      let len = metadata / 2 ^ 8 in
      if real == type_code ColumnType.set || real == type_code ColumnType.enum
      then some len
      else if ltb len 256
      then (load m p >>= λ n. some (n + 1))
      else uint_korr 2 m p

  unfoldable pub calc_field_size : ColumnType → Memory → ℕ → ℕ → Option ℕ
  unfolding newdecimal_size datetime2_size bit_size varchar_size blob_size string_size
  calc_field_size ColumnType.var_string m p metadata = some metadata
  calc_field_size ColumnType.newdecimal m p metadata = newdecimal_size metadata
  calc_field_size ColumnType.decimal m p metadata = some metadata
  calc_field_size ColumnType.float m p metadata = some metadata
  calc_field_size ColumnType.double m p metadata = some metadata
  calc_field_size ColumnType.set m p metadata = string_size m p metadata
  calc_field_size ColumnType.enum m p metadata = string_size m p metadata
  calc_field_size ColumnType.string m p metadata = string_size m p metadata
  calc_field_size ColumnType.year m p metadata = some 1
  calc_field_size ColumnType.tiny m p metadata = some 1
  calc_field_size ColumnType.short m p metadata = some 2
  calc_field_size ColumnType.int24 m p metadata = some 3
  calc_field_size ColumnType.long m p metadata = some 4
  calc_field_size ColumnType.longlong m p metadata = some 8
  calc_field_size ColumnType.null m p metadata = some 0
  calc_field_size ColumnType.newdate m p metadata = some 3
  calc_field_size ColumnType.date m p metadata = some 3
  calc_field_size ColumnType.time m p metadata = some 3
  calc_field_size ColumnType.time2 m p metadata = some 3
  calc_field_size ColumnType.timestamp m p metadata = some 4
  calc_field_size ColumnType.timestamp2 m p metadata = some 4
  calc_field_size ColumnType.datetime m p metadata = some 8
  calc_field_size ColumnType.datetime2 m p metadata = some (datetime2_size metadata)
  calc_field_size ColumnType.bit m p metadata = some (bit_size metadata)
  calc_field_size ColumnType.varchar m p metadata = varchar_size m p metadata
  calc_field_size ColumnType.tiny_blob m p metadata = blob_size m p metadata
  calc_field_size ColumnType.medium_blob m p metadata = blob_size m p metadata
  calc_field_size ColumnType.long_blob m p metadata = blob_size m p metadata
  calc_field_size ColumnType.blob m p metadata = blob_size m p metadata
  calc_field_size ColumnType.geometry m p metadata = blob_size m p metadata
  calc_field_size ColumnType.json m p metadata = some (2 ^ 32 - 1)
  calc_field_size (ColumnType.other n) m p metadata = some (2 ^ 32 - 1)
