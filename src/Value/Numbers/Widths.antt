-- ===== src/Value/Numbers/Widths.antt =====
-- Integers are read back by the accessor of their own width; the three bytes of a MEDIUMINT have
-- none.
use mysqlslave.Base.{ℕ, suc, ◌-◌, ◌*◌, ◌/◌, ◌%◌, ◌^◌, ◌<◌, ◌≡◌, ◌≢◌, ◌⊎◌, inl, inr, refl, ap}
use mysqlslave.Base.{arith, false, List, [], ◌∷◌, ◌++◌, some, drop, get_elem?-drop}
use mysqlslave.Base.Int.{ℤ, pos, negsuc, signed, pattern_of}
use mysqlslave.Memory.{Memory, Headers, take_exact}
use mysqlslave.Memory.Endian.{le_bytes, uint_korr-le_bytes}
use mysqlslave.Value.Types.{ColumnType, type_code}
use mysqlslave.Value.{Value}
use mysqlslave.Value.Numbers.{raw_int, as_int, as_timestamp}

-- The widths, in bytes, that `as_int<T>` reads.
abbrev pub IsReadWidth : ℕ → Type 0
IsReadWidth k = (k ≡ 1) ⊎ (k ≡ 2) ⊎ (k ≡ 3) ⊎ (k ≡ 4) ⊎ (k ≡ 8)

-- The integers of `w` bits in two's complement.
abbrev pub IsInt : ℕ → ℤ → Type 0
IsInt w (pos n) = n < 2 ^ (w - 1)
IsInt w (negsuc n) = n < 2 ^ (w - 1)

-- A value that is neither null nor of the type NULL, `n` bytes long, at `p`.
abbrev pub number_at : ColumnType → ℕ → ℕ → Value
number_at t p n = record {
  ty = t;
  storage = some p;
  size = n;
  metadata = 0;
  null_flag = false;
  pos = 0;
}

-- The integer types that `T` may be, and the SQL type of the same width.
pub data IntWidth : Type 0 where
  int8 int16 int32 int64 : IntWidth

abbrev pub width_bytes : IntWidth → ℕ
width_bytes int8 = 1
width_bytes int16 = 2
width_bytes int32 = 4
width_bytes int64 = 8

abbrev pub width_bits : IntWidth → ℕ
width_bits w = 8 * width_bytes w

abbrev pub sql_type : IntWidth → ColumnType
sql_type int8 = ColumnType.tiny
sql_type int16 = ColumnType.short
sql_type int32 = ColumnType.long
sql_type int64 = ColumnType.longlong

signed-pattern_of :
    (w : IntWidth) (i : ℤ)
    → IsInt (width_bits w) i
    → (pattern_of (width_bits w) i < 256 ^ width_bytes w)
      × (signed (width_bits w) (pattern_of (width_bits w) i % 2 ^ width_bits w) ≡ i)
signed-pattern_of int8 (pos n) fits = ground arith
signed-pattern_of int8 (negsuc n) fits = ground arith
signed-pattern_of int16 (pos n) fits = ground arith
signed-pattern_of int16 (negsuc n) fits = ground arith
signed-pattern_of int32 (pos n) fits = ground arith
signed-pattern_of int32 (negsuc n) fits = ground arith
signed-pattern_of int64 (pos n) fits = ground arith
signed-pattern_of int64 (negsuc n) fits = ground arith

read_width : (w : IntWidth) → IsReadWidth (width_bytes w)
read_width int8 = inl refl
read_width int16 = inr (inl refl)
read_width int32 = inr (inr (inr (inl refl)))
read_width int64 = inr (inr (inr (inr refl)))

sql_type-ne_null : (w : IntWidth) → type_code (sql_type w) ≢ type_code ColumnType.null
sql_type-ne_null int8 = omega arith
sql_type-ne_null int16 = omega arith
sql_type-ne_null int32 = omega arith
sql_type-ne_null int64 = omega arith

module _ ⦃h : Headers⦄ where
  raw_int-encoded :
      (t : ColumnType) (k v : ℕ) (m : Memory) (p : ℕ) (rest : List ℕ)
      → type_code t ≢ type_code ColumnType.null
      → IsReadWidth k
      → v < 256 ^ k
      → drop p m ≡ le_bytes k v ++ rest
      → raw_int (number_at t p k) m ≡ some v
  unfolding raw_int
  raw_int-encoded t k v m p rest typed width fits at =
      ground (arith, uint_korr-le_bytes k v m p rest at fits, get_elem?-drop m p v rest)

  -- A TINYINT, SMALLINT, INT or BIGINT in two's complement is read by the signed accessor of its
  -- own width as the integer that it stands for.
  pub as_int-encoded :
      (w : IntWidth) (i : ℤ) (m : Memory) (p : ℕ) (rest : List ℕ)
      → IsInt (width_bits w) i
      → drop p m ≡ le_bytes (width_bytes w) (pattern_of (width_bits w) i) ++ rest
      → as_int (width_bits w) (number_at (sql_type w) p (width_bytes w)) m ≡ some i
  unfolding as_int
  as_int-encoded w i m p rest fits at =
      let (small, back) = signed-pattern_of w i fits in
      let raw =
        raw_int-encoded (sql_type w) (width_bytes w) (pattern_of (width_bits w) i) m p rest
          (sql_type-ne_null w) (read_width w) small at in
      rw raw (ap some back)

  -- A negative MEDIUMINT, three bytes in two's complement, is read by `as_int32` as the number that
  -- is larger by 2 ^ 24: its sign is lost.
  as_int-int24_negative :
      (n : ℕ) (m : Memory) (p : ℕ) (rest : List ℕ)
      → n < 2 ^ 23
      → drop p m ≡ le_bytes 3 (pattern_of 24 (negsuc n)) ++ rest
      → as_int 32 (number_at ColumnType.int24 p 3) m ≡ some (pos (2 ^ 24 - suc n))
  unfolding as_int
  as_int-int24_negative n m p rest fits at =
      let raw =
        raw_int-encoded ColumnType.int24 3 (2 ^ 24 - suc n) m p rest (omega arith)
          (inr (inr (inl refl))) (omega arith) at in
      rw raw (ground arith)

-- The four bytes of a TIMESTAMP, the highest first.
abbrev pub be_bytes : ℕ → List ℕ
be_bytes v = (v / 2 ^ 24) ∷ (v / 2 ^ 16 % 256) ∷ (v / 2 ^ 8 % 256) ∷ (v % 256) ∷ []

-- A TIMESTAMP of four bytes, the highest first, is read back.
as_timestamp-encoded :
    (t : ColumnType) (v : ℕ) (m : Memory) (p : ℕ) (rest : List ℕ)
    → v < 2 ^ 32
    → drop p m ≡ be_bytes v ++ rest
    → as_timestamp (number_at t p 4) m ≡ some v
unfolding as_timestamp take_exact
as_timestamp-encoded t v m p rest fits at = rw at (ap some (omega arith))
