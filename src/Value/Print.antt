-- ===== src/Value/Print.antt =====
-- The `operator<<` of src/mysqlslave/value.cpp, with JSON compiled in. The formats of the C and C++
-- libraries that they use are written out for integers and texts; those of floating point numbers,
-- `ctime` and jsoncpp's writer are the parameter `Formats`. `none` is a `sprintf` past the end of
-- its buffer, or a read outside the packet.
pub mod Buffers
pub mod Streams
use mysqlslave.Base.{
  ℕ, ◌+◌, ◌-◌, Option, none, some, ◌>>=◌, Bool, true, false, ltb, if◌then◌else◌, List, [], ◌∷◌,
  ◌++◌, length, replicate,
}
use mysqlslave.Base.Int.{ℤ, pos, negsuc, pattern_of}
use mysqlslave.Base.Texts.{decimal, hexadecimal}
use mysqlslave.Memory.{Memory, Headers}
use mysqlslave.Value.Types.{ColumnType}
use mysqlslave.Value.{Value}
use mysqlslave.Value.Numbers.{as_int, as_enum, as_timestamp, as_year}
use mysqlslave.Value.Dates.{Date, Time, DateTime, as_date, as_time, as_datetime1, as_datetime2}
use mysqlslave.Value.Text.{as_string}
use mysqlslave.Value.Sets.{drop_last}
use mysqlslave.Value.Real.{Reals, as_double, as_float}
use mysqlslave.Value.JsonTypes.{JsonValues}
use mysqlslave.Value.Json.{as_json}

-- A stream: what has been written, and the state that manipulators set. Only `hex`, `fill` and
-- `width` are set here; the others are as in a new stream.
pub record Stream : Type 0 where
  pub out : List ℕ
  pub hex : Bool
  pub fill : ℕ
  pub width : ℕ

-- A new stream.
abbrev pub new_stream : Stream
new_stream = record { out = []; hex = false; fill = b' '; width = 0 }

-- What every formatted output does with its text: filled on the left up to the width, which is then
-- reset.
abbrev pub put_text : Stream → List ℕ → Stream
put_text os s = record os {
  out = os.out ++ (replicate (os.width - length s) os.fill ++ s);
  width = 0;
}

-- A number of up to 64 bits: with `hex` a signed number is printed as its bit pattern.
abbrev pub unsigned_text : Bool → ℕ → List ℕ
unsigned_text hex n = if hex then hexadecimal 16 n else decimal 20 n

abbrev pub signed_text : Bool → ℤ → List ℕ
signed_text hex (pos n) = unsigned_text hex n
signed_text hex (negsuc n) =
    if hex then hexadecimal 16 (pattern_of 64 (negsuc n)) else b'-' ∷ decimal 20 (n + 1)

-- `sprintf` into a buffer of `size` bytes, one of them for the NUL.
abbrev pub into_buffer : ℕ → List ℕ → Option (List ℕ)
into_buffer size s = if ltb (length s) size then some s else none

-- `%02d` of a byte.
abbrev pub two_digits : ℕ → List ℕ
two_digits n = if ltb n 10 then b'0' ∷ decimal 3 n else decimal 3 n

abbrev pub date_text : Date → List ℕ
date_text d = decimal 5 d.y ++ (b'-' ∷ (two_digits d.m ++ (b'-' ∷ two_digits d.d)))

abbrev pub time_text : Time → List ℕ
time_text t = two_digits t.h ++ (b':' ∷ (two_digits t.m ++ (b':' ∷ two_digits t.s)))

unfoldable pub put_date : Stream → Date → Option Stream
put_date os d = into_buffer 20 (date_text d) >>= λ s. some (put_text os s)

unfoldable pub put_time : Stream → Time → Option Stream
put_time os t = into_buffer 10 (time_text t) >>= λ s. some (put_text os s)

unfoldable pub put_datetime : Stream → DateTime → Option Stream
unfolding put_date put_time
put_datetime os dt = put_date os dt.date >>= λ os'. put_time (put_text os' (b' ' ∷ [])) dt.time

-- The text of `ctime` in the buffer of 64 bytes, with its last byte cut off.
unfoldable pub put_timestamp : Stream → List ℕ → Option Stream
put_timestamp os s =
    into_buffer 64 s >>= λ s. some (put_text os (if ltb 1 (length s) then drop_last s else s))

module _ ⦃h : Headers⦄ ⦃r : Reals⦄ ⦃j : JsonValues⦄ where
  -- `ostream << double`, `ctime` of a number of seconds, and `Json::writeString`.
  pub record Formats : Type 0 where
    pub double_text : r.Double → List ℕ
    pub ctime : ℕ → List ℕ
    pub write_json : j.Json → List ℕ

  abbrev pub put_int : Value → Memory → Stream → Option Stream
  put_int v m os = as_int 64 v m >>= λ n. some (put_text os (signed_text os.hex n))

  -- `std::hex`, `setfill` and `setw` before the number.
  abbrev pub put_enum : Value → Memory → Stream → Option Stream
  put_enum v m os = as_enum v m >>= λ n.
      some (put_text (record os { hex = true; fill = b'0'; width = 8 }) (unsigned_text true n))

  abbrev put_string : Value → Memory → Stream → Option Stream
  put_string v m os = as_string v m >>= λ s. some (put_text os s)

  abbrev pub put_ctime : ⦃f : Formats⦄ → Value → Memory → Stream → Option Stream
  put_ctime ⦃f⦄ v m os = as_timestamp v m >>= λ t. put_timestamp os (f.ctime t)

  -- The `switch` on the type.
  abbrev pub put_by_type : ⦃f : Formats⦄ → ColumnType → Value → Memory → Stream → Option Stream
  put_by_type ColumnType.varchar v m os = put_string v m os
  put_by_type ColumnType.var_string v m os = put_string v m os
  put_by_type ColumnType.string v m os = put_string v m os
  put_by_type ColumnType.blob v m os = put_string v m os
  put_by_type ColumnType.enum v m os = put_enum v m os
  put_by_type ColumnType.set v m os = put_enum v m os
  put_by_type ColumnType.decimal v m os = put_int v m os
  put_by_type ColumnType.tiny v m os = put_int v m os
  put_by_type ColumnType.short v m os = put_int v m os
  put_by_type ColumnType.long v m os = put_int v m os
  put_by_type ColumnType.longlong v m os = put_int v m os
  put_by_type ⦃f⦄ ColumnType.float v m os =
      as_float v m >>= λ d. some (put_text os (f.double_text d))
  put_by_type ⦃f⦄ ColumnType.double v m os =
      as_double v m >>= λ d. some (put_text os (f.double_text d))
  put_by_type ColumnType.timestamp v m os = put_ctime v m os
  put_by_type ColumnType.timestamp2 v m os = put_ctime v m os
  put_by_type ColumnType.date v m os = as_date v m >>= put_date os
  put_by_type ColumnType.time v m os = as_time v m >>= put_time os
  put_by_type ColumnType.time2 v m os = as_time v m >>= put_time os
  put_by_type ColumnType.datetime v m os = as_datetime1 v m >>= put_datetime os
  put_by_type ColumnType.datetime2 v m os = as_datetime2 v m >>= put_datetime os
  put_by_type ColumnType.year v m os =
      as_year v m >>= λ y. some (put_text os (unsigned_text os.hex y))
  put_by_type ⦃f⦄ ColumnType.json v m os =
      as_json v m >>= λ value. some (put_text os (f.write_json value))
  put_by_type _ v m os = some os

  unfoldable pub put_value : ⦃f : Formats⦄ → Stream → Value → Memory → Option Stream
  unfolding put_date put_time put_datetime put_timestamp
  put_value os v m = put_by_type v.ty v m os
