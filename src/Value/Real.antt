-- ===== src/Value/Real.antt =====
-- `as_double`, `as_float`, and `as_string` of a NEWDECIMAL, of src/mysqlslave/value.cpp. Floating
-- point numbers and MySQL's decimal library are not in the repository: they are the parameter
-- `Reals`.
pub mod Encoded
use mysqlslave.Base.{ℕ, ◌+◌, ◌/◌, ◌%◌, ◌^◌, Option, none, some, ◌>>=◌, ◌==◌, if◌then◌else◌}
use mysqlslave.Base.{not, ◌||◌, List, []}
use mysqlslave.Memory.{Memory, load_bytes, c_string}
use mysqlslave.Value.Types.{ColumnType, type_code}
use mysqlslave.Value.{Value, is_null, is_valid}
use mysqlslave.Value.Decimal.{Decimal, Decoded, decoded, dec_error, init_decimal}
use mysqlslave.Value.Numbers.{through}
use mysqlslave.Value.Text.{as_string}

-- `float4get` and `float8get` on the bytes that they read, the narrowing to `float`, the largest
-- double, and `decimal2double`. `decimal_buffer d size precision scale` is what `decimal2string`
-- leaves in a buffer of `decimal_string_size` bytes.
pub record Reals : Type 1 where
  pub Double : Type 0
  pub zero_double : Double
  pub max_double : Double
  pub float4 : List ℕ → Double
  pub float8 : List ℕ → Double
  pub narrow : Double → Double
  pub decimal2double : Decimal → Double
  pub decimal_string_size : Decimal → ℕ
  pub decimal_buffer : Decimal → ℕ → ℕ → ℕ → List ℕ

-- The call of `_init_decimal` with the precision and the scale from the metadata.
unfoldable pub decimal_of : Value → Memory → Option (Decoded Decimal)
unfolding init_decimal
decimal_of v m = through v.storage (init_decimal (v.metadata % 256) (v.metadata / 2 ^ 8) m)

module _ ⦃r : Reals⦄ where
  abbrev double_of : Decoded Decimal → r.Double
  double_of (decoded d) = r.decimal2double d
  double_of dec_error = r.max_double

  unfoldable pub as_double : Value → Memory → Option r.Double
  unfolding decimal_of
  as_double v m =
      if is_null v || not (is_valid v)
      then some r.zero_double
      else if type_code v.ty == type_code ColumnType.newdecimal
      then (decimal_of v m >>= λ d. some (double_of d))
      else if v.size == 4
      then through v.storage (λ p. load_bytes 4 m p >>= λ bs. some (r.float4 bs))
      else if v.size == 8
      then through v.storage (λ p. load_bytes 8 m p >>= λ bs. some (r.float8 bs))
      else some r.zero_double

  unfoldable pub as_float : Value → Memory → Option r.Double
  unfolding as_double
  as_float v m = as_double v m >>= λ d. some (r.narrow d)

  -- The text that `decimal2string` writes, up to its NUL.
  abbrev text_of_decimal : ℕ → ℕ → Decoded Decimal → Option (List ℕ)
  text_of_decimal precision scale (decoded d) =
      c_string (r.decimal_buffer d (r.decimal_string_size d) (precision + 2) scale)
  text_of_decimal precision scale dec_error = some []

  -- `as_string()`, which goes on with the other overload for every other type.
  unfoldable pub text_value : Value → Memory → Option (List ℕ)
  unfolding decimal_of as_string
  text_value v m =
      if type_code v.ty == type_code ColumnType.newdecimal
      then decimal_of v m >>= text_of_decimal (v.metadata % 256) (v.metadata / 2 ^ 8)
      else as_string v m
