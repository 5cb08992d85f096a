-- ===== src/Value/Real/Encoded.antt =====
-- A NEWDECIMAL from its bytes to the library's conversions, and the values of other types.
use mysqlslave.Base.{
  ℕ, ◌+◌, ◌*◌, ◌%◌, ◌/◌, ◌^◌, ◌≤◌, ◌<◌, ◌≡◌, refl, arith, List, ◌++◌, some, drop, length, false,
  ◌==◌,
}
use mysqlslave.Memory.{Memory, c_string}
use mysqlslave.Value.Types.{ColumnType}
use mysqlslave.Value.{Value}
use mysqlslave.Value.Decimal.{decoded, flip_sign}
use mysqlslave.Value.Decimal.Number.{
  Number, IsNumber, number_body, number_precision, number_scale, number_value,
}
use mysqlslave.Value.Decimal.Encoded.{init_decimal-encoded}
use mysqlslave.Value.Real.{Reals, decimal_of, as_double, text_value}

-- A column DECIMAL(precision, scale) with the metadata that MySQL writes for it, at `p`.
abbrev pub decimal_view : ℕ → ℕ → ℕ → ℕ → Value
decimal_view precision scale size p = record {
  ty = ColumnType.newdecimal;
  storage = some p;
  size = size;
  metadata = precision + scale * 2 ^ 8;
  null_flag = false;
  pos = 0;
}

decimal_of-encoded :
    (n : Number) (m : Memory) (p size : ℕ) (rest : List ℕ)
    → IsNumber n
    → 0 < number_precision n
    → number_precision n < 256
    → p + 4 ≤ length m
    → drop p m ≡ flip_sign (number_body n ++ rest)
    → decimal_of (decimal_view (number_precision n) (number_scale n) size p) m
      ≡ some (decoded (number_value n))
unfolding decimal_of
decimal_of-encoded n m p size rest valid some_digits few room at =
    let low : (number_precision n + number_scale n * 2 ^ 8) % 256 ≡ number_precision n =
      omega arith in
    let high : (number_precision n + number_scale n * 2 ^ 8) / 2 ^ 8 ≡ number_scale n =
      omega arith in
    rw (low, high) (init_decimal-encoded n m p rest valid some_digits room at)

module _ ⦃r : Reals⦄ where
  -- A DECIMAL of at least one digit and a precision below 256, in groups that fit, with at least
  -- four bytes from its start on: from the bytes and the metadata that MySQL writes for it,
  -- `as_double` gives what the library's `decimal2double` makes of its sign and its groups, and
  -- `as_string` the text that `decimal2string` writes for them, in a buffer of the size that
  -- `decimal_string_size` asks for, up to its NUL.
  pub as_double-encoded :
      (n : Number) (m : Memory) (p size : ℕ) (rest : List ℕ)
      → IsNumber n
      → 0 < number_precision n
      → number_precision n < 256
      → 0 < size
      → p + 4 ≤ length m
      → drop p m ≡ flip_sign (number_body n ++ rest)
      → (as_double (decimal_view (number_precision n) (number_scale n) size p) m
          ≡ some (r.decimal2double (number_value n)))
        × (text_value (decimal_view (number_precision n) (number_scale n) size p) m
            ≡ c_string (
                r.decimal_buffer
                  (number_value n)
                  (r.decimal_string_size (number_value n))
                  (number_precision n + 2)
                  (number_scale n)))
  unfolding as_double text_value
  as_double-encoded n m p size rest valid some_digits few stored room at =
      let run = decimal_of-encoded n m p size rest valid some_digits few room at in
      let low : (number_precision n + number_scale n * 2 ^ 8) % 256 ≡ number_precision n =
        omega arith in
      let high : (number_precision n + number_scale n * 2 ^ 8) / 2 ^ 8 ≡ number_scale n =
        omega arith in
      let not_empty : (size == 0) ≡ false = ground (arith, stored) in
      (rw (not_empty, run) refl, rw (run, low, high) refl)
