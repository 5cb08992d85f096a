-- ===== src/Examples/Decimals.antt =====
-- NEWDECIMAL on the example of MySQL's documentation, 1234567890.1234 as a DECIMAL(14,4), and its
-- negative.
use mysqlslave.Base.{
  ℕ, ◌+◌, ◌-◌, ◌^◌, ◌≤◌, ◌≡◌, refl, arith, some, true, false, [], ◌∷◌, ◌++◌, length,
}
use mysqlslave.Base.Texts.{decimal}
use mysqlslave.Memory.{Memory, take_exact, little_endian, c_string}
use mysqlslave.Value.Decimal.{decoded, init_decimal}
use mysqlslave.Value.Decimal.Number.{Number, IsNumber}
use mysqlslave.Value.Decimal.Encoded.{init_decimal-encoded}
use mysqlslave.Value.Decimal.Room.{fix_intg_frac_error, groups_of, dec_ok, init_decimal-room}
use mysqlslave.Value.Real.{Reals, as_double, text_value}
use mysqlslave.Value.Real.Encoded.{decimal_view, as_double-encoded}

init_decimal_positive :
    init_decimal 14 4 (0x81 ∷ 0x0d ∷ 0xfb ∷ 0x38 ∷ 0xd2 ∷ 0x04 ∷ 0xd2 ∷ []) 0
    ≡ some (
        decoded
          (record { sign = false; intg = 10; frac = 4; buf = 1 ∷ 234567890 ∷ 123400000 ∷ [] }))
unfolding init_decimal take_exact
init_decimal_positive = refl

abbrev negative_bytes : Memory
negative_bytes = 0x7e ∷ 0xf2 ∷ 0x04 ∷ 0xc7 ∷ 0x2d ∷ 0xfb ∷ 0x2d ∷ []

abbrev negative_number : Number
negative_number = record {
  negative = true;
  lead_digits = 1;
  lead = 1;
  wholes = 234567890 ∷ [];
  parts = [];
  tail_digits = 4;
  tail = 1234;
}

negative_number-IsNumber : IsNumber negative_number
negative_number-IsNumber = record {
  lead_few = omega arith;
  lead_fits = omega arith;
  wholes_fit = (omega arith, tt);
  parts_fit = tt;
  tail_few = omega arith;
  tail_fits = omega arith;
}

init_decimal-encoded_example :
    init_decimal 14 4 negative_bytes 0
    ≡ some (
        decoded (record { sign = true; intg = 10; frac = 4; buf = 1 ∷ 234567890 ∷ 123400000 ∷ [] }))
init_decimal-encoded_example =
    init_decimal-encoded negative_number negative_bytes 0 [] negative_number-IsNumber (omega arith)
      (omega arith) refl

-- Stand-ins for floating point and the library: a double is a number, a text that of the groups.
instance abbrev pub number_reals : Reals
number_reals = record {
  Double = ℕ;
  zero_double = 0;
  max_double = 2 ^ 63;
  float4 = little_endian;
  float8 = little_endian;
  narrow = λ d. d;
  decimal2double = λ d. length d.buf;
  decimal_string_size = λ d. d.intg + d.frac + 3;
  decimal_buffer = λ d size precision scale. decimal 10 d.frac ++ (0 ∷ []);
}

as_double-encoded_example :
    (as_double (decimal_view 14 4 7 0) negative_bytes ≡ some 3)
    × (text_value (decimal_view 14 4 7 0) negative_bytes ≡ c_string (b'4' ∷ 0 ∷ []))
as_double-encoded_example =
    as_double-encoded negative_number negative_bytes 0 7 [] negative_number-IsNumber (omega arith)
      (omega arith) (omega arith) (omega arith) refl

negative_decoded :
    init_decimal 14 4 negative_bytes 0
    ≡ some (
        decoded (record { sign = true; intg = 10; frac = 4; buf = 1 ∷ 234567890 ∷ 123400000 ∷ [] }))
unfolding init_decimal take_exact
negative_decoded = refl

init_decimal-room_example :
    (fix_intg_frac_error 512 (groups_of (14 - 4)) (groups_of 4)
      ≡ (groups_of (14 - 4), groups_of 4, dec_ok))
    × (length {A = ℕ} (1 ∷ 234567890 ∷ 123400000 ∷ []) ≤ groups_of (14 - 4) + groups_of 4)
    × (length {A = ℕ} (1 ∷ 234567890 ∷ 123400000 ∷ []) ≤ 58)
init_decimal-room_example =
    init_decimal-room 14 4 negative_bytes 0
      (record { sign = true; intg = 10; frac = 4; buf = 1 ∷ 234567890 ∷ 123400000 ∷ [] })
      (omega arith) (omega arith) negative_decoded
