-- ===== src/Value/Numbers.antt =====
-- The numeric accessors of `CValue`: `as_int<T>` of include/mysqlslave/value.hpp, and `as_bit`,
-- `as_boolean`, `as_timestamp`, `as_year` and `as_enum` of src/mysqlslave/value.cpp. An accessor
-- takes the packet that its value points into.
pub mod Widths
use mysqlslave.Base.{ℕ, ◌+◌, ◌*◌, ◌%◌, ◌^◌, Option, none, some, ◌>>=◌, ltb, ◌==◌, if◌then◌else◌}
use mysqlslave.Base.{Bool, not, ◌&&◌, ◌||◌, List, [], ◌∷◌}
use mysqlslave.Base.Int.{ℤ, signed}
use mysqlslave.Base.Words.{u16, u32}
use mysqlslave.Memory.{Memory, Headers, load, load_bytes, uint_korr}
use mysqlslave.Value.Types.{ColumnType, type_code}
use mysqlslave.Value.{Value, is_null, is_valid}

-- `mi_uint4korr`, which value.cpp defines: four bytes, the highest first.
abbrev pub mi_uint4korr : List ℕ → ℕ
mi_uint4korr (a ∷ b ∷ c ∷ d ∷ []) = u32 (d + c * 2 ^ 8 + b * 2 ^ 16 + a * 2 ^ 24)
mi_uint4korr _ = 0

-- A read through `_storage`; the null pointer is not read.
abbrev pub through {ℓ} : {A : Type ℓ} → Option ℕ → (ℕ → Option A) → Option A
through none read = none
through (some p) read = read p

module _ ⦃h : Headers⦄ where
  -- The number that `as_int<T>` casts to `T`.
  unfoldable pub raw_int : Value → Memory → Option ℕ
  raw_int v m =
      if is_null v || not (is_valid v)
      then some 0
      else if v.size == 1
      then through v.storage (load m)
      else if v.size == 2
      then through v.storage (uint_korr 2 m)
      else if v.size == 3
      then through v.storage (uint_korr 3 m)
      else if v.size == 4
      then through v.storage (uint_korr 4 m)
      else if v.size == 8
      then through v.storage (uint_korr 8 m)
      else some 0

  -- `as_uint8` to `as_uint64`, and `as_int8` to `as_int64`, by the width of `T` in bits.
  unfoldable pub as_uint : ℕ → Value → Memory → Option ℕ
  unfolding raw_int
  as_uint w v m = raw_int v m >>= λ n. some (n % 2 ^ w)

  unfoldable pub as_int : ℕ → Value → Memory → Option ℤ
  unfolding raw_int
  as_int w v m = raw_int v m >>= λ n. some (signed w (n % 2 ^ w))

  unfoldable pub as_bit : Value → Memory → Option ℕ
  unfolding as_uint
  as_bit = as_uint 64

  unfoldable pub as_boolean : Value → Memory → Option Bool
  unfolding as_uint
  as_boolean v m = as_uint 8 v m >>= λ n. some (not (n == 0))

  -- The cases of `as_enum` and `as_set` with no description.
  unfoldable pub as_enum : Value → Memory → Option ℕ
  as_enum v m =
      let wrong_type =
        not (type_code v.ty == type_code ColumnType.enum)
        && not (type_code v.ty == type_code ColumnType.set) in
      if is_null v || not (is_valid v) || wrong_type
      then some 0
      else if v.size == 1
      then through v.storage (load m)
      else if v.size == 2
      then through v.storage (uint_korr 2 m)
      else if v.size == 3
      then through v.storage (uint_korr 3 m)
      else if v.size == 4
      then through v.storage (uint_korr 4 m)
      else some 0

unfoldable pub as_timestamp : Value → Memory → Option ℕ
as_timestamp v m =
    if v.null_flag || not (is_valid v) || not (v.size == 4)
    then some 0
    else through v.storage (λ p. load_bytes 4 m p >>= λ bs. some (mi_uint4korr bs))

unfoldable pub as_year : Value → Memory → Option ℕ
as_year v m =
    if is_null v || not (is_valid v)
    then some 0
    else through v.storage (λ p. load m p >>= λ n. some (u16 (1900 + n)))
