-- ===== src/Value/Dates.antt =====
-- `as_date`, `as_time` and `as_datetime` of src/mysqlslave/value.cpp.
pub mod Formats
use mysqlslave.Base.{ℕ, ◌+◌, ◌-◌, ◌*◌, ◌/◌, ◌%◌, ◌^◌, Option, none, some, ◌>>=◌, ltb, ◌==◌}
use mysqlslave.Base.{if◌then◌else◌, not, ◌||◌, bit_and}
use mysqlslave.Base.Words.{u8, u16}
use mysqlslave.Memory.{Memory, Headers, uint_korr}
use mysqlslave.Value.Types.{ColumnType, type_code}
use mysqlslave.Value.{Value, is_null, is_valid}
use mysqlslave.Value.Numbers.{through}

-- `TDate`, `TTime` and `TDateTime`.
pub record Date : Type 0 where
  pub y : ℕ
  pub m : ℕ
  pub d : ℕ

pub record Time : Type 0 where
  pub h : ℕ
  pub m : ℕ
  pub s : ℕ

pub record DateTime : Type 0 where
  pub date : Date
  pub time : Time

-- What `memset` leaves.
abbrev pub zero_date : Date
zero_date = record { y = 0; m = 0; d = 0 }

abbrev pub zero_time : Time
zero_time = record { h = 0; m = 0; s = 0 }

abbrev pub zero_datetime : DateTime
zero_datetime = record { date = zero_date; time = zero_time }

-- The fields of the three formats, and the casts to uint16_t and uint8_t.
unfoldable pub split_date : ℕ → Date
split_date dd = record { y = u16 (dd / (16 * 32)); m = u8 (dd / 32 % 16); d = u8 (dd % 32) }

unfoldable pub split_time : ℕ → Time
split_time tt = record { h = u8 (tt / 10000); m = u8 (tt % 10000 / 100); s = u8 (tt % 100) }

unfoldable pub split_datetime : ℕ → DateTime
split_datetime dt =
    let d = dt / 1000000 in
    let t = dt % 1000000 in
    record {
      date = record { y = u16 (d / 10000); m = u8 (d % 10000 / 100); d = u8 (d % 100) };
      time = record { h = u8 (t / 10000); m = u8 (t % 10000 / 100); s = u8 (t % 100) };
    }

-- `_read_bit_slice`
unfoldable pub read_bit_slice : ℕ → ℕ → ℕ → ℕ → ℕ
read_bit_slice binary start size data_length =
    bit_and (binary / 2 ^ (data_length - (start + size))) (2 ^ size - 1)

unfoldable pub split_datetime2 : ℕ → DateTime
unfolding read_bit_slice
split_datetime2 packed =
    let year_month = u16 (packed / 2 ^ 1) in
    record {
      date = record {
        y = year_month / 13;
        m = u8 (year_month % 13);
        d = u8 (read_bit_slice packed 18 5 40);
      };
      time = record {
        h = u8 (read_bit_slice packed 23 5 40);
        m = u8 (read_bit_slice packed 28 6 40);
        s = u8 (read_bit_slice packed 34 6 40);
      };
    }

module _ ⦃h : Headers⦄ where
  unfoldable pub as_date : Value → Memory → Option Date
  unfolding split_date
  as_date v m =
      if v.null_flag || not (is_valid v) || ltb v.size 3
      then some zero_date
      else through v.storage (uint_korr 3 m) >>= λ n. some (split_date n)

  unfoldable pub as_time : Value → Memory → Option Time
  unfolding split_time
  as_time v m =
      if is_null v || not (is_valid v) || ltb v.size 3
      then some zero_time
      else through v.storage (uint_korr 3 m) >>= λ n. some (split_time n)

  -- `_as_datetime` and `_as_datetime2`
  unfoldable pub as_datetime1 : Value → Memory → Option DateTime
  unfolding split_datetime
  as_datetime1 v m =
      if is_null v || not (is_valid v) || ltb v.size 8
      then some zero_datetime
      else through v.storage (uint_korr 8 m) >>= λ n. some (split_datetime n)

  unfoldable pub as_datetime2 : Value → Memory → Option DateTime
  unfolding split_datetime2
  as_datetime2 v m =
      if is_null v || not (is_valid v) || ltb v.size 5
      then some zero_datetime
      else through v.storage (uint_korr 5 m) >>= λ n. some (split_datetime2 n)

  unfoldable pub as_datetime : Value → Memory → Option DateTime
  unfolding as_datetime1 as_datetime2
  as_datetime v m =
      if type_code v.ty == type_code ColumnType.datetime
      then as_datetime1 v m
      else if type_code v.ty == type_code ColumnType.datetime2
      then as_datetime2 v m
      else some zero_datetime
