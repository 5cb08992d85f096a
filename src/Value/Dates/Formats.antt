-- ===== src/Value/Dates/Formats.antt =====
-- The date and time formats: each is read back from what MySQL stores, but for DATETIME2.
use mysqlslave.Base.{ℕ, ◌+◌, ◌*◌, ◌/◌, ◌%◌, ◌^◌, ◌≤◌, ◌<◌, ◌≡◌, ap, sym, ◌∙◌, arith}
use mysqlslave.Base.{List, [], ◌∷◌, ◌++◌, some, drop, false}
use mysqlslave.Base.Bits.{bit_and-eq-mod}
use mysqlslave.Memory.{Memory, Headers, little_endian, take_exact, uint_korr}
use mysqlslave.Memory.Endian.{le_bytes, uint_korr-le_bytes}
use mysqlslave.Value.Types.{ColumnType}
use mysqlslave.Value.{Value}
use mysqlslave.Value.Dates.{
  Date, Time, DateTime, as_date, as_time, as_datetime, split_date, split_time, split_datetime,
  split_datetime2,
}

-- The numbers that MySQL packs a DATE, a TIME and a DATETIME into.
abbrev pub pack_date : Date → ℕ
pack_date x = x.y * 512 + x.m * 32 + x.d

abbrev pub pack_time : Time → ℕ
pack_time x = x.h * 10000 + x.m * 100 + x.s

abbrev pub pack_datetime : DateTime → ℕ
pack_datetime x = (x.date.y * 10000 + x.date.m * 100 + x.date.d) * 1000000 + pack_time x.time

-- The fields of a calendar date and of a time of day.
abbrev pub IsDate : Date → Type 0
IsDate x = (x.y < 10000) × (x.m ≤ 12) × (x.d ≤ 31)

abbrev pub IsTime : Time → Type 0
IsTime x = (x.h < 24) × (x.m < 60) × (x.s < 60)

-- A value of type `t` that `tune` has set to `n` bytes at `p`.
abbrev pub view : ColumnType → ℕ → ℕ → Value
view t p n = record { ty = t; storage = some p; size = n; metadata = 0; null_flag = false; pos = 0 }

split_date_lem : (x : Date) → IsDate x → split_date (pack_date x) ≡ x
unfolding split_date
split_date_lem x h = ground arith

split_time_lem : (x : Time) → IsTime x → split_time (pack_time x) ≡ x
unfolding split_time
split_time_lem x h = ground arith

split_datetime_lem :
    (x : DateTime) → IsDate x.date → IsTime x.time → split_datetime (pack_datetime x) ≡ x
unfolding split_datetime
split_datetime_lem x h k = ground arith

module _ ⦃h : Headers⦄ where
  -- A calendar DATE, packed in three bytes as MySQL does, is read back field by field.
  as_date-encoded :
      (x : Date) (m : Memory) (p : ℕ) (rest : List ℕ)
      → IsDate x
      → drop p m ≡ le_bytes 3 (pack_date x) ++ rest
      → as_date (view ColumnType.date p 3) m ≡ some x
  unfolding as_date
  as_date-encoded x m p rest valid at =
      rw (uint_korr-le_bytes 3 (pack_date x) m p rest at (omega arith))
        (ap some (split_date_lem x valid))

  -- A TIME of day, packed in three bytes, is read back field by field.
  as_time-encoded :
      (x : Time) (m : Memory) (p : ℕ) (rest : List ℕ)
      → IsTime x
      → drop p m ≡ le_bytes 3 (pack_time x) ++ rest
      → as_time (view ColumnType.time p 3) m ≡ some x
  unfolding as_time
  as_time-encoded x m p rest valid at =
      rw (uint_korr-le_bytes 3 (pack_time x) m p rest at (omega arith))
        (ap some (split_time_lem x valid))

  -- A DATETIME, packed in eight bytes, is read back field by field.
  pub as_datetime-encoded :
      (x : DateTime) (m : Memory) (p : ℕ) (rest : List ℕ)
      → IsDate x.date
      → IsTime x.time
      → drop p m ≡ le_bytes 8 (pack_datetime x) ++ rest
      → as_datetime (view ColumnType.datetime p 8) m ≡ some x
  unfolding as_datetime
  as_datetime-encoded x m p rest date time at =
      rw (uint_korr-le_bytes 8 (pack_datetime x) m p rest at (omega arith))
        (ap some (split_datetime_lem x date time))

-- The five bytes of a DATETIME2 with no fraction, as MySQL stores them: the highest first.
abbrev pub pack_datetime2 : DateTime → ℕ
pack_datetime2 x =
    2 ^ 39
    + ((x.date.y * 13 + x.date.m) * 32 + x.date.d) * 2 ^ 17
    + (x.time.h * 2 ^ 12 + x.time.m * 2 ^ 6 + x.time.s)

abbrev pub datetime2_bytes : DateTime → List ℕ
datetime2_bytes x =
    let n = pack_datetime2 x in
    (n / 2 ^ 32) ∷ (n / 2 ^ 24 % 256) ∷ (n / 2 ^ 16 % 256) ∷ (n / 2 ^ 8 % 256) ∷ (n % 256) ∷ []

slices :
    (n : ℕ)
    → split_datetime2 n ≡ record {
      date = record {
        y = n / 2 % 2 ^ 16 / 13;
        m = n / 2 % 2 ^ 16 % 13 % 256;
        d = n / 2 ^ 17 % 32 % 256;
      };
      time = record { h = n / 2 ^ 12 % 32 % 256; m = n / 2 ^ 6 % 64 % 256; s = n % 64 % 256 };
    }
unfolding split_datetime2
slices n = ground (
  arith,
  bit_and-eq-mod 5 (n / 2 ^ 17),
  bit_and-eq-mod 5 (n / 2 ^ 12),
  bit_and-eq-mod 6 (n / 2 ^ 6),
  bit_and-eq-mod 6 (n / 2 ^ 0),
)

-- No bit above the lowest 22 has an effect.
split_datetime2-low : (n c : ℕ) → split_datetime2 (n + c * 2 ^ 24) ≡ split_datetime2 n
split_datetime2-low n c = rw (slices n, slices (n + c * 2 ^ 24)) (ground arith)

abbrev high : ℕ → ℕ
high n = little_endian ((n / 2 ^ 32) ∷ (n / 2 ^ 24 % 256) ∷ (n / 2 ^ 16 % 256) ∷ [])

high-eq : (n n' : ℕ) → n / 2 ^ 16 ≡ n' / 2 ^ 16 → high n ≡ high n'
high-eq n n' h = omega arith

high_bytes :
    (x x' : DateTime)
    → IsTime x.time
    → IsTime x'.time
    → x.date ≡ x'.date
    → x.time.h / 16 ≡ x'.time.h / 16
    → high (pack_datetime2 x) ≡ high (pack_datetime2 x')
high_bytes x x' time time' same_date same_half = high-eq _ _ (
    omega (
      arith,
      ap (λ (d : Date). d.y) same_date,
      ap (λ (d : Date). d.m) same_date,
      ap (λ (d : Date). d.d) same_date,
    ))

module _ ⦃h : Headers⦄ where
  -- The last two of the five bytes, which hold the lower bits of the hour, the minute and the
  -- second, have no effect on what is read.
  as_datetime-last_bytes :
      (a b c d e : ℕ) (m : Memory) (p : ℕ) (rest : List ℕ)
      → drop p m ≡ a ∷ b ∷ c ∷ d ∷ e ∷ rest
      → as_datetime (view ColumnType.datetime2 p 5) m
        ≡ some (split_datetime2 (little_endian (a ∷ b ∷ c ∷ [])))
  unfolding as_datetime uint_korr take_exact
  as_datetime-last_bytes a b c d e m p rest at = rw at (
      ap (λ n. some (split_datetime2 n)) (h.korr_lem (a ∷ b ∷ c ∷ d ∷ e ∷ []) ∙ omega arith)
      ∙ ap some (split_datetime2-low (little_endian (a ∷ b ∷ c ∷ [])) (d + 256 * e)))

  -- Two DATETIME2 values of the same date whose hours are both below 16, or both not, are read as
  -- the same date and time, whatever their minutes and seconds.
  pub as_datetime2-loses_time :
      (x x' : DateTime) (m m' : Memory) (p : ℕ) (rest rest' : List ℕ)
      → IsTime x.time
      → IsTime x'.time
      → x.date ≡ x'.date
      → x.time.h / 16 ≡ x'.time.h / 16
      → drop p m ≡ datetime2_bytes x ++ rest
      → drop p m' ≡ datetime2_bytes x' ++ rest'
      → as_datetime (view ColumnType.datetime2 p 5) m
        ≡ as_datetime (view ColumnType.datetime2 p 5) m'
  as_datetime2-loses_time x x' m m' p rest rest' time time' same_date same_half at at' =
      as_datetime-last_bytes _ _ _ _ _ m p rest at
      ∙ ap (λ n. some (split_datetime2 n)) (high_bytes x x' time time' same_date same_half)
      ∙ sym (as_datetime-last_bytes _ _ _ _ _ m' p rest' at')
