-- ===== src/Value/Print/Buffers.antt =====
-- The buffers that dates and times are printed into are never too small.
pub mod Fields
use mysqlslave.Base.{
  ℕ, ◌+◌, ◌^◌, ◌≤◌, ◌<◌, ◌≡◌, ◌≢◌, refl, arith, Option, some, none, List, drop, length-drop,
  get_elem?-ne_none, not, ◌||◌, ◌==◌, Bool-cases, ◌>>=◌, Bool, true, false, Option-cases, inl, inr,
  lt→ltb, if◌then◌else◌, length,
}
use mysqlslave.Memory.{Memory, Headers, uint_korr}
use mysqlslave.Memory.Endian.{uint_korr-ne_none, take_exact_total}
use mysqlslave.Value.Types.{ColumnType}
use mysqlslave.Value.{Value, is_valid}
use mysqlslave.Value.Numbers.{as_timestamp, as_year, mi_uint4korr}
use mysqlslave.Value.Dates.{
  Date, Time, DateTime, as_date, as_time, as_datetime1, as_datetime2, split_date, split_time,
  split_datetime, split_datetime2, zero_date, zero_time, zero_datetime,
}
use mysqlslave.Value.Real.{Reals}
use mysqlslave.Value.JsonTypes.{JsonValues}
use mysqlslave.Value.Print.{
  Stream, Formats, put_text, unsigned_text, put_ctime, put_timestamp, put_by_type, put_value,
}
use mysqlslave.Value.Print.Buffers.Fields.{
  IsDateWord, IsTimeWord, IsDateTimeWord, put_date-fits, put_time-fits, put_datetime-ne_none,
  split_date-word, split_time-word, split_datetime-words, split_datetime2-words,
}

module _ ⦃h : Headers⦄ where
  -- A number that lies in the packet, taken apart by `split`, or what stands in its place.
  split_total :
      (A : Type 0) (P : A → Type 0) (n : ℕ) (split : ℕ → A) (m : Memory) (p : ℕ) (other : A)
      (b : Bool)
      → p + n ≤ length m
      → ((k : ℕ) → P (split k))
      → P other
      → (a : A) × ((if b then some other else uint_korr n m p >>= λ k. some (split k)) ≡ some a)
        × P a
  split_total A P n split m p other true fits holds zeros = (other, refl, zeros)
  split_total A P n split m p other false fits holds zeros = elim (Option-cases (uint_korr n m p)) [
    | inl e ↦ absurd (uint_korr-ne_none n m p fits e)
    | inr (k, e) ↦ (split k, rw e refl, holds k)
  ]

  as_date-total :
      (v : Value) (m : Memory) (p : ℕ)
      → v.storage ≡ some p
      → p + 8 ≤ length m
      → (x : Date) × (as_date v m ≡ some x) × IsDateWord x
  unfolding as_date
  as_date-total v m p stored fits = rw stored (
      split_total Date IsDateWord 3 split_date m p zero_date _ (omega arith) split_date-word
        (omega arith, omega arith, omega arith))

  as_time-total :
      (v : Value) (m : Memory) (p : ℕ)
      → v.storage ≡ some p
      → p + 8 ≤ length m
      → (x : Time) × (as_time v m ≡ some x) × IsTimeWord x
  unfolding as_time
  as_time-total v m p stored fits = rw stored (
      split_total Time IsTimeWord 3 split_time m p zero_time _ (omega arith) split_time-word
        (omega arith, omega arith, omega arith))

  as_datetime1-total :
      (v : Value) (m : Memory) (p : ℕ)
      → v.storage ≡ some p
      → p + 8 ≤ length m
      → (x : DateTime) × (as_datetime1 v m ≡ some x) × IsDateTimeWord x
  unfolding as_datetime1
  as_datetime1-total v m p stored fits = rw stored (
      split_total DateTime IsDateTimeWord 8 split_datetime m p zero_datetime _ (omega arith)
        split_datetime-words
        ((omega arith, omega arith, omega arith), (omega arith, omega arith, omega arith)))

  as_datetime2-total :
      (v : Value) (m : Memory) (p : ℕ)
      → v.storage ≡ some p
      → p + 8 ≤ length m
      → (x : DateTime) × (as_datetime2 v m ≡ some x) × IsDateTimeWord x
  unfolding as_datetime2
  as_datetime2-total v m p stored fits = rw stored (
      split_total DateTime IsDateTimeWord 5 split_datetime2 m p zero_datetime _ (omega arith)
        split_datetime2-words
        ((omega arith, omega arith, omega arith), (omega arith, omega arith, omega arith)))

mi_uint4korr-lt : (bs : List ℕ) → mi_uint4korr bs < 2 ^ 32
mi_uint4korr-lt bs = ground arith

-- A number of seconds of 32 bits, from any four bytes.
as_timestamp-total :
    (v : Value) (m : Memory) (p : ℕ)
    → v.storage ≡ some p
    → p + 8 ≤ length m
    → (t : ℕ) × (as_timestamp v m ≡ some t) × (t < 2 ^ 32)
unfolding as_timestamp
as_timestamp-total v m p stored fits =
    let (bs, read, same) = take_exact_total 4 (drop p m) (omega (arith, length-drop p m)) in
    elim (Bool-cases (v.null_flag || not (is_valid v) || not (v.size == 4))) [
      | inl zero_read ↦ (0, rw zero_read refl, omega arith)
      | inr whole ↦ (mi_uint4korr bs, rw (whole, stored, read) refl, mi_uint4korr-lt bs)
    ]

as_year-ne_none :
    (v : Value) (m : Memory) (p : ℕ) → v.storage ≡ some p → p + 8 ≤ length m → as_year v m ≢ none
unfolding as_year
as_year-ne_none v m p stored fits = ground (arith, stored, get_elem?-ne_none m p)

put_timestamp-ne_none : (os : Stream) (s : List ℕ) → length s ≡ 25 → put_timestamp os s ≢ none
unfolding put_timestamp
put_timestamp-ne_none os s size = rw (lt→ltb (length s) 64 (omega arith)) (λ e. cc)

-- The types of dates and times.
abbrev pub is_temporal : ColumnType → Bool
is_temporal ColumnType.date = true
is_temporal ColumnType.time = true
is_temporal ColumnType.time2 = true
is_temporal ColumnType.datetime = true
is_temporal ColumnType.datetime2 = true
is_temporal ColumnType.timestamp = true
is_temporal ColumnType.timestamp2 = true
is_temporal ColumnType.year = true
is_temporal _ = false

module _ ⦃h : Headers⦄ ⦃r : Reals⦄ ⦃j : JsonValues⦄ ⦃f : Formats⦄ where
  -- The texts of `ctime` have 25 characters, for every number of seconds in 32 bits.
  abbrev pub HasCtime : Type 0
  HasCtime = (t : ℕ) → t < 2 ^ 32 → length (f.ctime t) ≡ 25

  put_ctime-ne_none :
      (os : Stream) (v : Value) (m : Memory) (p : ℕ)
      → HasCtime
      → v.storage ≡ some p
      → p + 8 ≤ length m
      → put_ctime v m os ≢ none
  put_ctime-ne_none os v m p texts stored fits =
      let (t, read, small) = as_timestamp-total v m p stored fits in
      rw read (put_timestamp-ne_none os (f.ctime t) (texts t small))

  put_year-ne_none :
      (os : Stream) (v : Value) (o : Option ℕ)
      → o ≢ none
      → (o >>= λ y. some (put_text os (unsigned_text os.hex y))) ≢ none
  put_year-ne_none os v none read = λ e. read refl
  put_year-ne_none os v (some y) read = λ e. cc

  put_by_type-temporal :
      (os : Stream) (ty : ColumnType) (v : Value) (m : Memory) (p : ℕ)
      → HasCtime
      → is_temporal ty ≡ true
      → v.storage ≡ some p
      → p + 8 ≤ length m
      → put_by_type ty v m os ≢ none
  put_by_type-temporal os ColumnType.date v m p texts temporal stored fits =
      let (d, read, word) = as_date-total v m p stored fits in
      rw (read, put_date-fits os d word) (λ e. cc)
  put_by_type-temporal os ColumnType.time v m p texts temporal stored fits =
      let (t, read, word) = as_time-total v m p stored fits in
      rw (read, put_time-fits os t word) (λ e. cc)
  put_by_type-temporal os ColumnType.time2 v m p texts temporal stored fits =
      let (t, read, word) = as_time-total v m p stored fits in
      rw (read, put_time-fits os t word) (λ e. cc)
  put_by_type-temporal os ColumnType.datetime v m p texts temporal stored fits =
      let (dt, read, words) = as_datetime1-total v m p stored fits in
      rw read (put_datetime-ne_none os dt words)
  put_by_type-temporal os ColumnType.datetime2 v m p texts temporal stored fits =
      let (dt, read, words) = as_datetime2-total v m p stored fits in
      rw read (put_datetime-ne_none os dt words)
  put_by_type-temporal os ColumnType.timestamp v m p texts temporal stored fits =
      put_ctime-ne_none os v m p texts stored fits
  put_by_type-temporal os ColumnType.timestamp2 v m p texts temporal stored fits =
      put_ctime-ne_none os v m p texts stored fits
  put_by_type-temporal os ColumnType.year v m p texts temporal stored fits =
      put_year-ne_none os v (as_year v m) (as_year-ne_none v m p stored fits)
  put_by_type-temporal os _ v m p texts temporal stored fits = cc

  -- A value of a date or time type (DATE, YEAR, or TIME, DATETIME or TIMESTAMP in either version)
  -- with eight bytes of the packet behind its start, whatever they hold, is printed: no buffer of a
  -- `sprintf` is too small for its fields, nor for the text of `ctime`, if that has 25 characters for
  -- every number of seconds in 32 bits.
  pub put_value-temporal :
      (os : Stream) (v : Value) (m : Memory) (p : ℕ)
      → HasCtime
      → is_temporal v.ty ≡ true
      → v.storage ≡ some p
      → p + 8 ≤ length m
      → put_value os v m ≢ none
  unfolding put_value
  put_value-temporal os v m p texts temporal stored fits =
      put_by_type-temporal os v.ty v m p texts temporal stored fits
