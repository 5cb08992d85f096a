-- ===== src/Value/Print/Buffers/Fields.antt =====
-- The texts of dates and times whose fields fit their words are short enough for the buffers.
use mysqlslave.Base.{
  ℕ, zero, suc, ◌+◌, ◌/◌, ◌%◌, ◌^◌, ◌≤◌, ◌<◌, ◌≡◌, ◌≢◌, refl, arith, some, none, lt→ltb, [], ◌∷◌,
  ◌++◌, length, length-append,
}
use mysqlslave.Base.Texts.{decimal}
use mysqlslave.Base.Bits.{bit_and-eq-mod}
use mysqlslave.Value.Dates.{
  Date, Time, DateTime, split_date, split_time, split_datetime, split_datetime2, read_bit_slice,
}
use mysqlslave.Value.Print.{
  Stream, two_digits, date_text, time_text, put_text, put_date, put_time, put_datetime,
}
use native.Mathlib.Nat.{pow-suc}

length-decimal : (n k v : ℕ) → v < 10 ^ suc k → length (decimal n v) ≤ suc k
length-decimal zero k v fits = omega arith
length-decimal (suc n) zero v fits = ground (arith, fits)
length-decimal (suc n) (suc k) v fits =
    let above = length-decimal n k (v / 10) (omega (arith, pow-suc 10 (suc k))) in
    let joined = length-append (decimal n (v / 10)) ((b'0' + v % 10) ∷ []) in
    ground (arith, above, joined)

-- The fields of the machine's widths.
abbrev pub IsDateWord : Date → Type 0
IsDateWord d = (d.y < 2 ^ 16) × (d.m < 2 ^ 8) × (d.d < 2 ^ 8)

-- An hour of a byte, and minutes and seconds of two digits.
abbrev pub IsTimeWord : Time → Type 0
IsTimeWord t = (t.h < 2 ^ 8) × (t.m < 100) × (t.s < 100)

abbrev pub IsDateTimeWord : DateTime → Type 0
IsDateTimeWord dt = IsDateWord dt.date × IsTimeWord dt.time

length-two_digits : (n : ℕ) → n < 100 → length (two_digits n) ≤ 2
length-two_digits n fits = let two = length-decimal 3 1 n fits in ground (arith, two)

length-two_digits_byte : (n : ℕ) → n < 2 ^ 8 → length (two_digits n) ≤ 3
length-two_digits_byte n fits =
    let three = length-decimal 3 2 n (omega arith) in ground (arith, three)

pub put_date-fits :
    (os : Stream) (d : Date) → IsDateWord d → put_date os d ≡ some (put_text os (date_text d))
unfolding put_date
put_date-fits os d (y, m, s) = rw (lt→ltb _ 20 (date_short)) refl
  where
    date_short : length (date_text d) < 20
    date_short = omega (
      arith,
      length-decimal 5 4 d.y (omega arith),
      length-two_digits_byte d.m m,
      length-two_digits_byte d.d s,
      length-append (decimal 5 d.y) (b'-' ∷ (two_digits d.m ++ (b'-' ∷ two_digits d.d))),
      length-append (two_digits d.m) (b'-' ∷ two_digits d.d),
    )

pub put_time-fits :
    (os : Stream) (t : Time) → IsTimeWord t → put_time os t ≡ some (put_text os (time_text t))
unfolding put_time
put_time-fits os t (hour, minute, second) = rw (lt→ltb _ 10 (time_short)) refl
  where
    time_short : length (time_text t) < 10
    time_short = omega (
      arith,
      length-two_digits_byte t.h hour,
      length-two_digits t.m minute,
      length-two_digits t.s second,
      length-append (two_digits t.h) (b':' ∷ (two_digits t.m ++ (b':' ∷ two_digits t.s))),
      length-append (two_digits t.m) (b':' ∷ two_digits t.s),
    )

pub put_datetime-ne_none :
    (os : Stream) (dt : DateTime) → IsDateTimeWord dt → put_datetime os dt ≢ none
unfolding put_datetime
put_datetime-ne_none os dt (date, time) =
    rw (put_date-fits os dt.date date, put_time-fits _ dt.time time) (λ e. cc)

pub split_date-word : (n : ℕ) → IsDateWord (split_date n)
unfolding split_date
split_date-word n = (omega arith, omega arith, omega arith)

pub split_time-word : (n : ℕ) → IsTimeWord (split_time n)
unfolding split_time
split_time-word n = (omega arith, omega arith, omega arith)

pub split_datetime-words : (n : ℕ) → IsDateTimeWord (split_datetime n)
unfolding split_datetime
split_datetime-words n =
    ((omega arith, omega arith, omega arith), (omega arith, omega arith, omega arith))

pub split_datetime2-words : (n : ℕ) → IsDateTimeWord (split_datetime2 n)
unfolding split_datetime2 read_bit_slice
split_datetime2-words n =
    let minute = bit_and-eq-mod 6 (n / 2 ^ 6) in
    let second = bit_and-eq-mod 6 (n / 2 ^ 0) in
    (
      (ground arith, omega arith, omega arith),
      (omega arith, omega (arith, minute), omega (arith, second)),
    )
