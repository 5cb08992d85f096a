-- ===== src/Value/Decimal.antt =====
-- `_init_decimal` of src/mysqlslave/value.cpp: the groups of nine decimal digits of a NEWDECIMAL.
-- MySQL has at most as many digits behind the point as in all; with more, `intg` is negative, and
-- the code indexes before a table or fails an assertion. Precision and scale come from a byte each,
-- so there are at most 58 groups, and the buffer of 512 is never full.
pub mod Room
pub mod Groups
pub mod Number
pub mod RoundTrip
pub mod Encoded
use mysqlslave.Base.{
  ℕ, zero, suc, ◌+◌, ◌-◌, ◌*◌, ◌/◌, ◌%◌, ◌^◌, Option, none, some, ◌>>=◌, Bool, true, false, not,
  ◌&&◌, ◌||◌, List, [], ◌∷◌, ◌++◌, ◌==◌, ltb, leb, get_or, take, if◌then◌else◌,
}
use mysqlslave.Memory.{Memory, load, load_bytes}
use mysqlslave.Value.FieldSize.{dig2bytes}

-- `decimal_t`: the groups of digits in `buf`, each a number below 10 ^ 9.
pub record Decimal : Type 0 where
  pub sign : Bool
  pub intg : ℕ
  pub frac : ℕ
  pub buf : List ℕ

-- What `_init_decimal` returns: E_DEC_OK, or E_DEC_ERROR behind an assertion that fails.
pub data Decoded (A : Type 0) : Type 0 where
  decoded : A → Decoded A
  dec_error : Decoded A

abbrev pub and_decoded :
    {A B : Type 0} → Option (Decoded A) → (A → Option (Decoded B)) → Option (Decoded B)
and_decoded none f = none
and_decoded (some dec_error) f = some dec_error
and_decoded (some (decoded a)) f = f a

-- The bytes with the highest first.
abbrev pub big_endian_from : ℕ → List ℕ → ℕ
big_endian_from n [] = n
big_endian_from n (b ∷ bs) = big_endian_from (n * 256 + b) bs

-- `mi_sint1korr` to `mi_sint4korr`, as the bit pattern of an `int32_t`.
abbrev pub mi_sint_korr : ℕ → List ℕ → ℕ
mi_sint_korr width bs =
    let n = big_endian_from 0 bs in
    if ltb n (2 ^ (8 * width - 1)) then n else 2 ^ 32 - 2 ^ (8 * width) + n

-- `tmp[0] ^= 0x80`
abbrev pub flip_sign : List ℕ → List ℕ
flip_sign [] = []
flip_sign (b ∷ bs) = (if ltb b 128 then b + 128 else b - 128) ∷ bs

-- `x ^ mask`, where `mask` is -1 for a negative number.
abbrev pub masked : Bool → ℕ → ℕ
masked negative x = if negative then 2 ^ 32 - 1 - x else x

-- The group of `width` bytes at `p`. At the start of the number four bytes are copied, whatever the
-- width.
unfoldable pub read_group : Bool → ℕ → Memory → ℕ → ℕ → Option ℕ
read_group negative width m start p =
    let first = load_bytes 4 m p >>= λ bs.
    some (masked negative (mi_sint_korr width (flip_sign (take width bs)))) in
    let other = load_bytes width m p >>= λ bs. some (masked negative (mi_sint_korr width bs)) in
    if p == start then first else other

-- The next group of the integer part is kept, unless it is zero and nothing is in front of it:
-- `to_intg` then has `digits` fewer.
abbrev pub push_onto : List ℕ → ℕ → ℕ → Decimal → Decimal
push_onto [] digits group d =
    if group == 0 then record d { intg = d.intg - digits } else record d { buf = group ∷ [] }
push_onto (g ∷ gs) digits group d = record d { buf = (g ∷ gs) ++ (group ∷ []) }

abbrev pub push_integer : ℕ → ℕ → Decimal → Decimal
push_integer digits group d = push_onto d.buf digits group d

-- The group of fewer than nine digits that the integer part may begin with.
unfoldable pub lead_group : ℕ → Memory → ℕ → ℕ → Decimal → Option (Decoded (ℕ × Decimal))
unfolding read_group
lead_group digits m start p d =
    let width = dig2bytes digits in
    let read = read_group d.sign width m start p >>= λ group.
    if leb (10 ^ (digits + 1)) group
    then some dec_error
    else some (decoded (p + width, push_integer digits group d)) in
    if digits == 0 then some (decoded (p, d)) else read

-- `n` groups of nine digits of the integer part.
unfoldable pub integer_groups : ℕ → Memory → ℕ → ℕ → Decimal → Option (Decoded (ℕ × Decimal))
integer_groups zero m start p d = some (decoded (p, d))
integer_groups (suc n) m start p d = read_group d.sign 4 m start p >>= λ group.
    let rest = integer_groups n m start (p + 4) (push_integer 9 group d) in
    if ltb (10 ^ 9 - 1) group then some dec_error else rest

-- `n` groups of nine digits behind the point.
unfoldable pub fraction_groups : ℕ → Memory → ℕ → ℕ → Decimal → Option (Decoded (ℕ × Decimal))
fraction_groups zero m start p d = some (decoded (p, d))
fraction_groups (suc n) m start p d = read_group d.sign 4 m start p >>= λ group.
    let rest = fraction_groups n m start (p + 4) (record d { buf = d.buf ++ (group ∷ []) }) in
    if ltb (10 ^ 9 - 1) group then some dec_error else rest

-- The last group, shifted to nine digits. The product is an `int32_t`: what does not fit is
-- undefined.
abbrev pub shifted : ℕ → ℕ → Option ℕ
shifted digits group =
    let power = 10 ^ (9 - digits) in
    let positive = if ltb (group * power) (2 ^ 31) then some (group * power) else none in
    let negative =
      if leb ((2 ^ 32 - group) * power) (2 ^ 31)
      then some (2 ^ 32 - (2 ^ 32 - group) * power)
      else none in
    if ltb group (2 ^ 31) then positive else negative

unfoldable pub tail_group : ℕ → Memory → ℕ → ℕ → Decimal → Option (Decoded Decimal)
unfolding read_group
tail_group digits m start p d =
    let read = read_group d.sign (dig2bytes digits) m start p >>= shifted digits >>= λ group.
    if ltb (10 ^ 9 - 1) group
    then some dec_error
    else some (decoded (record d { buf = d.buf ++ (group ∷ []) })) in
    if digits == 0 then some (decoded d) else read

-- The four parts of the number, one behind the other.
unfoldable pub decode_groups : ℕ → ℕ → ℕ → ℕ → Memory → ℕ → Decimal → Option (Decoded Decimal)
unfolding lead_group integer_groups fraction_groups tail_group
decode_groups intg0x intg0 frac0 frac0x m start d =
    and_decoded (lead_group intg0x m start start d) λ (p, d₁).
      and_decoded (integer_groups intg0 m start p d₁) λ (p', d₂).
        and_decoded (fraction_groups frac0 m start p' d₂)
          λ (p'', d₃). tail_group frac0x m start p'' d₃

-- `_init_decimal`
unfoldable pub init_decimal : ℕ → ℕ → Memory → ℕ → Option (Decoded Decimal)
unfolding decode_groups
init_decimal precision scale m start =
    let intg = precision - scale in
    let run = load m start >>= λ b.
    decode_groups (intg % 9) (intg / 9) (scale / 9) (scale % 9) m start
      (record { sign = ltb b 128; intg = intg; frac = scale; buf = [] }) in
    if ltb precision scale then none else run
