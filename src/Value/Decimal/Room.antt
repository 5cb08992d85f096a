-- ===== src/Value/Decimal/Room.antt =====
-- The buffer of 512 groups that `as_double` and `as_string` hand to `_init_decimal`, and the macro
-- FIX_INTG_FRAC_ERROR of src/mysqlslave/value.cpp that tests whether the groups fit.
use mysqlslave.Base.{
  ℕ, zero, suc, ◌+◌, ◌-◌, ◌/◌, ◌%◌, ◌^◌, ◌≤◌, ◌<◌, ◌≡◌, refl, ap, arith, Option, some, none, ◌>>=◌,
  >>=-eq-some, Bool, true, false, Bool-cases, inl, inr, ltb, le→ltb, leb, ◌==◌, if◌then◌else◌, List,
  [], ◌∷◌, ◌++◌, length, length-append,
}
use mysqlslave.Memory.{Memory, load}
use mysqlslave.Value.FieldSize.{dig2bytes}
use mysqlslave.Value.Decimal.{
  Decimal, Decoded, decoded, dec_error, and_decoded, push_onto, push_integer, read_group, shifted,
  lead_group, integer_groups, fraction_groups, tail_group, decode_groups, init_decimal,
}

-- E_DEC_OK, E_DEC_TRUNCATED and E_DEC_OVERFLOW
pub data DecError : Type 0 where
  dec_ok dec_truncated dec_overflow : DecError

-- FIX_INTG_FRAC_ERROR(len, intg1, frac1, error): the new `intg1` and `frac1`, and `error`.
unfoldable pub fix_intg_frac_error : ℕ → ℕ → ℕ → ℕ × ℕ × DecError
fix_intg_frac_error len intg1 frac1 =
    if ltb len (intg1 + frac1)
    then if ltb len intg1 then (len, 0, dec_overflow) else (intg1, len - intg1, dec_truncated)
    else (intg1, frac1, dec_ok)

-- `intg1` and `frac1`: the groups of a part of `digits` digits.
abbrev pub groups_of : ℕ → ℕ
groups_of digits = digits / 9 + (if ltb 0 (digits % 9) then 1 else 0)

push_onto-room :
    (bs : List ℕ) (digits v : ℕ) (d : Decimal)
    → bs ≡ d.buf
    → length (push_onto bs digits v d).buf ≤ length bs + 1
push_onto-room [] digits v d e = ground (arith, ap length e)
push_onto-room (g ∷ gs) digits v d e = omega (arith, length-append gs (v ∷ []))

push_integer-room :
    (digits v : ℕ) (d : Decimal) → length (push_integer digits v d).buf ≤ length d.buf + 1
push_integer-room digits v d = push_onto-room d.buf digits v d refl

else_branch :
    {A : Type 0} (b : Bool) (x y : A) {z : A} → b ≡ false → (if b then x else y) ≡ z → y ≡ z
else_branch true x y e h = cc
else_branch false x y e h = h

-- The branch that an assertion ends has no result.
no_error :
    {A : Type 0} (b : Bool) (x : Option (Decoded A)) (a : A)
    → (if b then some dec_error else x) ≡ some (decoded a)
    → x ≡ some (decoded a)
no_error true x a e = cc
no_error false x a e = e

lead_group-room :
    (digits : ℕ) (m : Memory) (start p q : ℕ) (d d' : Decimal)
    → lead_group digits m start p d ≡ some (decoded (q, d'))
    → length d'.buf ≤ length d.buf + (if ltb 0 digits then 1 else 0)
unfolding lead_group
lead_group-room digits m start p q d d' e = elim (Bool-cases (digits == 0)) [
  | inl none_left ↦ ground (arith, none_left, e)
  | inr some_left ↦
      let (group, read, rest) =
        >>=-eq-some (read_group d.sign (dig2bytes digits) m start p) _
          (else_branch (digits == 0) _ _ some_left e) in
      let made =
        no_error (leb (10 ^ (digits + 1)) group)
          (some (decoded (p + dig2bytes digits, push_integer digits group d))) (q, d') rest in
      ground (arith, some_left, made, push_integer-room digits group d)
]

integer_groups-room :
    (n : ℕ) (m : Memory) (start p q : ℕ) (d d' : Decimal)
    → integer_groups n m start p d ≡ some (decoded (q, d'))
    → length d'.buf ≤ length d.buf + n
unfolding integer_groups
integer_groups-room zero m start p q d d' e = ground arith
integer_groups-room (suc n) m start p q d d' e =
    let (group, read, rest) = >>=-eq-some (read_group d.sign 4 m start p) _ e in
    let more =
      integer_groups-room n m start (p + 4) q (push_integer 9 group d) d'
        (no_error (ltb (10 ^ 9 - 1) group) _ (q, d') rest) in
    omega (arith, more, push_integer-room 9 group d)

fraction_groups-room :
    (n : ℕ) (m : Memory) (start p q : ℕ) (d d' : Decimal)
    → fraction_groups n m start p d ≡ some (decoded (q, d'))
    → length d'.buf ≤ length d.buf + n
unfolding fraction_groups
fraction_groups-room zero m start p q d d' e = ground arith
fraction_groups-room (suc n) m start p q d d' e =
    let (group, read, rest) = >>=-eq-some (read_group d.sign 4 m start p) _ e in
    let more =
      fraction_groups-room n m start (p + 4) q (record d { buf = d.buf ++ (group ∷ []) }) d'
        (no_error (ltb (10 ^ 9 - 1) group) _ (q, d') rest) in
    omega (arith, more, length-append d.buf (group ∷ []))

tail_group-room :
    (digits : ℕ) (m : Memory) (start p : ℕ) (d d' : Decimal)
    → tail_group digits m start p d ≡ some (decoded d')
    → length d'.buf ≤ length d.buf + (if ltb 0 digits then 1 else 0)
unfolding tail_group
tail_group-room digits m start p d d' e = elim (Bool-cases (digits == 0)) [
  | inl none_left ↦ ground (arith, none_left, e)
  | inr some_left ↦
      let (group, read, rest) =
        >>=-eq-some (read_group d.sign (dig2bytes digits) m start p >>= shifted digits) _
          (else_branch (digits == 0) _ _ some_left e) in
      let made =
        no_error (ltb (10 ^ 9 - 1) group)
          (some (decoded (record d { buf = d.buf ++ (group ∷ []) }))) d' rest in
      ground (arith, some_left, made, length-append d.buf (group ∷ []))
]

and_decoded-eq :
    {A B : Type 0} (o : Option (Decoded A)) (f : A → Option (Decoded B)) {b : B}
    → and_decoded o f ≡ some (decoded b)
    → (a : A) × (o ≡ some (decoded a)) × (f a ≡ some (decoded b))
and_decoded-eq none f e = cc
and_decoded-eq (some dec_error) f e = cc
and_decoded-eq (some (decoded a)) f e = (a, refl, e)

decode_groups-room :
    (intg0x intg0 frac0 frac0x : ℕ) (m : Memory) (start : ℕ) (d d' : Decimal)
    → decode_groups intg0x intg0 frac0 frac0x m start d ≡ some (decoded d')
    → length d'.buf
      ≤ length d.buf
        + (intg0 + (if ltb 0 intg0x then 1 else 0))
        + (frac0 + (if ltb 0 frac0x then 1 else 0))
unfolding decode_groups
decode_groups-room intg0x intg0 frac0 frac0x m start d d' e =
    let ((p, d₁), lead, e₁) = and_decoded-eq (lead_group intg0x m start start d) _ e in
    let ((p', d₂), wholes, e₂) = and_decoded-eq (integer_groups intg0 m start p d₁) _ e₁ in
    let ((p'', d₃), parts, last) = and_decoded-eq (fraction_groups frac0 m start p' d₂) _ e₂ in
    omega (
      arith,
      lead_group-room intg0x m start start p d d₁ lead,
      integer_groups-room intg0 m start p p' d₁ d₂ wholes,
      fraction_groups-room frac0 m start p' p'' d₂ d₃ parts,
      tail_group-room frac0x m start p'' d₃ d' last,
    )

-- With a precision of a byte and a scale that is not larger, the test for the buffer of 512 groups
-- lets the groups of both parts through, and a number that `_init_decimal` returns has no more
-- groups than both parts have, and at most 58.
pub init_decimal-room :
    (precision scale : ℕ) (m : Memory) (start : ℕ) (d : Decimal)
    → precision < 256
    → scale ≤ precision
    → init_decimal precision scale m start ≡ some (decoded d)
    → (fix_intg_frac_error 512 (groups_of (precision - scale)) (groups_of scale)
        ≡ (groups_of (precision - scale), groups_of scale, dec_ok))
      × (length d.buf ≤ groups_of (precision - scale) + groups_of scale)
      × (length d.buf ≤ 58)
unfolding fix_intg_frac_error init_decimal
init_decimal-room precision scale m start d few narrow e =
    let wide : ltb precision scale ≡ false = le→ltb precision scale narrow in
    let (b, loaded, run) =
      >>=-eq-some (load m start) _ (else_branch (ltb precision scale) _ _ wide e) in
    let intg = precision - scale in
    let bound =
      decode_groups-room (intg % 9) (intg / 9) (scale / 9) (scale % 9) m start
        (record { sign = ltb b 128; intg = intg; frac = scale; buf = [] }) d run in
    let fits : groups_of intg + groups_of scale ≤ 58 = ground arith in
    (ground (arith, fits), omega (arith, bound), omega (arith, bound, fits))
