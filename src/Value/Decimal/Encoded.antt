-- ===== src/Value/Decimal/Encoded.antt =====
-- The whole of `_init_decimal`, on the bytes of a number.
use mysqlslave.Base.{
  ℕ, zero, suc, ◌+◌, ◌-◌, ◌*◌, ◌/◌, ◌%◌, ◌^◌, ◌≡◌, ◌≤◌, ◌<◌, refl, ap, ◌∙◌, subst, arith, some,
  Bool, false, List, [], ◌∷◌, ◌++◌, All, ◌==◌, inl, inr, ltb, length, drop, get_elem?-drop,
  if◌then◌else◌, Bool-cases, le→ltb, eq→==, ne→==,
}
use mysqlslave.Memory.{Memory, load}
use mysqlslave.Value.FieldSize.{dig2bytes}
use mysqlslave.Value.Decimal.{
  Decimal, decoded, push_integer, push_onto, decode_groups, init_decimal, flip_sign,
}
use mysqlslave.Value.Decimal.Groups.{group_bytes, IsWidth, IsStored}
use mysqlslave.Value.Decimal.Number.{
  Number, IsNumber, groups_bytes, number_body, number_scale, number_precision, integer_part,
  tail_part, number_value, pushes, pushes-behind, pushes-zeros,
}
use mysqlslave.Value.Decimal.RoundTrip.{
  digits-IsWidth, lead_group-IsStored, integer_groups-IsStored, fraction_groups-IsStored,
  tail_group-stored,
}
use mathlib.Core.List.{append_assoc, append-nil}

-- The first byte of a group of a number, as it is stored, has the sign.
abbrev flipped : ℕ → ℕ
flipped b = if ltb b 128 then b + 128 else b - 128

abbrev FirstByte : Bool → ℕ → ℕ → Type 0
FirstByte negative w v =
    (b : ℕ) × (bs : List ℕ) × (group_bytes negative w v ≡ b ∷ bs) × (ltb (flipped b) 128 ≡ negative)

module _ (negative : Bool) (v : ℕ) where
  first_byte1 : v < 2 ^ 7 → FirstByte negative 1 v
  first_byte1 small = (_, _, refl, ground arith)

  first_byte2 : v < 2 ^ 15 → FirstByte negative 2 v
  first_byte2 small = (_, _, refl, ground arith)

  first_byte3 : v < 2 ^ 23 → FirstByte negative 3 v
  first_byte3 small = (_, _, refl, ground arith)

  first_byte4 : v < 2 ^ 31 → FirstByte negative 4 v
  first_byte4 small = (_, _, refl, ground arith)

first_byte : (negative : Bool) (w v : ℕ) → IsWidth w → v < 2 ^ (8 * w - 1) → FirstByte negative w v
first_byte negative w v (inl one) small = rw one (first_byte1 negative v (rw one at small))
first_byte negative w v (inr (inl two)) small = rw two (first_byte2 negative v (rw two at small))
first_byte negative w v (inr (inr (inl three))) small =
    rw three (first_byte3 negative v (rw three at small))
first_byte negative w v (inr (inr (inr four))) small =
    rw four (first_byte4 negative v (rw four at small))

-- The first bit of a number is its sign.
sign_of_group :
    (negative : Bool) (w v : ℕ) (m : Memory) (start : ℕ) (rest : List ℕ)
    → IsWidth w
    → v < 2 ^ (8 * w - 1)
    → drop start m ≡ flip_sign (group_bytes negative w v ++ rest)
    → (b : ℕ) × (load m start ≡ some b) × (ltb b 128 ≡ negative)
sign_of_group negative w v m start rest width small at =
    let (b, bs, same, sign) = first_byte negative w v width small in
    (
      flipped b,
      get_elem?-drop m start (flipped b) (bs ++ rest) (at ∙ ap (λ l. flip_sign (l ++ rest)) same),
      sign,
    )

-- The group that a number begins with.
abbrev FirstGroup : Bool → List ℕ → Type 0
FirstGroup negative body =
    (w : ℕ) × (v : ℕ) × (rest : List ℕ) × IsWidth w
    × (v < 2 ^ (8 * w - 1))
    × (body ≡ group_bytes negative w v ++ rest)

first_of_digits :
    (negative : Bool) (digits v : ℕ) (rest : List ℕ)
    → digits < 9
    → v < 10 ^ digits
    → (digits ≡ 0 → FirstGroup negative rest)
    → FirstGroup negative (group_bytes negative (dig2bytes digits) v ++ rest)
first_of_digits negative zero v rest few fits later = later refl
first_of_digits negative (suc k) v rest few fits later =
    let (width, bound) = digits-IsWidth (suc k) (omega arith) few in
    (dig2bytes (suc k), v, rest, width, omega arith, refl)

first_of_groups :
    (negative : Bool) (vs : List ℕ) (rest : List ℕ)
    → All (λ v. v < 10 ^ 9) vs
    → (length vs ≡ 0 → FirstGroup negative rest)
    → FirstGroup negative (groups_bytes negative vs ++ rest)
first_of_groups negative [] rest fits later = later refl
first_of_groups negative (v ∷ vs) rest fits later = (
  4,
  v,
  groups_bytes negative vs ++ rest,
  inr (inr (inr refl)),
  omega (arith, fits.0),
  append_assoc (group_bytes negative 4 v) (groups_bytes negative vs) rest,
)

first_group :
    (n : Number) → IsNumber n → 0 < number_precision n → FirstGroup n.negative (number_body n)
first_group n valid some_digits =
    first_of_digits n.negative n.lead_digits n.lead _ valid.lead_few valid.lead_fits λ no_lead.
      first_of_groups n.negative n.wholes _ valid.wholes_fit λ no_wholes.
        first_of_groups n.negative n.parts _ valid.parts_fit λ no_parts.
          subst (FirstGroup n.negative)
            (append-nil (group_bytes n.negative (dig2bytes n.tail_digits) n.tail))
            (first_of_digits n.negative n.tail_digits n.tail [] valid.tail_few valid.tail_fits
              (λ no_tail. absurd (omega arith)))

-- The integer part, when its groups are through.
integer_value :
    (n : Number) (d : Decimal)
    → n.lead < 10 ^ n.lead_digits
    → d.buf ≡ []
    → d.intg ≡ n.lead_digits + 9 * length n.wholes
    → pushes n.wholes (if n.lead_digits == 0 then d else push_integer n.lead_digits n.lead d)
      ≡ record d { buf = (integer_part n).0; intg = (integer_part n).1 }
integer_value n d fits empty all =
    let pushed = ap (λ l. push_onto l n.lead_digits n.lead d) empty in
    elim (Bool-cases (n.lead == 0)) [
      | inl no_lead ↦ elim (Bool-cases (n.lead_digits == 0)) [
        | inl no_digits ↦
            let none_there : n.lead_digits ≡ 0 = ground (arith, no_digits) in
            rw (no_lead, no_digits) (pushes-zeros n.wholes d empty (omega arith))
        | inr digits ↦
            rw (digits, no_lead)
              (ap (pushes n.wholes) (pushed ∙ (rw no_lead refl))
                ∙ pushes-zeros n.wholes (record d { intg = d.intg - n.lead_digits }) empty
                    (omega arith))
      ]
      | inr lead ↦
          let digits : (n.lead_digits == 0) ≡ false =
            ne→== n.lead_digits 0
              (λ z. ground (arith, lead, subst (λ k. n.lead < 10 ^ k) z fits)) in
          rw (digits, lead)
            (ap (pushes n.wholes) (pushed ∙ (rw lead refl))
              ∙ pushes-behind n.wholes (record d { buf = n.lead ∷ [] }) n.lead [] refl
              ∙ ap (λ k. record d { buf = n.lead ∷ n.wholes; intg = k }) all)
    ]

module _ (n : Number) (m : Memory) (start : ℕ) (rest : List ℕ) (valid : IsNumber n)
    (room : start + 4 ≤ length m) (at : drop start m ≡ flip_sign (number_body n ++ rest)) where
  abbrev lead_bytes : List ℕ
  lead_bytes = group_bytes n.negative (dig2bytes n.lead_digits) n.lead

  abbrev tail_bytes : List ℕ
  tail_bytes = group_bytes n.negative (dig2bytes n.tail_digits) n.tail

  abbrev begun : Decimal
  begun = record {
    sign = n.negative;
    intg = n.lead_digits + 9 * length n.wholes;
    frac = number_scale n;
    buf = [];
  }

  abbrev after_integer : Decimal
  after_integer = record begun { buf = (integer_part n).0; intg = (integer_part n).1 }

  number-IsStored : IsStored m start start (
      lead_bytes
      ++ (groups_bytes n.negative n.wholes
          ++ (groups_bytes n.negative n.parts ++ (tail_bytes ++ rest))))
  number-IsStored =
      let wholes = groups_bytes n.negative n.wholes in
      let parts = groups_bytes n.negative n.parts in
      let apart =
        append_assoc lead_bytes (wholes ++ (parts ++ tail_bytes)) rest
        ∙ ap (λ l. lead_bytes ++ l)
            (append_assoc wholes (parts ++ tail_bytes) rest
              ∙ ap (λ l. wholes ++ l) (append_assoc parts tail_bytes rest)) in
      subst (IsStored m start start) apart (rw (eq→== start start refl) at)

  groups_decoded :
      decode_groups n.lead_digits (length n.wholes) (length n.parts) n.tail_digits m start begun
      ≡ some (decoded (number_value n))
  unfolding decode_groups
  groups_decoded =
      let (lead, at_wholes) =
        lead_group-IsStored m start room n.lead_digits n.lead start _ begun valid.lead_few
          valid.lead_fits (omega arith) number-IsStored in
      let (wholes, at_parts) =
        integer_groups-IsStored m start room n.wholes n.negative (start + dig2bytes n.lead_digits) _
          (if n.lead_digits == 0 then begun else push_integer n.lead_digits n.lead begun)
          (ground arith) (omega arith) valid.wholes_fit at_wholes in
      let (parts, at_tail) =
        fraction_groups-IsStored m start room n.parts
          (start + dig2bytes n.lead_digits + 4 * length n.wholes) _ after_integer (omega arith)
          valid.parts_fit at_parts in
      let last =
        tail_group-stored m start room n.tail_digits n.tail
          (start + dig2bytes n.lead_digits + 4 * length n.wholes + 4 * length n.parts) rest
          (record after_integer { buf = (integer_part n).0 ++ n.parts }) valid.tail_few
          valid.tail_fits (omega arith) at_tail in
      rw
        (
          lead,
          wholes,
          integer_value n begun valid.lead_fits refl refl,
          parts,
          last,
          append_assoc (integer_part n).0 n.parts (tail_part n),
        )
        refl

-- A number of at least one digit, in groups that fit, with at least four bytes from its start on:
-- from the bytes that MySQL stores for it (the groups with the highest byte first, each inverted
-- for a negative number, and the first bit of all flipped) `_init_decimal` makes its sign and its
-- groups, the last one shifted to nine digits, with no zero group in front.
pub init_decimal-encoded :
    (n : Number) (m : Memory) (start : ℕ) (rest : List ℕ)
    → IsNumber n
    → 0 < number_precision n
    → start + 4 ≤ length m
    → drop start m ≡ flip_sign (number_body n ++ rest)
    → init_decimal (number_precision n) (number_scale n) m start ≡ some (decoded (number_value n))
unfolding init_decimal
init_decimal-encoded n m start rest valid some_digits room at =
    let few = valid.lead_few in
    let (w, v, behind, width, small, body) = first_group n valid some_digits in
    let at_first : drop start m ≡ flip_sign (group_bytes n.negative w v ++ (behind ++ rest)) =
      at
      ∙ ap flip_sign
          (ap (λ l. l ++ rest) body ∙ append_assoc (group_bytes n.negative w v) behind rest) in
    let (b, loaded, sign) =
      sign_of_group n.negative w v m start (behind ++ rest) width small at_first in
    let wide : ltb (number_precision n) (number_scale n) ≡ false = le→ltb _ _ (omega arith) in
    let intg : number_precision n - number_scale n ≡ n.lead_digits + 9 * length n.wholes =
      omega arith in
    let intg0x : (n.lead_digits + 9 * length n.wholes) % 9 ≡ n.lead_digits = omega arith in
    let intg0 : (n.lead_digits + 9 * length n.wholes) / 9 ≡ length n.wholes = omega arith in
    let frac0x : number_scale n % 9 ≡ n.tail_digits = omega (arith, valid.tail_few) in
    let frac0 : number_scale n / 9 ≡ length n.parts = omega (arith, valid.tail_few) in
    rw (wide, intg, loaded, intg0x, intg0, frac0x, frac0, sign)
      (groups_decoded n m start rest valid room at)
