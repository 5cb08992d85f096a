-- ===== src/Value/Decimal/Number.antt =====
-- What a NEWDECIMAL stands for: its digits in groups, the bytes that MySQL stores, and the groups
-- that are kept of its integer part.
use mysqlslave.Base.{
  ℕ, ◌+◌, ◌-◌, ◌*◌, ◌^◌, ◌≡◌, ◌<◌, refl, ap, ◌∙◌, arith, Bool, List, [], ◌∷◌, ◌++◌, All, ◌==◌, inl,
  inr, length, if◌then◌else◌, Bool-cases,
}
use mysqlslave.Value.FieldSize.{dig2bytes}
use mysqlslave.Value.Decimal.{Decimal, push_integer, push_onto}
use mysqlslave.Value.Decimal.Groups.{group_bytes}
use mathlib.Core.List.{append_assoc, append-nil}

-- The digits of a number in groups: fewer than nine in front, groups of nine on both sides of the
-- point, and fewer than nine at the end.
pub record Number : Type 0 where
  pub negative : Bool
  pub lead_digits : ℕ
  pub lead : ℕ
  pub wholes : List ℕ
  pub parts : List ℕ
  pub tail_digits : ℕ
  pub tail : ℕ

pub record IsNumber (n : Number) : Type 0 where
  pub lead_few : n.lead_digits < 9
  pub lead_fits : n.lead < 10 ^ n.lead_digits
  pub wholes_fit : All (λ v. v < 10 ^ 9) n.wholes
  pub parts_fit : All (λ v. v < 10 ^ 9) n.parts
  pub tail_few : n.tail_digits < 9
  pub tail_fits : n.tail < 10 ^ n.tail_digits

abbrev pub groups_bytes : Bool → List ℕ → List ℕ
groups_bytes negative [] = []
groups_bytes negative (v ∷ vs) = group_bytes negative 4 v ++ groups_bytes negative vs

-- The bytes, but for the first bit, which is flipped.
abbrev pub number_body : Number → List ℕ
number_body n =
    group_bytes n.negative (dig2bytes n.lead_digits) n.lead
    ++ (groups_bytes n.negative n.wholes
        ++ (groups_bytes n.negative n.parts
            ++ group_bytes n.negative (dig2bytes n.tail_digits) n.tail))

abbrev pub number_scale : Number → ℕ
number_scale n = 9 * length n.parts + n.tail_digits

abbrev pub number_precision : Number → ℕ
number_precision n = n.lead_digits + 9 * length n.wholes + number_scale n

abbrev pub drop_zeros : List ℕ → List ℕ
drop_zeros [] = []
drop_zeros (v ∷ vs) = if v == 0 then drop_zeros vs else v ∷ vs

-- The digits of the integer part with no zero group in front, and their number.
abbrev pub integer_part : Number → List ℕ × ℕ
integer_part n =
    if n.lead == 0
    then (drop_zeros n.wholes, 9 * length (drop_zeros n.wholes))
    else (n.lead ∷ n.wholes, n.lead_digits + 9 * length n.wholes)

abbrev pub tail_part : Number → List ℕ
tail_part n = if n.tail_digits == 0 then [] else n.tail * 10 ^ (9 - n.tail_digits) ∷ []

abbrev pub number_value : Number → Decimal
number_value n = record {
  sign = n.negative;
  intg = (integer_part n).1;
  frac = number_scale n;
  buf = (integer_part n).0 ++ (n.parts ++ tail_part n);
}

abbrev pub pushes : List ℕ → Decimal → Decimal
pushes [] d = d
pushes (v ∷ vs) d = pushes vs (push_integer 9 v d)

pub push_onto-sign : (bs : List ℕ) (k v : ℕ) (d : Decimal) → (push_onto bs k v d).sign ≡ d.sign
push_onto-sign [] k v d = ground arith
push_onto-sign (b ∷ bs) k v d = refl

-- What the groups of the integer part leave, when something stands in front of them.
pub pushes-behind :
    (vs : List ℕ) (d : Decimal) (b : ℕ) (bs : List ℕ)
    → d.buf ≡ b ∷ bs
    → pushes vs d ≡ record d { buf = (b ∷ bs) ++ vs }
pushes-behind [] d b bs held = rw (append-nil (b ∷ bs), ← held) refl
pushes-behind (v ∷ vs) d b bs held =
    ap (λ l. pushes vs (push_onto l 9 v d)) held
    ∙ pushes-behind vs (record d { buf = b ∷ (bs ++ (v ∷ [])) }) b (bs ++ (v ∷ [])) refl
    ∙ ap (λ l. record d { buf = b ∷ l }) (append_assoc bs (v ∷ []) vs)

-- When nothing does, the zeros go.
pub pushes-zeros :
    (vs : List ℕ) (d : Decimal)
    → d.buf ≡ []
    → d.intg ≡ 9 * length vs
    → pushes vs d ≡ record d { buf = drop_zeros vs; intg = 9 * length (drop_zeros vs) }
pushes-zeros [] d empty all = rw (← empty, ← all) refl
pushes-zeros (v ∷ vs) d empty all =
    ap (λ l. pushes vs (push_onto l 9 v d)) empty ∙ elim (Bool-cases (v == 0)) [
      | inl zero_group ↦
          rw zero_group (pushes-zeros vs (record d { intg = d.intg - 9 }) empty (omega arith))
      | inr kept ↦ rw kept (
          pushes-behind vs (record d { buf = v ∷ [] }) v [] refl
          ∙ ap (λ k. record d { buf = v ∷ vs; intg = k }) all)
    ]
