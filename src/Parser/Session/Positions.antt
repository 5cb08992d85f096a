-- ===== src/Parser/Session/Positions.antt =====
-- The position that the master prints is the one that `get_last_binlog_position` stores.
use mysqlslave.Base.{
  ℕ, zero, suc, ◌+◌, ◌-◌, ◌*◌, ◌/◌, ◌%◌, ◌^◌, ◌≡◌, ◌<◌, refl, ap, ◌∙◌, arith, some, true, false,
  List, [], ◌∷◌, ◌++◌, All, Bool-cases, inl, inr, ◌==◌, ltb, lt→ltb,
}
use mysqlslave.Base.Int.{pos}
use native.Mathlib.Nat.{pow-suc}
use mysqlslave.Base.Texts.{codes, decimal}
use mysqlslave.Parser.{is_empty}
use mysqlslave.Parser.Session.{SqlRow, Client, State, done, query_rows, ◌>>=◌}
use mysqlslave.Parser.Session.Position.{
  is_space, is_digit, digits_value, atoll, take_position, get_last_binlog_position,
}

-- A digit at the end.
digits_value-behind :
    (digits : List ℕ) (n d : ℕ)
    → All (λ c. is_digit c ≡ true) digits
    → d < 10
    → digits_value n (digits ++ ((b'0' + d) ∷ [])) ≡ digits_value n digits * 10 + d
digits_value-behind [] n d valid small = ground (arith, small)
digits_value-behind (c ∷ digits) n d valid small =
    rw (valid.0) (digits_value-behind digits (n * 10 + (c - b'0')) d valid.1 small)

All-append : (P : ℕ → Type 0) (xs ys : List ℕ) → All P xs → All P ys → All P (xs ++ ys)
All-append P [] ys first second = second
All-append P (x ∷ xs) ys first second = (first.0, All-append P xs ys first.1 second)

decimal-digits : (n v : ℕ) → All (λ c. is_digit c ≡ true) (decimal n v)
decimal-digits zero v = tt
decimal-digits (suc n) v =
    let above = decimal-digits n (v / 10) in
    elim (Bool-cases (ltb v 10)) [
      | inl small ↦ rw small (ground (arith, small), tt)
      | inr large ↦ rw large (
          All-append (λ c. is_digit c ≡ true) (decimal n (v / 10)) ((b'0' + v % 10) ∷ []) above
            (ground arith, tt))
    ]

digits_value-decimal : (n v : ℕ) → v < 10 ^ n → digits_value 0 (decimal n v) ≡ v
digits_value-decimal zero v fits = omega arith
digits_value-decimal (suc n) v fits =
    let above = digits_value-decimal n (v / 10) (omega (arith, pow-suc 10 n)) in
    elim (Bool-cases (ltb v 10)) [
      | inl small ↦ rw small (ground (arith, small))
      | inr large ↦ rw large (
          digits_value-behind (decimal n (v / 10)) 0 (v % 10) (decimal-digits n (v / 10))
            (omega arith)
          ∙ omega (arith, above))
    ]

-- A decimal number has no space, no sign in front.
atoll-digits :
    (digits : List ℕ)
    → All (λ c. is_digit c ≡ true) digits
    → digits_value 0 digits < 2 ^ 63
    → atoll digits ≡ some (pos (digits_value 0 digits))
unfolding atoll
atoll-digits [] valid fits = refl
atoll-digits (c ∷ digits) valid fits =
    let digit : is_digit c ≡ true = valid.0 in
    let space : is_space c ≡ false = ground (arith, digit) in
    let minus : (c == b'-') ≡ false = ground (arith, digit) in
    let plus : (c == b'+') ≡ false = ground (arith, digit) in
    rw (space, minus, plus) (rw (lt→ltb (digits_value 0 (c ∷ digits)) (2 ^ 63) fits) refl)

-- The text of a number of at most 19 digits that a `long long` can hold.
pub atoll-decimal : (v : ℕ) → v < 2 ^ 63 → atoll (decimal 19 v) ≡ some (pos v)
atoll-decimal v fits =
    let value = digits_value-decimal 19 v (omega arith) in
    atoll-digits (decimal 19 v) (decimal-digits 19 v) (omega (arith, value))
    ∙ ap (λ n. some (pos n)) value

module _ {S : Type 0} ⦃c : Client S⦄ where
  -- When the master answers with a row that holds a name that is not empty and a position of a
  -- binlog file, a number below 2 ^ 63 in decimal, the parser takes the name and the position
  -- modulo 2 ^ 32, and nothing else changes.
  pub get_last_binlog_position-row :
      (s : State S) (sent stored : S) (name : List ℕ) (v : ℕ) (rest : SqlRow) (rows : List SqlRow)
      → is_empty name ≡ false
      → v < 2 ^ 63
      → c.mysql_query (codes "SHOW MASTER STATUS") s.world ≡ (true, sent)
      → c.mysql_store_result sent ≡ (some ((some name ∷ some (decimal 19 v) ∷ rest) ∷ rows), stored)
      → get_last_binlog_position s
        ≡ done tt (record {
          parser = record s.parser { binlog_name = name; binlog_pos = v % 2 ^ 32 };
          world = stored;
        })
  unfolding get_last_binlog_position take_position query_rows ◌>>=◌
  get_last_binlog_position-row s sent stored name v rest rows named fits asked answered =
      rw (asked, answered, named, atoll-decimal v fits) refl
