-- ===== src/Parser/Session/Position.antt =====
-- `get_last_binlog_position` of src/mysqlslave/logparser.cpp, and the `atoll` of the C library that
-- it calls.
use mysqlslave.Base.{
  ℕ, zero, suc, ◌+◌, ◌-◌, ◌*◌, ◌%◌, ◌^◌, Option, none, some, ◌&&◌, ◌||◌, Bool, true, false, List,
  [], ◌∷◌, if◌then◌else◌,
}
use mysqlslave.Base.{get_elem?, ltb, leb, ◌==◌}
use mysqlslave.Base.Int.{ℤ, pos, negsuc}
use mysqlslave.Base.Texts.{codes}
use mysqlslave.Parser.{Exception, is_empty}
use mysqlslave.Parser.Session.{
  SqlRow, Client, Session, throw, modify, ◌>>=◌, or_undefined, or_throw, query_rows,
}

abbrev pub is_space : ℕ → Bool
is_space c = c == 32 || (leb 9 c && leb c 13)

abbrev pub is_digit : ℕ → Bool
is_digit c = leb b'0' c && leb c b'9'

abbrev pub skip_spaces : List ℕ → List ℕ
skip_spaces [] = []
skip_spaces (c ∷ s) = if is_space c then skip_spaces s else c ∷ s

-- The number that the digits at the start of a text stand for, behind the ones of `n`.
abbrev pub digits_value : ℕ → List ℕ → ℕ
digits_value n [] = n
digits_value n (c ∷ s) = if is_digit c then digits_value (n * 10 + (c - b'0')) s else n

-- A sign, and digits.
abbrev signed_value : List ℕ → Bool × ℕ
signed_value [] = (false, 0)
signed_value (c ∷ s) =
    if c == b'-'
    then (true, digits_value 0 s)
    else if c == b'+'
    then (false, digits_value 0 s)
    else (false, digits_value 0 (c ∷ s))

-- `-n`, or `n`; the C library leaves open what a number is that a `long long` cannot hold.
abbrev in_range : Bool → ℕ → Option ℤ
in_range true zero = some (pos 0)
in_range true (suc n) = if ltb n (2 ^ 63) then some (negsuc n) else none
in_range false n = if ltb n (2 ^ 63) then some (pos n) else none

unfoldable pub atoll : List ℕ → Option ℤ
atoll s = let (negative, n) = signed_value (skip_spaces s) in in_range negative n

-- The cast to `uint32_t`.
abbrev pub u32_of : ℤ → ℕ
u32_of (pos n) = n % 2 ^ 32
u32_of (negsuc n) = 2 ^ 32 - 1 - n % 2 ^ 32

module _ {S : Type 0} ⦃c : Client S⦄ where
  -- The row of the master: `row[0] && row[0][0] && row[1]`.
  unfoldable pub take_position : SqlRow → Session S Unit
  take_position row = do
    name_field ← or_undefined (get_elem? row 0)
    name ← or_throw name_field Exception.no_master_status
    if is_empty name then throw Exception.no_master_status else do
      position_field ← or_undefined (get_elem? row 1)
      position ← or_throw position_field Exception.no_master_status
      n ← or_undefined (atoll position)
      modify (λ p. record p { binlog_name = name; binlog_pos = u32_of n })

  unfoldable pub get_last_binlog_position : Session S Unit
  unfolding take_position
  get_last_binlog_position = do
    result ← query_rows (codes "SHOW MASTER STATUS")
    rows ← or_throw result Exception.no_master_status
    elim rows [ [] ↦ throw Exception.no_master_status | row ∷ _ ↦ take_position row ]
