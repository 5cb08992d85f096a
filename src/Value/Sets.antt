-- ===== src/Value/Sets.antt =====
-- `as_enum` and `as_set` with a column's description, in src/mysqlslave/value.cpp.
pub mod Members
use mysqlslave.Base.{ℕ, zero, suc, ◌+◌, ◌-◌, ◌/◌, Option, none, some, ◌>>=◌, bit_and, not, length}
use mysqlslave.Base.{List, [], ◌∷◌, ◌++◌, ◌==◌, ltb, if◌then◌else◌, get_or, get_elem?}
use mysqlslave.Base.Words.{sub64}
use mysqlslave.Memory.{Memory, Headers}
use mysqlslave.ColumnDesc.{ColumnDesc}
use mysqlslave.Value.{Value}
use mysqlslave.Value.Numbers.{as_enum}

-- `desc.get_variants()[pos]`, or the empty string behind the last one.
unfoldable pub enum_name : List (List ℕ) → ℕ → List ℕ
enum_name variants pos = if ltb pos (length variants) then get_or variants pos [] else []

-- The loop of `as_set`: a bit that has no variant ends it. A mask has 64 bits at most.
unfoldable pub set_loop : ℕ → List (List ℕ) → ℕ → ℕ → List (List ℕ) → List (List ℕ)
set_loop zero variants mask pos result = result
set_loop (suc fuel) variants mask pos result =
    let found =
      set_loop fuel variants (mask / 2) (pos + 1) (result ++ (get_or variants pos [] ∷ [])) in
    let skipped = set_loop fuel variants (mask / 2) (pos + 1) result in
    if mask == 0
    then result
    else if not (bit_and mask 1 == 0)
    then (if ltb pos (length variants) then found else result)
    else skipped

-- `s += *it + " "` for each name.
unfoldable pub join_names : List (List ℕ) → List ℕ
join_names [] = []
join_names (s ∷ rest) = s ++ (b' ' ∷ join_names rest)

-- `s.erase(s.size() - 1, 1)`
abbrev pub drop_last : List ℕ → List ℕ
drop_last [] = []
drop_last (c ∷ []) = []
drop_last (c ∷ d ∷ s) = c ∷ drop_last (d ∷ s)

module _ ⦃h : Headers⦄ where
  -- `as_enum(desc)`: the numbers of an ENUM begin at 1; 0 wraps round and names nothing.
  unfoldable pub as_enum_name : Value → Memory → ColumnDesc → Option (List ℕ)
  unfolding enum_name
  as_enum_name v m desc = as_enum v m >>= λ n. some (enum_name desc.variants (sub64 n 1))

  -- `as_set(desc, result)`
  unfoldable pub as_set_names : Value → Memory → ColumnDesc → Option (List (List ℕ))
  unfolding set_loop
  as_set_names v m desc = as_enum v m >>= λ n. some (set_loop 64 desc.variants n 0 [])

  -- `as_set(desc)`
  unfoldable pub as_set_string : Value → Memory → ColumnDesc → Option (List ℕ)
  unfolding as_set_names join_names
  as_set_string v m desc = as_set_names v m desc >>= λ names. some (drop_last (join_names names))
