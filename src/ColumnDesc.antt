-- ===== src/ColumnDesc.antt =====
-- include/mysqlslave/columndesc.hpp: a column's position, and the variants of an ENUM or a SET,
-- taken from the type as SHOW COLUMNS prints it. A position in a string is the rest of the string
-- there.
pub mod Printed
use mysqlslave.Base.{ℕ, zero, suc, Option, none, some, ◌>>=◌, Bool, true, false, ◌&&◌, ◌||◌, not}
use mysqlslave.Base.{List, [], ◌∷◌, ◌==◌, if◌then◌else◌, take, length}

pub record ColumnDesc : Type 0 where
  pub position : ℕ
  pub variants : List (List ℕ)

-- `CColumnDesc::CColumnDesc()`
abbrev pub column_desc_init : ColumnDesc
column_desc_init = record { position = 0; variants = [] }

abbrev pub eq_bytes : List ℕ → List ℕ → Bool
eq_bytes [] [] = true
eq_bytes [] (_ ∷ _) = false
eq_bytes (_ ∷ _) [] = false
eq_bytes (a ∷ s) (b ∷ t) = a == b && eq_bytes s t

-- `field_type.find('\'', pos)`: what stands before the quote, and behind it.
unfoldable pub split_quote : List ℕ → Option (List ℕ × List ℕ)
split_quote [] = none
split_quote (c ∷ s) =
    let rest = split_quote s in
    if c == 0x27 then some ([], s) else rest >>= λ (before, after). some (c ∷ before, after)

-- The loop of `update`. Each round passes two quotes, so the length of the string is fuel enough.
unfoldable pub variants_loop : ℕ → List ℕ → List (List ℕ)
variants_loop zero s = []
variants_loop (suc fuel) s = elim (split_quote s) [
  | none ↦ []
  | some (_, s₁) ↦ elim (split_quote s₁) [
    | none ↦ []
    | some (name, s₂) ↦ name ∷ variants_loop fuel s₂
  ]
]

-- `field_type.compare(0, 4, "enum") == 0 || field_type.compare(0, 3, "set") == 0`
abbrev pub has_variants : List ℕ → Bool
has_variants s =
    eq_bytes (take 4 s) (b'e' ∷ b'n' ∷ b'u' ∷ b'm' ∷ [])
    || eq_bytes (take 3 s) (b's' ∷ b'e' ∷ b't' ∷ [])

-- `CColumnDesc::update`
unfoldable pub update : ColumnDesc → ℕ → List ℕ → ColumnDesc
unfolding variants_loop
update desc pos field_type = record {
  position = pos;
  variants = if has_variants field_type then variants_loop (length field_type) field_type else [];
}
