-- ===== src/Value/Json/Scalars.antt =====
-- Numbers in the encoding that MySQL documents for them, and literals, which are not read in theirs.
use mysqlslave.Base.{
  ℕ, suc, ◌+◌, ◌-◌, ◌^◌, ◌<◌, ◌≤◌, ◌≡◌, refl, sym, ap, ◌∙◌, arith, Option, none, some, Bool, true,
  false, List, [], ◌==◌, if◌then◌else◌, get_elem?-drop, ◌∷◌, ◌++◌, length, drop, drop_next,
}
use native.Mathlib.Nat.{pow-suc, one-le-pow}
use mysqlslave.Base.Int.{ℤ, pos, negsuc, signed, pattern_of}
use mysqlslave.Memory.{Memory, Headers, take_exact, uint_korr, little_endian}
use mysqlslave.Memory.Endian.{le_bytes, uint_korr-le_bytes, take_exact-append}
use mysqlslave.Value.{Value}
use mysqlslave.Value.Json.Calls.{as_json-read}
use mysqlslave.Value.Json.{
  JsonValues, Read, literal_of, literal, int16, uint16, int32, uint32, int64, uint64, double,
  literal_null, literal_true, literal_false, read_inlined, read_by_type, read_type, as_json,
}

-- A JSON document that is a number; of a double, the eight bytes.
pub data Number : Type 0 where
  number16 number32 number64 : ℤ → Number
  count16 count32 count64 : ℕ → Number
  real : List ℕ → Number

-- The integers of `w` bits.
abbrev pub IsSigned : ℕ → ℤ → Type 0
IsSigned w (pos n) = n < 2 ^ (w - 1)
IsSigned w (negsuc n) = n < 2 ^ (w - 1)

abbrev pub IsNumber : Number → Type 0
IsNumber (number16 z) = IsSigned 16 z
IsNumber (number32 z) = IsSigned 32 z
IsNumber (number64 z) = IsSigned 64 z
IsNumber (count16 n) = n < 2 ^ 16
IsNumber (count32 n) = n < 2 ^ 32
IsNumber (count64 n) = n < 2 ^ 64
IsNumber (real bs) = length bs ≡ 8

-- Its type and its bytes.
abbrev pub number_type : Number → ℕ
number_type (number16 z) = int16
number_type (number32 z) = int32
number_type (number64 z) = int64
number_type (count16 n) = uint16
number_type (count32 n) = uint32
number_type (count64 n) = uint64
number_type (real bs) = double

abbrev pub number_bytes : Number → List ℕ
number_bytes (number16 z) = le_bytes 2 (pattern_of 16 z)
number_bytes (number32 z) = le_bytes 4 (pattern_of 32 z)
number_bytes (number64 z) = le_bytes 8 (pattern_of 64 z)
number_bytes (count16 n) = le_bytes 2 n
number_bytes (count32 n) = le_bytes 4 n
number_bytes (count64 n) = le_bytes 8 n
number_bytes (real bs) = bs

-- `null`, `true` and `false`, for which MySQL has one byte each.
pub data Literal : Type 0 where
  nothing : Literal
  truth : Bool → Literal

abbrev pub literal_code : Literal → ℕ
literal_code nothing = literal_null
literal_code (truth true) = literal_true
literal_code (truth false) = literal_false

pub data Scalar : Type 0 where
  number : Number → Scalar
  of_literal : Literal → Scalar

abbrev pub IsScalar : Scalar → Type 0
IsScalar (number s) = IsNumber s
IsScalar (of_literal l) = Unit

abbrev pub scalar_bytes : Scalar → List ℕ
scalar_bytes (number s) = number_type s ∷ number_bytes s
scalar_bytes (of_literal l) = literal ∷ literal_code l ∷ []

pattern_of-lt : (k : ℕ) (z : ℤ) → IsSigned (suc k) z → pattern_of (suc k) z < 2 ^ suc k
pattern_of-lt k (pos n) h = ground (arith, pow-suc 2 k, h)
pattern_of-lt k (negsuc n) h = ground (arith, one-le-pow (suc k) 2, h)

signed-pattern_of : (k : ℕ) (z : ℤ) → IsSigned (suc k) z → signed (suc k) (pattern_of (suc k) z) ≡ z
signed-pattern_of k (pos n) h = ground (arith, pow-suc 2 k)
signed-pattern_of k (negsuc n) h = ground (arith, pow-suc 2 k)

module _ ⦃h : Headers⦄ ⦃j : JsonValues⦄ where
  abbrev pub number_value : Number → j.Json
  number_value (number16 z) = j.of_int z
  number_value (number32 z) = j.of_int64 z
  number_value (number64 z) = j.of_int64 z
  number_value (count16 n) = j.of_int (pos n)
  number_value (count32 n) = j.of_uint64 n
  number_value (count64 n) = j.of_uint64 n
  number_value (real bs) = j.of_double bs

  read_by_type-number :
      (read : ℕ → Memory → ℕ → Read) (s : Number) (m : Memory) (p : ℕ) (rest : List ℕ)
      → IsNumber s
      → drop p m ≡ number_bytes s ++ rest
      → read_by_type read (number_type s) m p ≡ some (number_value s, p + length (number_bytes s))
  unfolding read_by_type
  read_by_type-number read (number16 z) m p rest valid at =
      rw
        (
          uint_korr-le_bytes 2 (pattern_of 16 z) m p rest at (pattern_of-lt 15 z valid),
          signed-pattern_of 15 z valid,
        )
        refl
  read_by_type-number read (number32 z) m p rest valid at =
      rw
        (
          uint_korr-le_bytes 4 (pattern_of 32 z) m p rest at (pattern_of-lt 31 z valid),
          signed-pattern_of 31 z valid,
        )
        refl
  read_by_type-number read (number64 z) m p rest valid at =
      rw
        (
          uint_korr-le_bytes 8 (pattern_of 64 z) m p rest at (pattern_of-lt 63 z valid),
          signed-pattern_of 63 z valid,
        )
        refl
  read_by_type-number read (count16 n) m p rest valid at =
      rw (uint_korr-le_bytes 2 n m p rest at (omega arith)) refl
  read_by_type-number read (count32 n) m p rest valid at =
      rw (uint_korr-le_bytes 4 n m p rest at (omega arith)) refl
  read_by_type-number read (count64 n) m p rest valid at =
      rw (uint_korr-le_bytes 8 n m p rest at (omega arith)) refl
  read_by_type-number read (real bs) m p rest valid at =
      let taken : take_exact 8 (bs ++ rest) ≡ some bs =
        ap (λ k. take_exact k (bs ++ rest)) (sym valid) ∙ take_exact-append bs rest in
      rw (at, taken, valid) refl

  as_json-number :
      (s : Number) (v : Value) (m : Memory) (p : ℕ) (rest : List ℕ)
      → IsNumber s
      → v.storage ≡ some p
      → drop p m ≡ number_type s ∷ (number_bytes s ++ rest)
      → as_json v m ≡ some (number_value s)
  as_json-number s v m p rest valid stored at =
      as_json-read (number_type s) _ (number_value s) v m p _ stored at
        (read_by_type-number (read_type (length m)) s m (p + 1) rest valid (drop_next m p _ _ at))

  abbrev pub literal_value : Literal → j.Json
  literal_value nothing = j.null_value
  literal_value (truth b) = j.of_bool b

  -- What is read of a literal that is `value`, by the bytes behind its own.
  abbrev pub read_literal : j.Json → List ℕ → Option j.Json
  read_literal value [] = none
  read_literal value (next ∷ rest) = some (if next == 0 then value else j.null_value)

  literal_of-bytes :
      (l : Literal) (next : ℕ)
      → literal_of (little_endian (literal_code l ∷ next ∷ []))
        ≡ (if next == 0 then literal_value l else j.null_value)
  literal_of-bytes nothing next = ground arith
  literal_of-bytes (truth true) next = ground arith
  literal_of-bytes (truth false) next = ground arith

  as_json-literal :
      (l : Literal) (v : Value) (m : Memory) (p : ℕ) (rest : List ℕ)
      → v.storage ≡ some p
      → drop p m ≡ literal ∷ literal_code l ∷ rest
      → as_json v m ≡ read_literal (literal_value l) rest
  unfolding as_json read_type read_by_type uint_korr take_exact
  as_json-literal l v m p [] stored at =
      rw (stored, get_elem?-drop m p literal _ at, drop_next m p _ _ at) refl
  as_json-literal l v m p (next ∷ rest) stored at =
      rw
        (
          stored,
          get_elem?-drop m p literal _ at,
          drop_next m p _ _ at,
          h.korr_lem (literal_code l ∷ next ∷ []),
        )
        (ap some (literal_of-bytes l next))

  -- What `as_json` makes of a scalar in front of `rest`.
  abbrev pub scalar_read : Scalar → List ℕ → Option j.Json
  scalar_read (number s) rest = some (number_value s)
  scalar_read (of_literal l) rest = read_literal (literal_value l) rest

  -- A document that is a number or a literal, in the bytes that MySQL writes for it (its type, then
  -- the number with the lowest byte first, in two's complement if it is signed, or the eight bytes of
  -- a double, or one byte for the literal). A number within its width is read back, whatever follows.
  -- A literal is not: the byte behind it is read as a part of it, so that `true` and `false` decode to
  -- `null` unless that byte is 0, and at the end of a packet no literal is read.
  pub as_json-scalar :
      (s : Scalar) (v : Value) (m : Memory) (p : ℕ) (rest : List ℕ)
      → IsScalar s
      → v.storage ≡ some p
      → drop p m ≡ scalar_bytes s ++ rest
      → as_json v m ≡ scalar_read s rest
  as_json-scalar (number s) v m p rest valid stored at = as_json-number s v m p rest valid stored at
  as_json-scalar (of_literal l) v m p rest valid stored at = as_json-literal l v m p rest stored at

  -- What `_read_jsonb_inlined` reads of the types that it knows is what `_read_jsonb_type` reads of
  -- them, with the same pointer behind it; of any other type it reads nothing.
  read_inlined-eq-read_by_type :
      (read : ℕ → Memory → ℕ → Read) (ty : ℕ) (m : Memory) (p : ℕ)
      → ((literal ≤ ty) × (ty ≤ uint32) → read_inlined ty m p ≡ read_by_type read ty m p)
        × (uint32 < ty → read_inlined ty m p ≡ some (j.null_value, p))
  unfolding read_inlined read_by_type
  read_inlined-eq-read_by_type read ty m p = (λ h. ground arith, λ h. ground arith)
