-- ===== src/LogEvent/FieldLength/RoundTrip.antt =====
-- A length-encoded integer against the encoder that MySQL documents, and its bounds.
use mysqlslave.Base.{ℕ, ◌+◌, ◌^◌, ◌≤◌, ◌<◌, ◌≡◌, arith, List, [], ◌∷◌, ◌++◌, some, ltb}
use mysqlslave.Base.{
  if◌then◌else◌, length, drop, get_elem?-drop, drop_next, get_elem?-ne_none, ◌≢◌, none, ◌%◌, ap,
  ◌∙◌,
}
use mysqlslave.Memory.{Memory, Headers, take_exact, uint_korr}
use mysqlslave.Memory.Endian.{le_bytes, uint_korr-le_bytes, uint_korr-ne_none}
use mysqlslave.LogEvent.FieldLength.{net_field_length}

-- The documented encoding: one byte below 251, else a tag and 2, 3 or 8 bytes.
unfoldable pub field_length_bytes : ℕ → List ℕ
field_length_bytes v =
    if ltb v 251
    then v ∷ []
    else if ltb v (256 ^ 2)
    then 252 ∷ le_bytes 2 v
    else if ltb v (256 ^ 3)
    then 253 ∷ le_bytes 3 v
    else 254 ∷ le_bytes 8 v

module _ ⦃h : Headers⦄ where
  -- The four bytes that are read behind the tag of eight.
  korr_low_four :
      (v : ℕ) (m : Memory) (p : ℕ) (rest : List ℕ)
      → drop p m ≡ le_bytes 8 v ++ rest
      → uint_korr 4 m p ≡ some (v % 2 ^ 32)
  unfolding uint_korr take_exact
  korr_low_four v m p rest at = rw at (ap some (h.korr_lem (le_bytes 4 v) ∙ omega arith))

  -- Wherever the documented encoding of an integer below 2 ^ 64 stands, the code reads the integer
  -- modulo 2 ^ 32 and stops behind the encoding.
  pub net_field_length-encoded :
      (v : ℕ) (m : Memory) (p : ℕ) (rest : List ℕ)
      → v < 2 ^ 64
      → drop p m ≡ field_length_bytes v ++ rest
      → net_field_length m p ≡ some (v % 2 ^ 32, p + length (field_length_bytes v))
  unfolding net_field_length field_length_bytes
  net_field_length-encoded v m p rest fits at = ground (
    arith,
    get_elem?-drop m p v rest,
    get_elem?-drop m p 252 (le_bytes 2 v ++ rest),
    get_elem?-drop m p 253 (le_bytes 3 v ++ rest),
    get_elem?-drop m p 254 (le_bytes 8 v ++ rest),
    drop_next m p 252 (le_bytes 2 v ++ rest),
    drop_next m p 253 (le_bytes 3 v ++ rest),
    drop_next m p 254 (le_bytes 8 v ++ rest),
    uint_korr-le_bytes 2 v m (p + 1) rest,
    uint_korr-le_bytes 3 v m (p + 1) rest,
    korr_low_four v m (p + 1) rest,
  )

  -- Nine bytes from `p` on are enough, whatever they are.
  pub net_field_length-ne_none :
      (m : Memory) (p : ℕ) → p + 9 ≤ length m → net_field_length m p ≢ none
  unfolding net_field_length
  net_field_length-ne_none m p fits = ground (
    arith,
    get_elem?-ne_none m p,
    uint_korr-ne_none 2 m (p + 1),
    uint_korr-ne_none 3 m (p + 1),
    uint_korr-ne_none 4 m (p + 1),
  )

  -- The address moves on by one to nine bytes.
  pub net_field_length_moves :
      (m : Memory) (p v q : ℕ) → net_field_length m p ≡ some (v, q) → (p < q) × (q ≤ p + 9)
  unfolding net_field_length
  net_field_length_moves m p v q e = ground arith
