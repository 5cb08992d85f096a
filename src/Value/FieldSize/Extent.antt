-- ===== src/Value/FieldSize/Extent.antt =====
-- Texts on the wire: the size that `calc_field_size` gives, what `tune` keeps, and what `as_string`
-- reads are one text.
use mysqlslave.Base.{ℕ, ◌+◌, ◌^◌, ◌%◌, ◌≤◌, ◌<◌, ◌≡◌, refl, ap, ◌∙◌, sym, arith, some}
use mysqlslave.Base.{List, [], ◌∷◌, ◌++◌, ltb, if◌then◌else◌, length, drop, drop_past}
use mysqlslave.Base.{get_elem?-drop, true, false, ◌⊎◌}
use mysqlslave.Memory.{Memory, Headers, load, load_bytes, uint_korr, take_exact}
use mysqlslave.Memory.Endian.{
  le_bytes, length-le_bytes, little_endian-le_bytes, take_exact-append, uint_korr-le_bytes,
}
use mysqlslave.Value.Types.{ColumnType}
use mysqlslave.Value.{Value, tune}
use mysqlslave.Value.Text.{as_string, string_view}
use mysqlslave.Value.FieldSize.{native_uint, calc_field_size, varchar_size, blob_size}

-- The bytes of a length in front of a VARCHAR that has room for `room` bytes.
abbrev pub varchar_width : ℕ → ℕ
varchar_width room = if ltb 255 room then 2 else 1

-- The value that `tune` makes of a text behind a length.
abbrev pub tuned_text : Value → ColumnType → ℕ → ℕ → ℕ → Value
tuned_text v type metadata p size = record v {
  metadata = metadata;
  storage = some p;
  ty = type;
  size = size;
  null_flag = false;
}

native_uint-le_bytes :
    (n v : ℕ) (m : Memory) (p : ℕ) (rest : List ℕ)
    → drop p m ≡ le_bytes n v ++ rest
    → v < 256 ^ n
    → native_uint n m p ≡ some v
unfolding native_uint
native_uint-le_bytes n v m p rest at fits =
    rw (at, taken) (ap some (little_endian-le_bytes n v fits))
  where
    taken : take_exact n (le_bytes n v ++ rest) ≡ some (le_bytes n v)
    taken =
        ap (λ k. take_exact k (le_bytes n v ++ rest)) (sym (length-le_bytes n v))
        ∙ take_exact-append (le_bytes n v) rest

-- The text behind its length.
text_behind :
    (n v : ℕ) (m : Memory) (p : ℕ) (s rest : List ℕ)
    → drop p m ≡ le_bytes n v ++ (s ++ rest)
    → load_bytes (length s) m (p + n) ≡ some s
text_behind n v m p s rest at =
    rw (rw (length-le_bytes n v) at (drop_past m p (le_bytes n v) (s ++ rest) at))
      (take_exact-append s rest)

-- A length of one byte.
load-le_bytes :
    (v : ℕ) (m : Memory) (p : ℕ) (rest : List ℕ)
    → drop p m ≡ le_bytes 1 v ++ rest
    → v < 256
    → load m p ≡ some v
load-le_bytes v m p rest at small =
    get_elem?-drop m p (v % 256) rest at ∙ ap (λ (n : ℕ). some n) (omega arith)

-- The text is read where it stands; for an empty one `is_valid` fails, and nothing is read.
as_string-varchar :
    (v : Value) (metadata p : ℕ) (m : Memory) (s : List ℕ)
    → load_bytes (length s) m p ≡ some s
    → as_string (tuned_text v ColumnType.varchar metadata p (length s)) m ≡ some s
unfolding as_string string_view
as_string-varchar v metadata p m [] at = refl
as_string-varchar v metadata p m (c ∷ s) at = ground (arith, at)

as_string-blob :
    (v : Value) (metadata p : ℕ) (m : Memory) (s : List ℕ)
    → load_bytes (length s) m p ≡ some s
    → as_string (tuned_text v ColumnType.blob metadata p (length s)) m ≡ some s
unfolding as_string string_view
as_string-blob v metadata p m [] at = refl
as_string-blob v metadata p m (c ∷ s) at = ground (arith, at)

module _ ⦃h : Headers⦄ where
  -- The size of a VARCHAR with room for `room` bytes, and the value that `tune` makes of it.
  pub varchar-sized :
      (v : Value) (room : ℕ) (m : Memory) (p : ℕ) (s rest : List ℕ)
      → room < 2 ^ 16
      → length s ≤ room
      → drop p m ≡ le_bytes (varchar_width room) (length s) ++ (s ++ rest)
      → (calc_field_size ColumnType.varchar m p room ≡ some (varchar_width room + length s))
        × (tune v ColumnType.varchar m p room (varchar_width room + length s)
            ≡ some (tuned_text v ColumnType.varchar room (p + varchar_width room) (length s)))
  unfolding calc_field_size varchar_size tune
  varchar-sized v room m p s rest fits short at =
      (ground (arith, one, two, byte), ground (arith, one, two, byte))
    where
      byte : ltb 255 room ≡ false → load m p ≡ some (length s)
      byte small = load-le_bytes (length s) m p (s ++ rest) (rw small at at) (ground (arith, small))

      one : ltb 255 room ≡ true → native_uint 2 m p ≡ some (length s)
      one large = native_uint-le_bytes 2 (length s) m p (s ++ rest) (rw large at at) (omega arith)

      two : ltb 255 room ≡ true → uint_korr 2 m p ≡ some (length s)
      two large = uint_korr-le_bytes 2 (length s) m p (s ++ rest) (rw large at at) (omega arith)

  -- A VARCHAR with room for `room` bytes: the size in the row is the text and its length, and the
  -- text is what `as_string` reads from the value that `tune` makes.
  pub varchar_round_trip :
      (v : Value) (room : ℕ) (m : Memory) (p : ℕ) (s rest : List ℕ)
      → room < 2 ^ 16
      → length s ≤ room
      → drop p m ≡ le_bytes (varchar_width room) (length s) ++ (s ++ rest)
      → (v' : Value) × (calc_field_size ColumnType.varchar m p room
          ≡ some (varchar_width room + length s))
        × (tune v ColumnType.varchar m p room (varchar_width room + length s) ≡ some v')
        × (as_string v' m ≡ some s)
  varchar_round_trip v room m p s rest fits short at =
      let (size, tuned) = varchar-sized v room m p s rest fits short at in
      (
        tuned_text v ColumnType.varchar room (p + varchar_width room) (length s),
        size,
        tuned,
        as_string-varchar v room (p + varchar_width room) m s
            (text_behind (varchar_width room) (length s) m p s rest at),
      )

  -- A blob whose length takes `width` bytes, one, two or four, likewise.
  blob_round_trip :
      (v : Value) (width : ℕ) (m : Memory) (p : ℕ) (s rest : List ℕ)
      → ((width ≡ 1) ⊎ ((width ≡ 2) ⊎ (width ≡ 4)))
      → length s < 256 ^ width
      → length s + 4 < 2 ^ 32
      → drop p m ≡ le_bytes width (length s) ++ (s ++ rest)
      → (v' : Value) × (calc_field_size ColumnType.blob m p width ≡ some (width + length s))
        × (tune v ColumnType.blob m p width (width + length s) ≡ some v')
        × (as_string v' m ≡ some s)
  unfolding calc_field_size blob_size tune
  blob_round_trip v width m p s rest known fits short at = (
    tuned_text v ColumnType.blob width (p + width) (length s),
    ground (arith, known, fits, byte, native),
    ground (arith, known, fits, byte, korr),
    as_string-blob v width (p + width) m s (text_behind width (length s) m p s rest at),
  )
    where
      byte : width ≡ 1 → load m p ≡ some (length s)
      byte one = load-le_bytes (length s) m p (s ++ rest) (rw one at at) (rw one at fits)

      native : native_uint width m p ≡ some (length s)
      native = native_uint-le_bytes width (length s) m p (s ++ rest) at fits

      korr : uint_korr width m p ≡ some (length s)
      korr = uint_korr-le_bytes width (length s) m p (s ++ rest) at fits
