-- ===== src/LogEvent/TableMap/Bytes.antt =====
-- The bytes of a table map event, as MySQL documents them, and the names in it.
use mysqlslave.Base.{ℕ, ◌+◌, ◌^◌, ◌<◌, ◌≡◌, ◌≢◌, arith}
use mysqlslave.Base.{List, ◌∷◌, ◌++◌, some, All}
use mysqlslave.Base.{length, drop, drop_next, get_elem?-drop}
use mysqlslave.Memory.Strings.{c_string-append}
use mysqlslave.Memory.{Memory, Headers, load_bytes}
use mysqlslave.Memory.Endian.{le_bytes, take_exact-append}
use mysqlslave.LogEvent.FieldLength.RoundTrip.{field_length_bytes}
use mysqlslave.LogEvent.TableMap.{strcpy_255, read_name}

-- What a table map event says.
pub record TableLayout : Type 0 where
  pub table_id : ℕ
  pub map_flags : ℕ
  pub db_name : List ℕ
  pub table_name : List ℕ
  pub types : List ℕ
  pub metadata : List ℕ
  pub null_bits : List ℕ

-- A name without a NUL that fits `char[255]` with one.
pub record IsName (s : List ℕ) : Type 0 where
  pub no_nul : All (λ c. c ≢ 0) s
  pub short : length s < 255

pub record IsTableLayout (w : TableLayout) : Type 0 where
  pub table_id_fits : w.table_id < 256 ^ 6
  pub db_name_valid : IsName w.db_name
  pub table_name_valid : IsName w.table_name
  pub types_fit : length w.types < 2 ^ 32
  pub metadata_fits : length w.metadata < 2 ^ 32

-- The layout, from the back.
abbrev pub name_block : List ℕ → List ℕ → List ℕ
name_block s rest = length s ∷ (s ++ (0 ∷ rest))

abbrev pub sized_block : List ℕ → List ℕ → List ℕ
sized_block bs rest = field_length_bytes (length bs) ++ (bs ++ rest)

abbrev pub table_map_block : TableLayout → List ℕ → List ℕ
table_map_block w rest =
    le_bytes 6 w.table_id
    ++ (le_bytes 2 w.map_flags
        ++ name_block w.db_name (
            name_block w.table_name
              (sized_block w.types (sized_block w.metadata (w.null_bits ++ rest)))))

pub load_exact :
    (bs : List ℕ) (m : Memory) (p n : ℕ) (rest : List ℕ)
    → drop p m ≡ bs ++ rest
    → n ≡ length bs
    → load_bytes n m p ≡ some bs
load_exact bs m p n rest at size = rw (at, size) (take_exact-append bs rest)

module _ ⦃h : Headers⦄ where
  pub read_name-encoded :
      (s : List ℕ) (m : Memory) (p : ℕ) (rest : List ℕ)
      → IsName s
      → drop p m ≡ name_block s rest
      → read_name m p ≡ some (s, p + 1 + (length s + 1))
  unfolding read_name strcpy_255
  read_name-encoded s m p rest valid at =
      rw
        (
          get_elem?-drop m p (length s) _ at,
          drop_next m p (length s) _ at,
          c_string-append s rest valid.no_nul,
        )
        (ground arith)
