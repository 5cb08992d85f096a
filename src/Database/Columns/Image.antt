-- ===== src/Database/Columns/Image.antt =====
-- A row image as a list of cells, and what one round of the loop of `CTable::update_row` does to
-- it.
pub mod Cells
pub mod Row
pub mod Unused
use mysqlslave.Base.{
  ℕ, zero, suc, ◌+◌, ◌-◌, ◌*◌, ◌^◌, ◌≤◌, ◌<◌, ◌≡◌, ◌≢◌, refl, sym, ap, ◌∙◌, subst, arith, Option,
  none, some, ◌>>=◌,
}
use mysqlslave.Base.{
  List, [], ◌∷◌, ◌++◌, length, drop, set, get_elem?, get_elem?-drop, get_elem?-append, set-append,
  drop_next, drop_past, bit_and, min, ◌==◌, not, true, false, Bool, if◌then◌else◌, ne→==, eq→==,
  le→leb,
}
use mysqlslave.Base.Bits.{bit, bit_and_pow, bit-bit_and, bit-le}
use mysqlslave.Base.Int.{ℤ, pos, pos_part, sub_ℕ}
use mysqlslave.Base.Words.{u64}
use mysqlslave.Memory.{Memory, Headers, load, load_bytes, little_endian, take_exact}
use mysqlslave.LogEvent.TableMap.{TableMapEvent}
use mysqlslave.Value.Types.{ColumnType, column_type, calc_metadata_size}
use mysqlslave.Value.FieldSize.{calc_field_size, native_uint}
use mysqlslave.Value.{Value, reset, tune}
use mysqlslave.Database.Columns.{Cursor, read_metadata, take_value, update_column}
use native.Mathlib.Nat.{one-le-pow, pow-suc}

-- A column of a row: the code of its type and its metadata in the table map, and its bytes in the
-- row, or none for NULL. `value` is what `tune` makes of a value for bytes at an address.
pub record Cell : Type 0 where
  pub code : ℕ
  pub metadata : List ℕ
  pub content : Option (List ℕ)
  pub value : Value → ℕ → Value

abbrev pub content_bytes : Option (List ℕ) → List ℕ
content_bytes none = []
content_bytes (some bs) = bs

-- The value that a cell at the address `p` leaves where the value `v` was.
abbrev pub cell_value : Cell → Value → ℕ → Value
cell_value c v p = elim c.content [ none ↦ reset v | some _ ↦ c.value (reset v) p ]

-- The type of the cell takes as many bytes as it has, whatever stands behind them.
pub record IsCell ⦃h : Headers⦄ (c : Cell) : Type 0 where
  pub metadata_width : length c.metadata ≡ calc_metadata_size (column_type c.code)
  pub metadata_short : length c.metadata ≤ 2
  pub some_bytes : (bs : List ℕ) → c.content ≡ some bs → 0 < length bs
  pub sized :
      (bs : List ℕ)
      → c.content ≡ some bs
      → (v : Value) (m : Memory) (p : ℕ) (rest : List ℕ) → drop p m ≡ bs ++ rest
      → (calc_field_size (column_type c.code) m p (little_endian c.metadata) ≡ some (length bs))
        × (tune v (column_type c.code) m p (little_endian c.metadata) (length bs)
            ≡ some (c.value v p))

-- What stands at a pointer that is null if there is nothing.
abbrev pub Holds : Memory → Option ℕ → List ℕ → Type 0
Holds m none bs = bs ≡ []
Holds m (some p) bs = (rest : List ℕ) × (drop p m ≡ bs ++ rest)

pub read_metadata-Holds :
    (md rest : List ℕ) (m : Memory) (q : Option ℕ)
    → length md ≤ 2
    → Holds m q (md ++ rest)
    → (q' : Option ℕ) × (read_metadata (length md) m q ≡ some (little_endian md, q'))
      × Holds m q' rest
unfolding read_metadata native_uint take_exact
read_metadata-Holds [] rest m q short held = (q, refl, held)
read_metadata-Holds (a ∷ []) rest m (some p) short (tail, at) =
    (some (p + 1), rw at, (tail, drop_next m p a (rest ++ tail) at))
read_metadata-Holds (a ∷ b ∷ []) rest m (some p) short (tail, at) =
    (some (p + 2), rw at, (tail, drop_past m p (a ∷ b ∷ []) (rest ++ tail) at))
read_metadata-Holds (a ∷ []) rest m none short held = cc
read_metadata-Holds (a ∷ b ∷ []) rest m none short held = cc
read_metadata-Holds (a ∷ b ∷ c ∷ md) rest m q short held = absurd (omega arith)

-- The test of the loop: the bit of column `i` in both masks.
present-lem :
    (i used nonnull : ℕ)
    → not (bit_and (bit_and used nonnull) (2 ^ i) == 0)
      ≡ not (min (bit i used) (bit i nonnull) == 0)
present-lem i used nonnull = ground (
  arith,
  bit_and_pow i (bit_and used nonnull),
  bit-bit_and i used nonnull,
  bit-le i used,
  bit-le i nonnull,
  one-le-pow i 2,
)

-- The cursor at column `i`, and the one behind it.
abbrev pub before : List Value → Value → List Value → ℕ → ℕ → Option ℕ → ℕ → Cursor
before done v olds p k q i = record {
  values = done ++ (v ∷ olds);
  source = p;
  size = pos k;
  pmetadata = q;
  bit = 2 ^ i;
}

abbrev pub behind : Cell → List Value → Value → List Value → ℕ → ℕ → Option ℕ → ℕ → Cursor
behind c done v olds p k q i = record {
  values = done ++ (cell_value c v p ∷ olds);
  source = p + length (content_bytes c.content);
  size = pos (k - length (content_bytes c.content));
  pmetadata = q;
  bit = u64 (2 ^ i * 2);
}

abbrev pub null_bit : Option (List ℕ) → ℕ
null_bit none = 1
null_bit (some _) = 0

module _ ⦃h : Headers⦄ where
  -- A column of which no byte is left: its value is reset, and nothing moves.
  pub update_column-nothing_left :
      (e : TableMapEvent) (m : Memory) (used nonnull i p : ℕ) (done olds : List Value) (v : Value)
      → (q : Option ℕ) (b : ℕ) → i ≡ length done
      → update_column e m used nonnull i
          (record { values = done ++ (v ∷ olds); source = p; size = pos 0; pmetadata = q; bit = b })
        ≡ some (record {
          values = done ++ (reset v ∷ olds);
          source = p;
          size = pos 0;
          pmetadata = q;
          bit = b;
        })
  unfolding update_column
  update_column-nothing_left e m used nonnull i p done olds v q b here =
      rw (here, get_elem?-append done olds v, set-append done olds v (reset v))

  take_cell :
      (c : Cell) (m : Memory) (i p k : ℕ) (done olds : List Value) (v : Value) (q : Option ℕ)
      → (rest : List ℕ) (o : Option (List ℕ)) → c.content ≡ o
      → IsCell c
      → i ≡ length done
      → length (content_bytes o) ≤ k
      → drop p m ≡ content_bytes o ++ rest
      → ((if not (min 1 (1 - null_bit o) == 0)
            then take_value
                (column_type c.code)
                (little_endian c.metadata)
                m
                i
                (reset v)
                (before done (reset v) olds p k q i)
            else some (before done (reset v) olds p k q i))
          >>= λ c'. some (record c' { bit = u64 (2 ^ i * 2) }))
        ≡ some (record {
          values = done ++ (elim o [ none ↦ reset v | some _ ↦ c.value (reset v) p ] ∷ olds);
          source = p + length (content_bytes o);
          size = pos (k - length (content_bytes o));
          pmetadata = q;
          bit = u64 (2 ^ i * 2);
        })
  unfolding take_value
  take_cell c m i p k done olds v q rest none is valid here fits at = ground arith
  take_cell c m i p k done olds v q rest (some bs) is valid here fits at =
      let (size, tuned) = valid.sized bs is (reset v) m p rest at in
      rw
        (
          size,
          tuned,
          here,
          set-append done olds (reset v) (c.value (reset v) p),
          le→leb (length bs) k fits,
        )
        refl

  -- A column that is used, with bytes left: the value of its cell, and the address behind it.
  pub update_column-cell :
      (c : Cell) (e : TableMapEvent) (m : Memory) (used nonnull i p k : ℕ)
      → (done olds : List Value) (v : Value) (q : Option ℕ) (codes md rest : List ℕ) → IsCell c
      → i ≡ length done
      → 0 < k
      → length (content_bytes c.content) ≤ k
      → bit i used ≡ 1
      → bit i nonnull ≡ 1 - null_bit c.content
      → drop (e.column_types + i) e.buffer ≡ c.code ∷ codes
      → Holds e.buffer q (c.metadata ++ md)
      → drop p m ≡ content_bytes c.content ++ rest
      → (q' : Option ℕ) × (update_column e m used nonnull i (before done v olds p k q i)
          ≡ some (behind c done v olds p k q' i))
        × Holds e.buffer q' md
  unfolding update_column
  update_column-cell c e m used nonnull i p k done olds v q codes md rest valid here some_left fits
        is_used is_null at_code at_metadata at =
      let (q', read, held) =
        read_metadata-Holds c.metadata md e.buffer q valid.metadata_short at_metadata in
      let found : get_elem? (done ++ (v ∷ olds)) i ≡ some v =
        rw here (get_elem?-append done olds v) in
      let cleared : set (done ++ (v ∷ olds)) i (reset v) ≡ done ++ (reset v ∷ olds) =
        rw here (set-append done olds v (reset v)) in
      let left : (k == 0) ≡ false = ne→== k 0 (λ z. absurd (omega arith)) in
      let width : read_metadata (calc_metadata_size (column_type c.code)) e.buffer q
          ≡ some (little_endian c.metadata, q') =
        ap (λ w. read_metadata w e.buffer q) (sym valid.metadata_width) ∙ read in
      (
        q',
        rw
            (
              found,
              cleared,
              left,
              get_elem?-drop e.buffer (e.column_types + i) c.code codes at_code,
              width,
              present-lem i used nonnull,
              is_used,
              is_null,
            )
            (take_cell c m i p k done olds v q' rest c.content refl valid here fits at),
        held,
      )
