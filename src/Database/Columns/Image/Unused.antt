-- ===== src/Database/Columns/Image/Unused.antt =====
-- The loop of `CTable::update_row` over a row of which no column is used.
use mysqlslave.Base.{ℕ, ◌+◌, ◌*◌, ◌<◌, ◌≡◌, refl, sym, ap, ◌∙◌, subst, arith, Option, some}
use mysqlslave.Base.{
  List, [], ◌∷◌, ◌++◌, length, length-append, drop, drop_next, get_elem?, get_elem?-drop,
  get_elem?-append, set, set-append, bit_and, ◌==◌, true, false, ne→==, eq→==, All,
}
use mysqlslave.Base.Bits.{bit_and-zero}
use mysqlslave.Base.Int.{pos}
use mysqlslave.Base.Words.{u64}
use mysqlslave.Memory.{Memory, Headers, little_endian}
use mysqlslave.LogEvent.TableMap.{TableMapEvent}
use mysqlslave.Value.Types.{column_type, calc_metadata_size}
use mysqlslave.Value.{Value, reset}
use mysqlslave.Database.Columns.{Cursor, read_metadata, update_column, update_columns}
use mysqlslave.Database.Columns.Image.{Cell, IsCell, Holds, read_metadata-Holds}
use mysqlslave.Database.Columns.Image.Row.{type_codes, metadata_bytes}
use mathlib.Core.List.{append_assoc}

no_bit : (nonnull b : ℕ) → (bit_and (bit_and 0 nonnull) b == 0) ≡ true
no_bit nonnull b =
    eq→== (bit_and (bit_and 0 nonnull) b) 0
      (bit_and-zero (bit_and 0 nonnull) b (bit_and-zero 0 nonnull refl))

-- The cursor at a column.
abbrev at_column : List Value → ℕ → ℕ → Option ℕ → ℕ → Cursor
at_column values p k q b = record {
  values = values;
  source = p;
  size = pos k;
  pmetadata = q;
  bit = b;
}

module _ ⦃h : Headers⦄ (e : TableMapEvent) (m : Memory) (nonnull p k : ℕ) (some_left : 0 < k) where
  -- A column that is not used: its value is reset, its metadata passed over, and no byte taken.
  update_column-unused :
      (c : Cell) (i b : ℕ) (done olds : List Value) (v : Value) (q : Option ℕ) (codes md : List ℕ)
      → IsCell c
      → i ≡ length done
      → drop (e.column_types + i) e.buffer ≡ c.code ∷ codes
      → Holds e.buffer q (c.metadata ++ md)
      → (q' : Option ℕ) × (update_column e m 0 nonnull i (at_column (done ++ (v ∷ olds)) p k q b)
          ≡ some (at_column (done ++ (reset v ∷ olds)) p k q' (u64 (b * 2))))
        × Holds e.buffer q' md
  unfolding update_column
  update_column-unused c i b done olds v q codes md valid here at_code at_metadata =
      let (q', read, held) =
        read_metadata-Holds c.metadata md e.buffer q valid.metadata_short at_metadata in
      let found : get_elem? (done ++ (v ∷ olds)) i ≡ some v =
        rw here (get_elem?-append done olds v) in
      let cleared : set (done ++ (v ∷ olds)) i (reset v) ≡ done ++ (reset v ∷ olds) =
        rw here (set-append done olds v (reset v)) in
      let left : (k == 0) ≡ false = ne→== k 0 (λ z. absurd (omega arith)) in
      let width : read_metadata (calc_metadata_size (column_type c.code)) e.buffer q
          ≡ some (little_endian c.metadata, q') =
        ap (λ w. read_metadata w e.buffer q) (sym valid.metadata_width) ∙ read in
      (
        q',
        rw
            (
              found,
              cleared,
              left,
              get_elem?-drop e.buffer (e.column_types + i) c.code codes at_code,
              width,
              no_bit nonnull b,
            )
            refl,
        held,
      )

  -- All columns, from column `i` on.
  pub update_columns-unused :
      (cells : List Cell) (i b : ℕ) (done olds : List Value) (q : Option ℕ) (codes md : List ℕ)
      → All IsCell cells
      → length olds ≡ length cells
      → i ≡ length done
      → drop (e.column_types + i) e.buffer ≡ type_codes cells ++ codes
      → Holds e.buffer q (metadata_bytes cells ++ md)
      → (c' : Cursor) × (update_columns
            (length cells)
            e
            m
            0
            nonnull
            i
            (at_column (done ++ olds) p k q b)
          ≡ some c')
        × (length c'.values ≡ length done + length cells)
        × (c'.source ≡ p)
        × (c'.size ≡ pos k)
  unfolding update_columns
  update_columns-unused [] i b done [] q codes md valid same here at_codes at_metadata =
      (_, refl, length-append done [], refl, refl)
  update_columns-unused [] i b done (v ∷ olds) q codes md valid same here at_codes at_metadata =
      absurd (omega arith)
  update_columns-unused (c ∷ cs) i b done [] q codes md valid same here at_codes at_metadata =
      absurd (omega arith)
  update_columns-unused (c ∷ cs) i b done (v ∷ olds) q codes md valid same here at_codes
        at_metadata =
      let (q', step, held) =
        update_column-unused c i b done olds v q (type_codes cs ++ codes) (metadata_bytes cs ++ md)
          valid.0 here at_codes
          (subst (Holds e.buffer q) (append_assoc c.metadata (metadata_bytes cs) md) at_metadata) in
      let one_more = length-append done (reset v ∷ []) in
      let code_next : e.column_types + (i + 1) ≡ e.column_types + i + 1 = omega arith in
      let (c', ran, values, source, size) =
        update_columns-unused cs (i + 1) (u64 (b * 2)) (done ++ (reset v ∷ [])) olds q' codes md
          valid.1 (omega arith) (omega arith)
          (ap (λ t. drop t e.buffer) code_next
            ∙ drop_next e.buffer (e.column_types + i) c.code (type_codes cs ++ codes) at_codes)
          held in
      (c', rw (step, ← (append_assoc done (reset v ∷ []) olds)) ran, omega arith, source, size)
