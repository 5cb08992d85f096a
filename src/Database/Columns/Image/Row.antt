-- ===== src/Database/Columns/Image/Row.antt =====
-- The loop of `CTable::update_row` over a whole row image.
use mysqlslave.Base.{
  ℕ, zero, suc, ◌+◌, ◌-◌, ◌*◌, ◌/◌, ◌^◌, ◌≤◌, ◌<◌, ◌≡◌, refl, ap, ◌∙◌, subst, arith, Option, none,
  some,
}
use mysqlslave.Base.{List, [], ◌∷◌, ◌++◌, length, length-append, drop, drop_next, drop_past, All}
use mysqlslave.Base.Bits.{bit}
use mysqlslave.Base.Int.{pos}
use mysqlslave.Base.Words.{u64}
use mysqlslave.Memory.{Memory, Headers}
use mysqlslave.LogEvent.TableMap.{TableMapEvent}
use mysqlslave.Value.{Value, reset}
use mysqlslave.Database.Columns.{Cursor, update_columns}
use mysqlslave.Database.Columns.Image.{
  Cell, IsCell, content_bytes, cell_value, null_bit, Holds, update_column-cell,
  update_column-nothing_left,
}
use native.Mathlib.Nat.{pow-suc, pow-le-pow_right}
use mathlib.Core.List.{append_assoc}

-- A row: the bytes, the bitmap of nulls, and the part of the table map that describes it.
abbrev pub row_bytes : List Cell → List ℕ
row_bytes [] = []
row_bytes (c ∷ cs) = content_bytes c.content ++ row_bytes cs

abbrev pub null_mask : List Cell → ℕ
null_mask [] = 0
null_mask (c ∷ cs) = null_bit c.content + 2 * null_mask cs

abbrev pub type_codes : List Cell → List ℕ
type_codes [] = []
type_codes (c ∷ cs) = c.code ∷ type_codes cs

abbrev pub metadata_bytes : List Cell → List ℕ
metadata_bytes [] = []
metadata_bytes (c ∷ cs) = c.metadata ++ metadata_bytes cs

-- The values of a row that stands at `p`, in the place of the values before.
abbrev pub row_values : List Cell → List Value → ℕ → List Value
row_values [] vs p = vs
row_values (c ∷ cs) [] p = []
row_values (c ∷ cs) (v ∷ vs) p =
    cell_value c v p ∷ row_values cs vs (p + length (content_bytes c.content))

null_mask_rest : (c : Cell) (cs : List Cell) → null_mask (c ∷ cs) / 2 ≡ null_mask cs
null_mask_rest c cs = bound c.content
  where
    bound : (o : Option (List ℕ)) → (null_bit o + 2 * null_mask cs) / 2 ≡ null_mask cs
    bound none = omega arith
    bound (some bs) = omega arith

null_mask_first : (c : Cell) (cs : List Cell) → bit 0 (null_mask (c ∷ cs)) ≡ null_bit c.content
null_mask_first c cs = bound c.content
  where
    bound : (o : Option (List ℕ)) → bit 0 (null_bit o + 2 * null_mask cs) ≡ null_bit o
    bound none = omega arith
    bound (some bs) = omega arith

-- The bit of the next column, in a uint64_t.
next_bit : (i : ℕ) → i ≤ 62 → u64 (2 ^ i * 2) ≡ 2 ^ (i + 1)
next_bit i few =
    let bound : 2 ^ i ≤ 2 ^ 62 = pow-le-pow_right (omega arith) few in
    let twice : u64 (2 ^ i * 2) ≡ 2 ^ suc i = omega (arith, pow-suc 2 i) in
    twice ∙ ap (λ t. 2 ^ t) {x = suc i} (omega arith)

module _ ⦃h : Headers⦄ where
  -- A cell with no byte is NULL.
  no_bytes :
      (c : Cell) (v : Value) (p : ℕ) (o : Option (List ℕ))
      → c.content ≡ o
      → IsCell c
      → length (content_bytes o) ≡ 0
      → cell_value c v p ≡ reset v
  no_bytes c v p none is valid empty = rw is
  no_bytes c v p (some bs) is valid empty = absurd (omega (arith, valid.some_bytes bs is))

  -- When no byte is left, what follows is NULL.
  update_columns-nothing_left :
      (cells : List Cell) (e : TableMapEvent) (m : Memory) (used nonnull i p : ℕ)
      → (done olds : List Value) (q : Option ℕ) (b : ℕ) → All IsCell cells
      → length olds ≡ length cells
      → i ≡ length done
      → length (row_bytes cells) ≡ 0
      → update_columns
          (length cells)
          e
          m
          used
          nonnull
          i
          (record { values = done ++ olds; source = p; size = pos 0; pmetadata = q; bit = b })
        ≡ some (record {
          values = done ++ row_values cells olds p;
          source = p;
          size = pos 0;
          pmetadata = q;
          bit = b;
        })
  unfolding update_columns
  update_columns-nothing_left [] e m used nonnull i p done olds q b valid same here empty = refl
  update_columns-nothing_left (c ∷ cs) e m used nonnull i p done [] q b valid same here empty =
      absurd (omega arith)
  update_columns-nothing_left (c ∷ cs) e m used nonnull i p done (v ∷ olds) q b valid same here
        empty =
      let parts = length-append (content_bytes c.content) (row_bytes cs) in
      let none_here : length (content_bytes c.content) ≡ 0 = omega arith in
      let stays : p + length (content_bytes c.content) ≡ p = omega arith in
      let next : i + 1 ≡ length (done ++ (reset v ∷ [])) =
        omega (arith, length-append done (reset v ∷ [])) in
      rw
        (
          update_column-nothing_left e m used nonnull i p done olds v q b here,
          stays,
          no_bytes c v p c.content refl valid.0 none_here,
          ← (append_assoc done (reset v ∷ []) olds),
          ← (append_assoc done (reset v ∷ []) (row_values cs olds p)),
        )
        (update_columns-nothing_left cs e m used nonnull (i + 1) p (done ++ (reset v ∷ [])) olds q b
          valid.1 (omega arith) next (omega arith))

  -- The loop over a row of cells that all are used, from column `i` on, with `k` bytes left: the
  -- values of the cells, the address behind the row, and the bytes behind it.
  pub update_columns-row :
      (cells : List Cell) (e : TableMapEvent) (m : Memory) (used nonnull i p k : ℕ)
      → (done olds : List Value) (q : Option ℕ) (codes md rest : List ℕ) → All IsCell cells
      → length olds ≡ length cells
      → i ≡ length done
      → i + length cells ≤ 63
      → ((j : ℕ) → j < length cells → bit (i + j) used ≡ 1)
      → ((j : ℕ) → j < length cells → bit (i + j) nonnull ≡ 1 - bit j (null_mask cells))
      → drop (e.column_types + i) e.buffer ≡ type_codes cells ++ codes
      → Holds e.buffer q (metadata_bytes cells ++ md)
      → drop p m ≡ row_bytes cells ++ rest
      → length (row_bytes cells) ≤ k
      → (c' : Cursor) × (update_columns
            (length cells)
            e
            m
            used
            nonnull
            i
            (record { values = done ++ olds; source = p; size = pos k; pmetadata = q; bit = 2 ^ i })
          ≡ some c')
        × (c'.values ≡ done ++ row_values cells olds p)
        × (c'.source ≡ p + length (row_bytes cells))
        × (c'.size ≡ pos (k - length (row_bytes cells)))
  unfolding update_columns
  update_columns-row [] e m used nonnull i p k done olds q codes md rest valid same here few is_used
        is_null at_codes at_metadata at fits =
      (_, refl, refl, omega arith, ap pos (omega arith))
  update_columns-row (c ∷ cs) e m used nonnull i p k done [] q codes md rest valid same here few
        is_used is_null at_codes at_metadata at fits =
      absurd (omega arith)
  update_columns-row (c ∷ cs) e m used nonnull i p zero done (v ∷ olds) q codes md rest valid same
        here few is_used is_null at_codes at_metadata at fits =
      (
        _,
        update_columns-nothing_left (c ∷ cs) e m used nonnull i p done (v ∷ olds) q (2 ^ i) valid
            same here (omega arith),
        refl,
        omega arith,
        ap pos (omega arith),
      )
  update_columns-row (c ∷ cs) e m used nonnull i p (suc k) done (v ∷ olds) q codes md rest valid
        same here few is_used is_null at_codes at_metadata at fits =
      let bs = content_bytes c.content in
      let cv = cell_value c v p in
      let parts = length-append bs (row_bytes cs) in
      let (q', step, held) =
        update_column-cell c e m used nonnull i p (suc k) done olds v q (type_codes cs ++ codes)
          (metadata_bytes cs ++ md) (row_bytes cs ++ rest) valid.0 here (omega arith) (omega arith)
          (ap (λ j. bit j used) first ∙ is_used 0 (omega arith))
          (ap (λ j. bit j nonnull) first
            ∙ is_null 0 (omega arith)
            ∙ ap (λ (t : ℕ). 1 - t) (null_mask_first c cs))
          at_codes
          (subst (Holds e.buffer q) (append_assoc c.metadata (metadata_bytes cs) md) at_metadata)
          (at ∙ append_assoc bs (row_bytes cs) rest) in
      let next : i + 1 ≡ length (done ++ (cv ∷ [])) = omega (arith, length-append done (cv ∷ [])) in
      let (c', ran, values, source, size) =
        update_columns-row cs e m used nonnull (i + 1) (p + length bs) (suc k - length bs)
          (done ++ (cv ∷ [])) olds q' codes md rest valid.1 (omega arith) next (omega arith)
          (λ j lt. ap (λ t. bit t used) (later j) ∙ is_used (suc j) (omega arith))
          (λ j lt.
            ap (λ t. bit t nonnull) (later j)
            ∙ is_null (suc j) (omega arith)
            ∙ ap (λ t. 1 - bit j t) (null_mask_rest c cs))
          (ap (λ t. drop t e.buffer) code_next
            ∙ drop_next e.buffer (e.column_types + i) c.code (type_codes cs ++ codes) at_codes)
          held (drop_past m p bs (row_bytes cs ++ rest) (at ∙ append_assoc bs (row_bytes cs) rest))
          (omega arith) in
      (
        c',
        rw (step, next_bit i (omega arith), ← (append_assoc done (cv ∷ []) olds)) ran,
        values ∙ append_assoc done (cv ∷ []) (row_values cs olds (p + length bs)),
        omega arith,
        size ∙ ap pos (omega arith),
      )
    where
      first : i ≡ i + 0
      first = omega arith

      later : (j : ℕ) → i + 1 + j ≡ i + suc j
      later j = omega arith

      code_next : e.column_types + (i + 1) ≡ e.column_types + i + 1
      code_next = omega arith
