-- ===== src/Database/Update/Images.antt =====
-- The rows of an event as row images: what one image leaves in the variables of `CTable::update`.
use mysqlslave.Base.{
  ℕ, ◌+◌, ◌-◌, ◌/◌, ◌^◌, ◌≤◌, ◌<◌, ◌≡◌, refl, sym, ap, ◌∙◌, subst, arith, Option, none, some,
}
use mysqlslave.Base.{List, [], ◌∷◌, ◌++◌, length, length-append, drop, drop_past, All, lt→ltb}
use mysqlslave.Base.Bits.{bit}
use mysqlslave.Base.Masks.{bit-all_ones, ones-all_ones, bit-complement, pow-le-bytes}
use mysqlslave.Base.Int.{pos, signed}
use mysqlslave.Base.Words.{not64, sub64}
use mysqlslave.Memory.{Memory, Headers}
use mysqlslave.Memory.Endian.{le_bytes, length-le_bytes}
use mysqlslave.LogEvent.TableMap.{TableMapEvent}
use mysqlslave.LogEvent.Rows.{RowEvent}
use mysqlslave.LogEvent.ColumnMask.{update_n1bits, mask_of, count_of}
use mysqlslave.LogEvent.ColumnMask.Count.{update_n1bits_read}
use mysqlslave.LogEvent.ColumnMask.Widths.{build_column_mask-encoded}
use mysqlslave.Database.Columns.{Cursor, update_columns}
use mysqlslave.Database.Columns.Image.{Cell, IsCell, null_bit, Holds}
use mysqlslave.Database.Columns.Image.Row.{
  row_bytes, null_mask, type_codes, metadata_bytes, row_values, update_columns-row,
}
use mysqlslave.Database.Update.{Progress, update_row, read_image}
use native.Mathlib.Nat.{pow-suc, one-le-pow, pow-le-pow_right}
use mathlib.Core.List.{append_assoc}

-- An image on the wire: the bitmap of nulls, then the cells.
abbrev pub image_bytes : List Cell → List ℕ
image_bytes cells = le_bytes ((length cells + 7) / 8) (null_mask cells) ++ row_bytes cells

-- The cells of a row, for a table map that says so.
pub record IsRow ⦃h : Headers⦄ (e : TableMapEvent) (n : ℕ) (cells : List Cell) : Type 0 where
  pub cells_valid : All IsCell cells
  pub cell_count : length cells ≡ n
  pub codes_at : (codes : List ℕ) × (drop e.column_types e.buffer ≡ type_codes cells ++ codes)
  pub metadata_at : (md : List ℕ) × Holds e.buffer e.metadata (metadata_bytes cells ++ md)

-- The raw mask of the columns used when all `n` are.
abbrev pub all_columns : ℕ → ℕ
all_columns n = update_n1bits (2 ^ n - 1)

null_mask-lt : (cells : List Cell) → null_mask cells < 2 ^ length cells
null_mask-lt [] = omega arith
null_mask-lt (c ∷ cs) = omega (arith, null_bit-le c.content, null_mask-lt cs, pow-suc 2 (length cs))
  where
    null_bit-le : (o : Option (List ℕ)) → null_bit o ≤ 1
    null_bit-le none = omega arith
    null_bit-le (some bs) = omega arith

module _ ⦃h : Headers⦄ (e : TableMapEvent) (r : RowEvent) (m : Memory) (n : ℕ) (few : n ≤ 48)
    (some_columns : 1 ≤ n) (counted : r.ncolumns ≡ n) where
  -- The columns of the mask that `update_n1bits` stored are all there.
  all_columns_read :
      (count_of (all_columns n) ≡ n) × ((i : ℕ) → i < n → bit i (mask_of (all_columns n)) ≡ 1)
  all_columns_read =
      let small : 2 ^ n - 1 < 2 ^ 56 = omega (arith, bound, one-le-pow n 2) in
      let (count, bits) = update_n1bits_read (2 ^ n - 1) small in
      (count ∙ ones-all_ones 64 n (omega arith), λ i lt. bits i (omega arith) ∙ bit-all_ones i n lt)
    where
      bound : 2 ^ n ≤ 2 ^ 48
      bound = pow-le-pow_right (omega arith) few

  null_mask_small : (cells : List Cell) → length cells ≡ n → null_mask cells < 2 ^ n
  null_mask_small cells same = subst (λ k. null_mask cells < 2 ^ k) same (null_mask-lt cells)

  -- The columns that the bitmap of nulls leaves, in `update_row`.
  nonnull_bits :
      (cells : List Cell)
      → length cells ≡ n
      → (j : ℕ) → j < n
      → bit j (not64 (null_mask cells)) ≡ 1 - bit j (null_mask cells)
  nonnull_bits cells same j lt =
      let bound : 2 ^ n ≤ 2 ^ 48 = pow-le-pow_right (omega arith) few in
      let small : null_mask cells < 2 ^ 64 = omega (arith, bound, null_mask_small cells same) in
      ap (λ t. bit j (2 ^ 64 - 1 - t)) {y = null_mask cells} (omega arith)
      ∙ bit-complement j 64 (null_mask cells) (omega arith) small

  -- An image with every column used: its values, and the address behind it.
  pub read_image-row :
      (cells : List Cell) (s : Progress) (rest : List ℕ)
      → IsRow e n cells
      → length s.values ≡ n
      → s.len < 2 ^ 63
      → length (image_bytes cells) ≤ s.len
      → drop s.source m ≡ image_bytes cells ++ rest
      → read_image e r m (all_columns n) s
        ≡ some (record s {
          values = row_values cells s.values (s.source + (n + 7) / 8);
          source = s.source + length (image_bytes cells);
          len = s.len - length (image_bytes cells);
        })
  unfolding read_image update_row
  read_image-row cells s rest row same small fits at =
      let w = (n + 7) / 8 in
      let many : length cells ≡ n = row.cell_count in
      let (codes, at_codes) = row.codes_at in
      let (md, at_metadata) = row.metadata_at in
      let width : (length cells + 7) / 8 ≡ w = ap (λ k. (k + 7) / 8) many in
      let bytes : length (image_bytes cells) ≡ w + length (row_bytes cells) = omega (
        arith,
        length-append (le_bytes ((length cells + 7) / 8) (null_mask cells)) (row_bytes cells),
        length-le_bytes ((length cells + 7) / 8) (null_mask cells),
      ) in
      let at_mask : drop s.source m ≡ le_bytes w (null_mask cells) ++ (row_bytes cells ++ rest) =
        at
        ∙ append_assoc (le_bytes ((length cells + 7) / 8) (null_mask cells)) (row_bytes cells) rest
        ∙ ap (λ k. le_bytes k (null_mask cells) ++ (row_bytes cells ++ rest)) width in
      let (columns, used) = all_columns_read in
      let mask_fits : null_mask cells < 256 ^ w =
        omega (arith, null_mask_small cells many, pow-le-bytes w n (omega arith)) in
      let at_cells : drop (s.source + w) m ≡ row_bytes cells ++ rest =
        ap (λ t. drop (s.source + t) m) (sym (length-le_bytes w (null_mask cells)))
        ∙ drop_past m s.source (le_bytes w (null_mask cells)) (row_bytes cells ++ rest) at_mask in
      let left : sub64 s.len w ≡ s.len - w = omega arith in
      let signed_left : signed 64 (s.len - w) ≡ pos (s.len - w) =
        rw (lt→ltb (s.len - w) (2 ^ 63) (omega arith)) refl in
      let mask =
        build_column_mask-encoded n (null_mask cells) m s.source (some s.len)
          (row_bytes cells ++ rest) some_columns few mask_fits at_mask in
      let (c', ran, values, source, size) =
        update_columns-row cells e m (mask_of (all_columns n)) (not64 (null_mask cells)) 0
          (s.source + w) (s.len - w) [] s.values e.metadata codes md rest row.cells_valid
          (same ∙ sym many) refl (omega arith)
          (λ j lt.
            ap (λ t. bit t (mask_of (all_columns n))) {x = 0 + j} {y = j} (omega arith)
            ∙ used j (omega arith))
          (λ j lt.
            ap (λ t. bit t (not64 (null_mask cells))) {x = 0 + j} {y = j} (omega arith)
            ∙ nonnull_bits cells many j (omega arith))
          (ap (λ t. drop t e.buffer) {y = e.column_types} (omega arith) ∙ at_codes) at_metadata
          at_cells (omega arith) in
      let here = s.source + w in
      let from : Cursor = record {
        values = s.values;
        source = here;
        size = pos (s.len - w);
        pmetadata = e.metadata;
        bit = 1;
      } in
      let ran_n : update_columns n e m (mask_of (all_columns n)) (not64 (null_mask cells)) 0 from
          ≡ some c' =
        ap (λ k. update_columns k e m (mask_of (all_columns n)) (not64 (null_mask cells)) 0 from)
          (sym many)
        ∙ ran in
      let behind_row : here + length (row_bytes cells) ≡ s.source + length (image_bytes cells) =
        omega arith in
      let left_row : s.len - w - length (row_bytes cells) ≡ s.len - length (image_bytes cells) =
        omega arith in
      rw
        (
          columns, mask, left, signed_left, counted, ran_n, values, source, size, behind_row,
          left_row,
        )
        refl
