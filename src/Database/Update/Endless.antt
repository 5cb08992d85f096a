-- ===== src/Database/Update/Endless.antt =====
-- When the loop of `CTable::update` does not end: rows of which no column is used.
use mysqlslave.Base.{
  ℕ, zero, suc, ◌^◌, ◌<◌, ◌≡◌, refl, sym, ap, ◌∙◌, arith, some, none, ◌==◌, true, false, Bool-cases,
  inl, inr, ne→==, eq→==, lt→ltb, ◌++◌, [], ◌∷◌, List, length, drop,
}
use mysqlslave.Base.Int.{pos, signed}
use mysqlslave.Base.Words.{not64}
use mysqlslave.Memory.{Memory, Headers}
use mysqlslave.LogEvent.TableMap.{TableMapEvent}
use mysqlslave.LogEvent.Rows.{RowEvent, is_update}
use mysqlslave.LogEvent.ColumnMask.{
  build_column_mask, mask_of_width, mask_bytes, mask_of, wrong_mask,
}
use mysqlslave.Database.{Table}
use mysqlslave.Database.Columns.{Cursor, update_columns}
use mysqlslave.Database.Columns.Image.{Cell}
use mysqlslave.Database.Columns.Image.Unused.{update_columns-unused}
use mysqlslave.Database.Update.{
  Progress, start_of, stuck, update_row, read_image, read_second, read_rows_step, read_rows,
  table_update,
}
use mysqlslave.Database.Update.Images.{IsRow}

module _ ⦃h : Headers⦄ (e : TableMapEvent) (r : RowEvent) (m : Memory) (cells : List Cell)
    (row : IsRow e r.ncolumns cells) where
  -- The variables with bytes left and a value for each column.
  abbrev Goes : Progress → Type 0
  Goes s = (0 < s.len) × (s.len < 2 ^ 63) × (length s.values ≡ r.ncolumns)

  -- An image: the switch of `build_column_mask` takes its default, and no column takes a byte.
  read_image-unused :
      (raw : ℕ) (s : Progress)
      → raw ≡ 0
      → Goes s
      → (s' : Progress) × (read_image e r m raw s ≡ some s') × Goes s'
  unfolding read_image update_row build_column_mask mask_of_width mask_bytes mask_of
  read_image-unused raw s unused (some_left, small, same) =
      let many = row.cell_count in
      let (codes, at_codes) = row.codes_at in
      let (md, at_metadata) = row.metadata_at in
      let whole : signed 64 s.len ≡ pos s.len = rw (lt→ltb s.len (2 ^ 63) small) refl in
      let (c', ran, values, source, size) =
        update_columns-unused e m (not64 wrong_mask) s.source s.len some_left cells 0 1 [] s.values
          e.metadata codes md row.cells_valid (same ∙ sym many) refl
          (ap (λ t. drop t e.buffer) {y = e.column_types} (omega arith) ∙ at_codes) at_metadata in
      let from : Cursor = record {
        values = s.values;
        source = s.source;
        size = pos s.len;
        pmetadata = e.metadata;
        bit = 1;
      } in
      let ran_all : update_columns r.ncolumns e m 0 (not64 wrong_mask) 0 from ≡ some c' =
        ap (λ k. update_columns k e m 0 (not64 wrong_mask) 0 from) (sym many) ∙ ran in
      (
        record s { values = c'.values; source = s.source; len = s.len },
        rw (unused, whole, ran_all, source, size) refl,
        (some_left, small, omega arith),
      )

  -- The rest of a round, with the same bytes left behind it.
  read_second-unused :
      (s : Progress)
      → r.used_columns_afterimage ≡ 0
      → Goes s
      → (s' : Progress) × (read_second e r m s ≡ some s') × Goes s'
  unfolding read_second
  read_second-unused s none_after goes = elim (Bool-cases (is_update r.event_type)) [
    | inl twice ↦
        let (s₁, image, goes₁) = read_image-unused r.used_columns_afterimage s none_after goes in
        (record s₁ { new_rows = s₁.new_rows ++ (s₁.values ∷ []) }, rw (twice, image) refl, goes₁)
    | inr once ↦ (s, rw once refl, goes)
  ]

  read_rows_step-unused :
      (s : Progress)
      → r.used_columns ≡ 0
      → r.used_columns_afterimage ≡ 0
      → Goes s
      → (s' : Progress) × (read_rows_step e r m s ≡ some s') × Goes s'
  unfolding read_rows_step
  read_rows_step-unused s none_used none_after goes =
      let (s₁, image, goes₁) = read_image-unused r.used_columns s none_used goes in
      let left : (s₁.len == 0) ≡ false = ne→== s₁.len 0 (λ z. absurd (omega arith)) in
      let (s', second, goes') =
        read_second-unused (record s₁ { rows = s₁.rows ++ (s₁.values ∷ []) }) none_after goes₁ in
      (s', rw (image, left) second, goes')

  -- Any fuel runs out.
  pub read_rows-unused :
      (fuel : ℕ) (s : Progress)
      → r.used_columns ≡ 0
      → r.used_columns_afterimage ≡ 0
      → 0 < s.len
      → s.len < 2 ^ 63
      → length s.values ≡ r.ncolumns
      → read_rows fuel e r m s ≡ some stuck
  unfolding read_rows
  read_rows-unused zero s none_used none_after some_left small same =
      let left : (s.len == 0) ≡ false = ne→== s.len 0 (λ z. absurd (omega arith)) in rw left refl
  read_rows-unused (suc fuel) s none_used none_after some_left small same =
      let left : (s.len == 0) ≡ false = ne→== s.len 0 (λ z. absurd (omega arith)) in
      let (s', step, goes) =
        read_rows_step-unused s none_used none_after (some_left, small, same) in
      rw (left, step) (read_rows-unused fuel s' none_used none_after goes.0 goes.1 goes.2)

module _ ⦃h : Headers⦄ where
  -- For a valid event of the table's id, with no column used in either image and a byte to read (but
  -- fewer than 2 ^ 63), of a table whose map describes as many columns as the event has, with a
  -- value for each: whatever the bytes are, every round of the loop of `update` is made, reads
  -- nothing outside the packet, and is followed by another, so that any fuel runs out.
  pub table_update-goes_on :
      (fuel : ℕ) (t : Table) (r : RowEvent) (m : Memory) (cells : List Cell)
      → r.valid ≡ true
      → t.event.table_id ≡ r.table_id
      → IsRow t.event r.ncolumns cells
      → length t.row.values ≡ r.ncolumns
      → 0 < r.rows_len
      → r.rows_len < 2 ^ 63
      → r.used_columns ≡ 0
      → r.used_columns_afterimage ≡ 0
      → table_update fuel t r m ≡ some none
  unfolding table_update
  table_update-goes_on fuel t r m cells valid ids row same left small none_used none_after =
      let run =
        read_rows-unused t.event r m cells row fuel (start_of t r) none_used none_after left small
          same in
      rw (run, valid, eq→== t.event.table_id r.table_id ids) refl
