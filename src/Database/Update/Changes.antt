-- ===== src/Database/Update/Changes.antt =====
-- The rows of an event as a list of changes: what `CTable::update` makes of it.
use mysqlslave.Base.{ℕ, suc, ◌+◌, ◌-◌, ◌/◌, ◌^◌, ◌≤◌, ◌<◌, ◌≡◌, refl, sym, ap, ◌∙◌, arith, some}
use mysqlslave.Base.{
  List, [], ◌∷◌, ◌++◌, length, length-append, drop, drop_past, true, false, ◌==◌, ne→==,
}
use mysqlslave.Memory.{Memory, Headers}
use mysqlslave.Memory.Endian.{le_bytes, length-le_bytes}
use mysqlslave.LogEvent.TableMap.{TableMapEvent}
use mysqlslave.LogEvent.Rows.{RowEvent, is_update}
use mysqlslave.Value.{Value}
use mysqlslave.Database.Columns.Image.{Cell, content_bytes}
use mysqlslave.Database.Columns.Image.Row.{row_bytes, null_mask, row_values}
use mysqlslave.Database.Update.{Progress, read_image, read_rows_step, read_second}
use mysqlslave.Database.Update.Images.{image_bytes, IsRow, all_columns, read_image-row}
use mathlib.Core.List.{append_assoc}

-- A row that was written or deleted, or the row before and after an update.
pub data Change : Type 0 where
  written : List Cell → Change
  updated : List Cell → List Cell → Change

abbrev pub change_bytes : Change → List ℕ
change_bytes (written cells) = image_bytes cells
change_bytes (updated old new) = image_bytes old ++ image_bytes new

abbrev pub changes_bytes : List Change → List ℕ
changes_bytes [] = []
changes_bytes (c ∷ cs) = change_bytes c ++ changes_bytes cs

-- The values of an image that stands at `p`, with its bitmap of nulls.
abbrev pub image_values : List Cell → List Value → ℕ → List Value
image_values cells vs p = row_values cells vs (p + (length cells + 7) / 8)

-- The values that a change at `p` leaves in the row of the table.
abbrev pub last_values : Change → List Value → ℕ → List Value
last_values (written cells) vs p = image_values cells vs p
last_values (updated old new) vs p =
    image_values new (image_values old vs p) (p + length (image_bytes old))

-- What a list of changes at `p` puts into the two lists of rows, and leaves in the row.
abbrev pub old_rows : List Change → List Value → ℕ → List (List Value)
old_rows [] vs p = []
old_rows (written cells ∷ cs) vs p =
    image_values cells vs p ∷ old_rows cs (image_values cells vs p) (p + length (image_bytes cells))
old_rows (updated old new ∷ cs) vs p =
    image_values old vs p
    ∷ old_rows cs (last_values (updated old new) vs p) (p + length (change_bytes (updated old new)))

abbrev pub new_rows_of : List Change → List Value → ℕ → List (List Value)
new_rows_of [] vs p = []
new_rows_of (written cells ∷ cs) vs p =
    new_rows_of cs (image_values cells vs p) (p + length (image_bytes cells))
new_rows_of (updated old new ∷ cs) vs p =
    last_values (updated old new) vs p
    ∷ new_rows_of cs (last_values (updated old new) vs p)
        (p + length (change_bytes (updated old new)))

abbrev pub final_values : List Change → List Value → ℕ → List Value
final_values [] vs p = vs
final_values (c ∷ cs) vs p = final_values cs (last_values c vs p) (p + length (change_bytes c))

-- The changes that fit the table map and the kind of the event.
abbrev pub IsChange : ⦃h : Headers⦄ → TableMapEvent → RowEvent → ℕ → Change → Type 0
IsChange e r n (written cells) = (is_update r.event_type ≡ false) × IsRow e n cells
IsChange e r n (updated old new) =
    (is_update r.event_type ≡ true)
    × (r.used_columns_afterimage ≡ all_columns n)
    × IsRow e n old
    × IsRow e n new

-- The variables of the loop behind a change.
abbrev pub after_change : Change → Progress → Progress
after_change (written cells) s = record {
  values = image_values cells s.values s.source;
  source = s.source + length (image_bytes cells);
  len = s.len - length (image_bytes cells);
  rows = s.rows ++ (image_values cells s.values s.source ∷ []);
  new_rows = s.new_rows;
}
after_change (updated old new) s = record {
  values = last_values (updated old new) s.values s.source;
  source = s.source + length (image_bytes old ++ image_bytes new);
  len = s.len - length (image_bytes old ++ image_bytes new);
  rows = s.rows ++ (image_values old s.values s.source ∷ []);
  new_rows = s.new_rows ++ (last_values (updated old new) s.values s.source ∷ []);
}

length-row_values :
    (cells : List Cell) (vs : List Value) (p : ℕ)
    → length vs ≡ length cells
    → length (row_values cells vs p) ≡ length cells
length-row_values [] vs p same = same
length-row_values (c ∷ cs) [] p same = absurd (omega arith)
length-row_values (c ∷ cs) (v ∷ vs) p same =
    ap suc (length-row_values cs vs (p + length (content_bytes c.content)) (omega arith))

length-image_bytes : (cells : List Cell) → 1 ≤ length cells → 0 < length (image_bytes cells)
length-image_bytes cells some_cells = omega (
  arith,
  length-append (le_bytes ((length cells + 7) / 8) (null_mask cells)) (row_bytes cells),
  length-le_bytes ((length cells + 7) / 8) (null_mask cells),
)

module _ ⦃h : Headers⦄ (e : TableMapEvent) (r : RowEvent) (m : Memory) (n : ℕ) (few : n ≤ 48)
    (some_columns : 1 ≤ n) (counted : r.ncolumns ≡ n) (used : r.used_columns ≡ all_columns n) where
  pub length-last_values :
      (c : Change) (vs : List Value) (p : ℕ)
      → IsChange e r n c
      → length vs ≡ n
      → length (last_values c vs p) ≡ n
  length-last_values (written cells) vs p (_, row) same =
      length-row_values cells vs (p + (length cells + 7) / 8) (same ∙ sym row.cell_count)
      ∙ row.cell_count
  length-last_values (updated old new) vs p (_, _, row_o, row_n) same =
      let mid : length (image_values old vs p) ≡ n =
        length-row_values old vs (p + (length old + 7) / 8) (same ∙ sym row_o.cell_count)
        ∙ row_o.cell_count in
      length-row_values new (image_values old vs p)
        (p + length (image_bytes old) + (length new + 7) / 8) (mid ∙ sym row_n.cell_count)
      ∙ row_n.cell_count

  -- An image, with the values as this module writes them.
  read_image-values :
      (raw : ℕ) (cells : List Cell) (s : Progress) (rest : List ℕ)
      → raw ≡ all_columns n
      → IsRow e n cells
      → length s.values ≡ n
      → s.len < 2 ^ 63
      → length (image_bytes cells) ≤ s.len
      → drop s.source m ≡ image_bytes cells ++ rest
      → read_image e r m raw s
        ≡ some (record s {
          values = image_values cells s.values s.source;
          source = s.source + length (image_bytes cells);
          len = s.len - length (image_bytes cells);
        })
  read_image-values raw cells s rest all row same small fits at =
      ap (λ k. read_image e r m k s) all
      ∙ read_image-row e r m n few some_columns counted cells s rest row same small fits at
      ∙ ap
          (λ k. some (record s {
            values = row_values cells s.values (s.source + (k + 7) / 8);
            source = s.source + length (image_bytes cells);
            len = s.len - length (image_bytes cells);
          }))
          (sym row.cell_count)

  -- One round of the loop reads one change.
  pub read_rows_step-change :
      (c : Change) (s : Progress) (rest : List ℕ)
      → IsChange e r n c
      → length s.values ≡ n
      → s.len < 2 ^ 63
      → length (change_bytes c) ≤ s.len
      → drop s.source m ≡ change_bytes c ++ rest
      → read_rows_step e r m s ≡ some (after_change c s)
  unfolding read_rows_step read_second
  read_rows_step-change (written cells) s rest (plain, row) same small fits at =
      rw (read_image-values r.used_columns cells s rest used row same small fits at) (ground arith)
  read_rows_step-change (updated old new) s rest (pairs, after, row_o, row_n) same small fits at =
      let both = length-append (image_bytes old) (image_bytes new) in
      let new_here : 0 < length (image_bytes new) =
        length-image_bytes new (omega (arith, row_n.cell_count)) in
      let s₁ : Progress = record s {
        values = image_values old s.values s.source;
        source = s.source + length (image_bytes old);
        len = s.len - length (image_bytes old);
        rows = s.rows ++ (image_values old s.values s.source ∷ []);
      } in
      let at_old = at ∙ append_assoc (image_bytes old) (image_bytes new) rest in
      let first =
        read_image-values r.used_columns old s (image_bytes new ++ rest) used row_o same small
          (omega arith) at_old in
      let second =
        read_image-values r.used_columns_afterimage new s₁ rest after row_n
          (length-row_values old s.values (s.source + (length old + 7) / 8)
              (same ∙ sym row_o.cell_count)
            ∙ row_o.cell_count)
          (omega arith) (omega arith)
          (drop_past m s.source (image_bytes old) (image_bytes new ++ rest) at_old) in
      let left : (s.len - length (image_bytes old) == 0) ≡ false = ne→== _ 0 (λ z. omega arith) in
      let behind : s.source + length (image_bytes old) + length (image_bytes new)
          ≡ s.source + length (image_bytes old ++ image_bytes new) =
        omega arith in
      let fewer : s.len - length (image_bytes old) - length (image_bytes new)
          ≡ s.len - length (image_bytes old ++ image_bytes new) =
        omega arith in
      rw (first, left, pairs, second, behind, fewer) refl

  -- A change takes at least a byte.
  pub length-change_bytes : (c : Change) → IsChange e r n c → 0 < length (change_bytes c)
  length-change_bytes (written cells) (_, row) =
      length-image_bytes cells (omega (arith, row.cell_count))
  length-change_bytes (updated old new) (_, _, row, _) = omega (
    arith,
    length-image_bytes old (omega (arith, row.cell_count)),
    length-append (image_bytes old) (image_bytes new),
  )
