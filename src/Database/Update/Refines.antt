-- ===== src/Database/Update/Refines.antt =====
-- `CTable::update` against the changes of an event.
use mysqlslave.Base.{ℕ, zero, suc, ◌+◌, ◌-◌, ◌^◌, ◌≤◌, ◌<◌, ◌≡◌, refl, ap, ◌∙◌, arith, Option, some}
use mysqlslave.Base.{
  if◌then◌else◌, List, [], ◌∷◌, ◌++◌, length, length-append, drop, drop_past, All, true, false,
  ◌==◌, eq→==, ne→==,
}
use mysqlslave.Memory.{Memory, Headers}
use mysqlslave.LogEvent.{success}
use mysqlslave.LogEvent.TableMap.{TableMapEvent}
use mysqlslave.LogEvent.Rows.{RowEvent}
use mysqlslave.Database.{Table}
use mysqlslave.Database.Update.{Progress, End, finished, read_rows, as_rows, start_of, table_update}
use mysqlslave.Database.Update.Images.{image_bytes, all_columns}
use mysqlslave.Database.Update.Changes.{
  Change, written, image_values, updated, change_bytes, changes_bytes, IsChange, old_rows,
  new_rows_of, final_values, last_values, after_change, read_rows_step-change, length-last_values,
  length-change_bytes,
}
use mathlib.Core.List.{append_assoc, append-nil}

-- The variables behind a list of changes.
abbrev pub after_changes : List Change → Progress → Progress
after_changes cs s = record {
  values = final_values cs s.values s.source;
  source = s.source + length (changes_bytes cs);
  len = 0;
  rows = s.rows ++ old_rows cs s.values s.source;
  new_rows = s.new_rows ++ new_rows_of cs s.values s.source;
}

-- A change, then the others.
after_change-next :
    (c : Change) (cs : List Change) (s : Progress)
    → after_changes cs (after_change c s) ≡ after_changes (c ∷ cs) s
after_change-next (written cells) cs s =
    let both = length-append (image_bytes cells) (changes_bytes cs) in
    let behind : s.source + length (image_bytes cells) + length (changes_bytes cs)
        ≡ s.source + length (image_bytes cells ++ changes_bytes cs) =
      omega arith in
    rw
      (
        append_assoc s.rows (image_values cells s.values s.source ∷ []) (
            old_rows cs (image_values cells s.values s.source)
              (s.source + length (image_bytes cells))),
        behind,
      )
      refl
after_change-next (updated old new) cs s =
    let bs = image_bytes old ++ image_bytes new in
    let both = length-append bs (changes_bytes cs) in
    let vs = last_values (updated old new) s.values s.source in
    let behind : s.source + length bs + length (changes_bytes cs)
        ≡ s.source + length (bs ++ changes_bytes cs) =
      omega arith in
    rw
      (
        append_assoc s.rows (image_values old s.values s.source ∷ [])
            (old_rows cs vs (s.source + length bs)),
        append_assoc s.new_rows (vs ∷ []) (new_rows_of cs vs (s.source + length bs)),
        behind,
      )
      refl

module _ ⦃h : Headers⦄ (e : TableMapEvent) (r : RowEvent) (m : Memory) (n : ℕ) (few : n ≤ 48)
    (some_columns : 1 ≤ n) (counted : r.ncolumns ≡ n) (used : r.used_columns ≡ all_columns n) where
  parts :
      (c : Change) (s : Progress)
      → ((after_change c s).values ≡ last_values c s.values s.source)
        × ((after_change c s).len ≡ s.len - length (change_bytes c))
        × ((after_change c s).source ≡ s.source + length (change_bytes c))
  parts (written cells) s = (refl, refl, refl)
  parts (updated old new) s = (refl, refl, refl)

  nothing_left :
      (s : Progress) (o : Option End)
      → s.len ≡ 0
      → (if s.len == 0 then some (finished s) else o) ≡ some (finished (after_changes [] s))
  nothing_left s o all =
      let done : (s.len == 0) ≡ true = eq→== s.len 0 all in
      let here : s.source + 0 ≡ s.source = omega arith in
      rw (done, all, here, append-nil s.rows, append-nil s.new_rows) refl

  -- The loop reads every change.
  pub read_rows-changes :
      (cs : List Change) (fuel : ℕ) (s : Progress) (rest : List ℕ)
      → All (IsChange e r n) cs
      → length s.values ≡ n
      → length cs ≤ fuel
      → s.len ≡ length (changes_bytes cs)
      → s.len < 2 ^ 63
      → drop s.source m ≡ changes_bytes cs ++ rest
      → read_rows fuel e r m s ≡ some (finished (after_changes cs s))
  unfolding read_rows
  read_rows-changes [] zero s rest valid same enough all small at = nothing_left s _ all
  read_rows-changes [] (suc fuel) s rest valid same enough all small at = nothing_left s _ all
  read_rows-changes (c ∷ cs) zero s rest valid same enough all small at = absurd (omega arith)
  read_rows-changes (c ∷ cs) (suc fuel) s rest valid same enough all small at =
      let both = length-append (change_bytes c) (changes_bytes cs) in
      let some_left = length-change_bytes e r m n few some_columns counted used c valid.0 in
      let at_c = at ∙ append_assoc (change_bytes c) (changes_bytes cs) rest in
      let step =
        read_rows_step-change e r m n few some_columns counted used c s (changes_bytes cs ++ rest)
          valid.0 same small (omega arith) at_c in
      let busy : (s.len == 0) ≡ false = ne→== s.len 0 (λ z. absurd (omega arith)) in
      let (values, left, source) = parts c s in
      let rest_of =
        read_rows-changes cs fuel (after_change c s) rest valid.1
          (ap length values
            ∙ length-last_values e r m n few some_columns counted used c s.values s.source valid.0
                same)
          (omega arith) (omega arith) (omega arith)
          (ap (λ p. drop p m) source
            ∙ drop_past m s.source (change_bytes c) (changes_bytes cs ++ rest) at_c) in
      rw (busy, step) (rest_of ∙ ap (λ s'. some (finished s')) (after_change-next c cs s))

module _ ⦃h : Headers⦄ where
  -- For a valid event of the table's id, of one to 48 columns that are all used, whose bytes are the
  -- images of a list of changes (written or deleted rows; pairs of rows for an UPDATE) that fit the
  -- table map and the kind of the event, fewer than 2 ^ 63 bytes in all, `update` of a table of that
  -- map with a value per column and fuel for each change returns 0. The two lists then hold the rows
  -- that the changes mean, in their order, each built from the row before it, and `_row` is the last
  -- of them.
  pub table_update-refines :
      (cs : List Change) (fuel n : ℕ) (t : Table) (r : RowEvent) (m : Memory) (rest : List ℕ)
      → 1 ≤ n
      → n ≤ 48
      → r.ncolumns ≡ n
      → r.used_columns ≡ all_columns n
      → r.valid ≡ true
      → t.event.table_id ≡ r.table_id
      → length t.row.values ≡ n
      → All (IsChange t.event r n) cs
      → length cs ≤ fuel
      → r.rows_len ≡ length (changes_bytes cs)
      → r.rows_len < 2 ^ 63
      → drop r.rows_data m ≡ changes_bytes cs ++ rest
      → table_update fuel t r m
        ≡ some (
            some (
              success,
              record t {
                row = record {
                  has_table = t.row.has_table;
                  values = final_values cs t.row.values r.rows_data;
                };
                rows = as_rows t.row.has_table (old_rows cs t.row.values r.rows_data);
                new_rows = as_rows t.row.has_table (new_rows_of cs t.row.values r.rows_data);
              },
            ))
  unfolding table_update
  table_update-refines cs fuel n t r m rest some_columns few counted used valid ids same fits enough
        all small at =
      let ran =
        read_rows-changes t.event r m n few some_columns counted used cs fuel (start_of t r) rest
          fits same enough all small at in
      rw (ran, valid, eq→== t.event.table_id r.table_id ids) refl
