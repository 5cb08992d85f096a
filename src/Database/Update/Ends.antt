-- ===== src/Database/Update/Ends.antt =====
-- When the loop of `CTable::update` ends.
use mysqlslave.Base.{>>=-eq-some}
use mysqlslave.Base.{ℕ, zero, suc, ◌^◌, ◌≤◌, ◌<◌, ◌≢◌, refl}
use mysqlslave.Base.{Option, some, none, ◌==◌, Bool-cases, inl, inr, arith}
use mysqlslave.Memory.{Memory, Headers}
use mysqlslave.LogEvent.TableMap.{TableMapEvent}
use mysqlslave.LogEvent.Rows.{RowEvent}
use mysqlslave.LogEvent.ColumnMask.{count_of}
use mysqlslave.Database.{Table}
use mysqlslave.Database.Update.{
  Progress, End, start_of, finished, stuck, read_rows_step, read_rows, table_update, close_update,
}
use mysqlslave.Database.Update.Rounds.{read_rows_step-lt}

module _ ⦃h : Headers⦄ where
  -- Enough fuel is the number of bytes: the loop does not run out of it.
  read_rows-ends :
      (fuel : ℕ) (e : TableMapEvent) (r : RowEvent) (m : Memory) (s : Progress)
      → s.len ≤ fuel
      → s.len < 2 ^ 63
      → 1 ≤ count_of r.used_columns
      → count_of r.used_columns ≤ 48
      → read_rows fuel e r m s ≢ some stuck
  unfolding read_rows
  read_rows-ends zero e r m s enough small lo hi stop = ground arith
  read_rows-ends (suc fuel) e r m s enough small lo hi stop = elim (Bool-cases (s.len == 0)) [
    | inl done ↦ ground arith
    | inr left ↦
        let some_left : 0 < s.len = ground arith in
        let (s₁, round, rest) =
          >>=-eq-some (read_rows_step e r m s) (read_rows fuel e r m) {b = stuck}
            (ground (arith, stop, left)) in
        let less : s₁.len < s.len = read_rows_step-lt e r m s s₁ some_left small lo hi round in
        read_rows-ends fuel e r m s₁ (omega arith) (omega arith) lo hi rest
  ]

  close_update-ended : (t : Table) (o : Option End) → o ≢ some stuck → close_update t o ≢ some none
  close_update-ended t none going e = cc
  close_update-ended t (some stuck) going e = going refl
  close_update-ended t (some (finished s)) going e = cc

  -- For rows of fewer than 2 ^ 63 bytes with one to 48 columns used, fuel for each byte of the rows
  -- is enough: `update` then ends, or reads outside the buffer, whatever the bytes are.
  pub table_update-ends :
      (fuel : ℕ) (t : Table) (r : RowEvent) (m : Memory)
      → r.rows_len ≤ fuel
      → r.rows_len < 2 ^ 63
      → 1 ≤ count_of r.used_columns
      → count_of r.used_columns ≤ 48
      → table_update fuel t r m ≢ some none
  unfolding table_update
  table_update-ends fuel t r m enough small lo hi stop =
      close_update-ended t _ (read_rows-ends fuel t.event r m (start_of t r) enough small lo hi)
        (ground (arith, stop))
