-- ===== src/Database/Columns/Advance.antt =====
-- What the loop over the columns does to the bytes that are left.
use mysqlslave.Base.{ℕ, zero, suc, ◌+◌, ◌≤◌, ◌≡◌, arith, some, >>=-eq-some}
use mysqlslave.Base.Int.{pos_part}
use mysqlslave.Memory.{Memory, Headers}
use mysqlslave.LogEvent.TableMap.{TableMapEvent}
use mysqlslave.Database.Columns.{Cursor, read_metadata, take_value, update_column, update_columns}

module _ ⦃h : Headers⦄ where
  -- A column takes from the bytes that are left, if anything.
  update_column-le :
      (e : TableMapEvent) (m : Memory) (used nonnull i : ℕ) (c c' : Cursor)
      → update_column e m used nonnull i c ≡ some c'
      → pos_part c'.size ≤ pos_part c.size
  unfolding update_column take_value read_metadata
  update_column-le e m used nonnull i c c' q = ground arith

  pub update_columns-le :
      (n : ℕ) (e : TableMapEvent) (m : Memory) (used nonnull i : ℕ) (c c' : Cursor)
      → update_columns n e m used nonnull i c ≡ some c'
      → pos_part c'.size ≤ pos_part c.size
  unfolding update_columns
  update_columns-le zero e m used nonnull i c c' q = ground arith
  update_columns-le (suc n) e m used nonnull i c c' q =
      let (c₁, first, rest) =
        >>=-eq-some (update_column e m used nonnull i c) (update_columns n e m used nonnull (i + 1))
          q in
      omega (
        arith,
        update_column-le e m used nonnull i c c₁ first,
        update_columns-le n e m used nonnull (i + 1) c₁ c' rest,
      )
