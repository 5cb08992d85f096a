-- ===== src/Database/Update/Rounds.antt =====
-- What one round of the loop of `CTable::update` does to the bytes that are left.
use mysqlslave.Base.{>>=-eq-some}
use mysqlslave.Base.{ℕ, ◌^◌, ◌≤◌, ◌<◌, ◌≡◌, refl, ap, ◌∙◌}
use mysqlslave.Base.{Option, some, ◌>>=◌, ◌++◌, ◌==◌, if◌then◌else◌, Bool-cases, inl, inr, arith}
use mysqlslave.Base.{List, [], ◌∷◌, ◌⊎◌}
use mysqlslave.Base.Int.{pos_part, signed}
use mysqlslave.Base.Words.{sub64, not64}
use mysqlslave.Memory.{Memory, Headers}
use mysqlslave.LogEvent.{Status}
use mysqlslave.LogEvent.TableMap.{TableMapEvent}
use mysqlslave.LogEvent.Rows.{RowEvent, is_update}
use mysqlslave.LogEvent.ColumnMask.{
  build_column_mask, mask_of_width, mask_bytes, mask_width, count_of, mask_of,
}
use mysqlslave.Value.{Value}
use mysqlslave.Database.Columns.{row_result}
use mysqlslave.Database.Columns.Advance.{update_columns-le}
use mysqlslave.Database.Update.{
  Progress, len_or_zero, update_row, read_image, read_second, read_rows_step,
}

module _ ⦃h : Headers⦄ where
  -- The length behind a bitmap: less by its width, or as it was.
  mask-len :
      (m : Memory) (p len n v q : ℕ) (len' : Option ℕ)
      → build_column_mask m p (some len) n ≡ some (v, q, len')
      → (len_or_zero len' ≡ len)
        ⊎ ((1 ≤ mask_width n) × (mask_width n ≤ 6) × (len_or_zero len' ≡ sub64 len (mask_width n)))
  unfolding build_column_mask mask_of_width mask_bytes
  mask-len m p len n v q len' e = ground arith

  mask-len_less :
      (m : Memory) (p len n v q : ℕ) (len' : Option ℕ)
      → 1 ≤ n
      → n ≤ 48
      → build_column_mask m p (some len) n ≡ some (v, q, len')
      → len_or_zero len' ≡ sub64 len (mask_width n)
  unfolding build_column_mask mask_of_width mask_bytes
  mask-len_less m p len n v q len' lo hi e = ground arith

  -- `update_row` leaves no more than it was given; a negative `len` it takes for nothing.
  update_row-le :
      (e : TableMapEvent) (vs : List Value) (m : Memory) (p len n used nonnull : ℕ)
      → (st : Status) (vs' : List Value) (q len' : ℕ)
      → update_row e vs m p len n used nonnull ≡ some (st, vs', q, len')
      → len' ≤ pos_part (signed 64 len)
  unfolding update_row
  update_row-le e vs m p len n used nonnull st vs' q len' eq =
      let (c, ran, res) = >>=-eq-some _ (λ c. some (row_result c)) eq in
      ground (arith, res, update_columns-le n e m used nonnull 0 _ c ran)

  -- The two steps of an image that was read.
  read_image-steps :
      (e : TableMapEvent) (r : RowEvent) (m : Memory) (raw : ℕ) (s s' : Progress)
      → read_image e r m raw s ≡ some s'
      → (v : ℕ) × (q : ℕ) × (left : Option ℕ) × (st : Status) × (values : List Value) × (q' : ℕ)
        × (build_column_mask m s.source (some s.len) (count_of raw) ≡ some (v, q, left))
        × (update_row e s.values m q (len_or_zero left) r.ncolumns (mask_of raw) (not64 v)
            ≡ some (st, values, q', s'.len))
  unfolding read_image
  read_image-steps e r m raw s s' eq =
      let ((v, q, left), mask, rest) =
        >>=-eq-some (build_column_mask m s.source (some s.len) (count_of raw))
          (λ (v, q, left).
            update_row e s.values m q (len_or_zero left) r.ncolumns (mask_of raw) (not64 v)
            >>= λ (_, values, q', len').
                some (record s { values = values; source = q'; len = len' }))
          eq in
      let ((st, values, q', len'), row, res) =
        >>=-eq-some
          (update_row e s.values m q (len_or_zero left) r.ncolumns (mask_of raw) (not64 v))
          (λ (_, values, q', len'). some (record s { values = values; source = q'; len = len' }))
          rest in
      let same : len' ≡ s'.len = ground (arith, res) in
      (v, q, left, st, values, q', mask, row ∙ ap (λ n. some (st, values, q', n)) same)

  -- An image leaves no more bytes than there were, and fewer if its bitmap of nulls has one to 48
  -- bits.
  read_image-le :
      (e : TableMapEvent) (r : RowEvent) (m : Memory) (raw : ℕ) (s s' : Progress)
      → s.len < 2 ^ 63
      → read_image e r m raw s ≡ some s'
      → s'.len ≤ s.len
  read_image-le e r m raw s s' small eq =
      let (v, q, left, st, values, q', mask, row) = read_image-steps e r m raw s s' eq in
      let bound =
        update_row-le e s.values m q (len_or_zero left) r.ncolumns (mask_of raw) (not64 v) st values
          q' s'.len row in
      ground (arith, mask-len m s.source s.len (count_of raw) v q left mask)

  read_image-lt :
      (e : TableMapEvent) (r : RowEvent) (m : Memory) (raw : ℕ) (s s' : Progress)
      → 0 < s.len
      → s.len < 2 ^ 63
      → 1 ≤ count_of raw
      → count_of raw ≤ 48
      → read_image e r m raw s ≡ some s'
      → s'.len < s.len
  read_image-lt e r m raw s s' some_left small lo hi eq =
      let (v, q, left, st, values, q', mask, row) = read_image-steps e r m raw s s' eq in
      let bound =
        update_row-le e s.values m q (len_or_zero left) r.ncolumns (mask_of raw) (not64 v) st values
          q' s'.len row in
      ground (arith, mask-len_less m s.source s.len (count_of raw) v q left lo hi mask)

  -- The second image of a round.
  read_second-image :
      (e : TableMapEvent) (r : RowEvent) (m : Memory) (s s' : Progress)
      → read_second e r m s ≡ some s'
      → (s ≡ s')
        ⊎ ((s₁ : Progress) × (read_image e r m r.used_columns_afterimage s ≡ some s₁)
            × (s'.len ≡ s₁.len))
  unfolding read_second
  read_second-image e r m s s' eq = elim (Bool-cases (is_update r.event_type)) [
    | inl twice ↦
        let (s₁, image, res) =
          >>=-eq-some (read_image e r m r.used_columns_afterimage s)
            (λ s₁. some (record s₁ { new_rows = s₁.new_rows ++ (s₁.values ∷ []) })) {b = s'}
            (ground (arith, eq, twice)) in
        inr (s₁, image, ground (arith, res))
    | inr once ↦ inl (ground (arith, once, eq))
  ]

  -- A round: an image, then perhaps a second one.
  read_rows_step-images :
      (e : TableMapEvent) (r : RowEvent) (m : Memory) (s s' : Progress)
      → read_rows_step e r m s ≡ some s'
      → (s₁ : Progress) × (s₂ : Progress) × (read_image e r m r.used_columns s ≡ some s₁)
        × (s₂.len ≡ s₁.len)
        × ((s₂ ≡ s') ⊎ (read_second e r m s₂ ≡ some s'))
  unfolding read_rows_step
  read_rows_step-images e r m s s' eq =
      let (s₁, first, rest) =
        >>=-eq-some (read_image e r m r.used_columns s)
          (λ s₁.
            let s₂ = record s₁ { rows = s₁.rows ++ (s₁.values ∷ []) } in
            if s₂.len == 0 then some s₂ else read_second e r m s₂)
          eq in
      let s₂ : Progress = record s₁ { rows = s₁.rows ++ (s₁.values ∷ []) } in
      let done : (s₂ ≡ s') ⊎ (read_second e r m s₂ ≡ some s') = elim (Bool-cases (s₁.len == 0)) [
        | inl used_up ↦ inl (ground (arith, used_up, rest))
        | inr left ↦ inr (ground (arith, left, rest))
      ] in
      (s₁, s₂, first, refl, done)

  read_second-le :
      (e : TableMapEvent) (r : RowEvent) (m : Memory) (s s' : Progress)
      → s.len < 2 ^ 63
      → read_second e r m s ≡ some s'
      → s'.len ≤ s.len
  read_second-le e r m s s' small eq = elim (read_second-image e r m s s' eq) [
    | inl same ↦ ground (arith, ap (λ x. x.len) same)
    | inr (s₁, image, len) ↦
        ground (arith, read_image-le e r m r.used_columns_afterimage s s₁ small image)
  ]

  pub read_rows_step-lt :
      (e : TableMapEvent) (r : RowEvent) (m : Memory) (s s' : Progress)
      → 0 < s.len
      → s.len < 2 ^ 63
      → 1 ≤ count_of r.used_columns
      → count_of r.used_columns ≤ 48
      → read_rows_step e r m s ≡ some s'
      → s'.len < s.len
  read_rows_step-lt e r m s s' some_left small lo hi eq =
      let (s₁, s₂, first, len, done) = read_rows_step-images e r m s s' eq in
      let less = read_image-lt e r m r.used_columns s s₁ some_left small lo hi first in
      elim done [
        | inl same ↦ ground (arith, ap (λ x. x.len) same)
        | inr second ↦ ground (arith, read_second-le e r m s₂ s' (omega arith) second)
      ]
