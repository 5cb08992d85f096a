-- ===== src/LogEvent/ColumnMask/Widths.antt =====
-- `build_column_mask` on every number of columns.
use mysqlslave.Base.{ℕ, ◌+◌, ◌/◌, ◌^◌, ◌≤◌, ◌<◌, ◌≡◌, ◌⊎◌, ap, ◌∙◌, arith}
use mysqlslave.Base.{List, ◌++◌, Option, some, ◌>>=◌, drop, get_elem?-drop}
use mysqlslave.Base.Words.{sub64}
use mysqlslave.Memory.{Memory, Headers}
use mysqlslave.Memory.Endian.{le_bytes, uint_korr-le_bytes}
use mysqlslave.LogEvent.ColumnMask.{
  build_column_mask, mask_bytes, mask_of_width, mask_width, wrong_mask,
}

module _ ⦃h : Headers⦄ where
  -- A bitmap of one to six bytes is read as one number.
  mask_bytes-le_bytes :
      (l v : ℕ) (m : Memory) (p : ℕ) (rest : List ℕ)
      → 1 ≤ l
      → l ≤ 6
      → v < 256 ^ l
      → drop p m ≡ le_bytes l v ++ rest
      → mask_bytes m p l ≡ some (some v)
  unfolding mask_bytes
  mask_bytes-le_bytes l v m p rest lo hi fits at =
      ground (arith, uint_korr-le_bytes l v m p rest at fits, get_elem?-drop m p v rest)

  -- One to 48 columns: the code reads the documented bitmap, one bit to a column in whole bytes,
  -- and advances the pointer and the length by as many bytes.
  pub build_column_mask-encoded :
      (n v : ℕ) (m : Memory) (p : ℕ) (len : Option ℕ) (rest : List ℕ)
      → 1 ≤ n
      → n ≤ 48
      → v < 256 ^ ((n + 7) / 8)
      → drop p m ≡ le_bytes ((n + 7) / 8) v ++ rest
      → build_column_mask m p len n
        ≡ some (v, p + (n + 7) / 8, len >>= λ k. some (sub64 k ((n + 7) / 8)))
  unfolding build_column_mask
  build_column_mask-encoded n v m p len rest lo hi fits at =
      ap (mask_of_width m p len) same
      ∙ unfold mask_of_width in
        rw (mask_bytes-le_bytes ((n + 7) / 8) v m p rest (omega arith) (omega arith) fits at)
    where
      same : mask_width n ≡ (n + 7) / 8
      same = omega arith

  -- No column, or 49 to 2040 of them: the code refuses and moves nothing.
  build_column_mask-refuses :
      (n : ℕ) (m : Memory) (p : ℕ) (len : Option ℕ)
      → (n ≡ 0) ⊎ ((49 ≤ n) × (n ≤ 2040))
      → build_column_mask m p len n ≡ some (wrong_mask, p, len)
  unfolding build_column_mask mask_of_width mask_bytes
  build_column_mask-refuses n m p len wrong = ground arith

  -- The width is kept in a uint8_t, so 2048 more columns than a number below 2 ^ 63 look the same.
  build_column_mask-wraps :
      (n : ℕ) (m : Memory) (p : ℕ) (len : Option ℕ)
      → n < 2 ^ 63
      → build_column_mask m p len (n + 2048) ≡ build_column_mask m p len n
  unfolding build_column_mask
  build_column_mask-wraps n m p len fits = ap (mask_of_width m p len) same
    where
      same : mask_width (n + 2048) ≡ mask_width n
      same = omega arith
