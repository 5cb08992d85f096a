-- ===== src/LogEvent/ColumnMask.antt =====
-- The column bitmaps of row events in src/mysqlslave/logevent.cpp: `build_column_mask`,
-- `update_n1bits`, and the accessors of include/mysqlslave/logevent.hpp that read them back.
pub mod Widths
pub mod Count
use mysqlslave.Base.{ℕ, zero, suc, ◌+◌, ◌-◌, ◌*◌, ◌/◌, ◌%◌, ◌^◌, bit_and, bit_or}
use mysqlslave.Base.{Option, none, some, ◌>>=◌, not, ◌==◌, if◌then◌else◌}
use mysqlslave.Base.Words.{u8, u64, sub64}
use mysqlslave.Memory.{Memory, Headers, load, uint_korr}

-- The result of a wrong number of columns, `(uint64_t) - 1`.
abbrev pub wrong_mask : ℕ
wrong_mask = 2 ^ 64 - 1

-- The loop of `update_n1bits`: `do { if (m & 1) nbits++; } while (m >>= 1)`.
unfoldable pub count_bits : ℕ → ℕ → ℕ → ℕ
count_bits zero m nbits = nbits
count_bits (suc fuel) m nbits =
    let nbits' = if not (bit_and m 1 == 0) then u8 (nbits + 1) else nbits in
    let rest = count_bits fuel (m / 2) nbits' in if m / 2 == 0 then nbits' else rest

-- The number of ones goes into the highest byte. A uint64_t has 64 bits, so 64 rounds end the loop.
unfoldable pub update_n1bits : ℕ → ℕ
unfolding count_bits
update_n1bits mask = bit_or (bit_and mask 0x00FF_FFFF_FFFF_FFFF) (count_bits 64 mask 0 * 2 ^ 56)

-- `used_columns_mask()` and `used_columns_1bit_count()`, and the same of the after-image. The
-- literal 0x00FFFFFFFFFFFFFFFF has sixteen digits F.
unfoldable pub mask_of : ℕ → ℕ
mask_of raw = bit_and raw 0x00_FFFF_FFFF_FFFF_FFFF

abbrev pub count_of : ℕ → ℕ
count_of raw = raw / 2 ^ 56

-- The bytes of a bitmap for `n` columns, in a uint8_t.
abbrev pub mask_width : ℕ → ℕ
mask_width n = u8 (u64 (n + 7) / 8)

module _ ⦃h : Headers⦄ where
  -- The `switch` of `build_column_mask`; the inner `none` is its default.
  unfoldable pub mask_bytes : Memory → ℕ → ℕ → Option (Option ℕ)
  mask_bytes m p l =
      let wide = uint_korr l m p >>= λ v. some (some v) in
      let narrow = load m p >>= λ v. some (some v) in
      if l == 1
      then narrow
      else if l == 2
      then wide
      else if l == 3
      then wide
      else if l == 4
      then wide
      else if l == 5
      then wide
      else if l == 6
      then wide
      else some none

  -- What follows the computation of the width `l`.
  unfoldable pub mask_of_width : Memory → ℕ → Option ℕ → ℕ → Option (ℕ × ℕ × Option ℕ)
  mask_of_width m p len l = mask_bytes m p l >>= elim [
    | none ↦ some (wrong_mask, p, len)
    | some v ↦ some (v, p + l, len >>= λ k. some (sub64 k l))
  ]

  -- The mask, and `*ptr` and `*len` afterwards; `len` may be a null pointer.
  unfoldable pub build_column_mask : Memory → ℕ → Option ℕ → ℕ → Option (ℕ × ℕ × Option ℕ)
  build_column_mask m p len n = mask_of_width m p len (mask_width n)
