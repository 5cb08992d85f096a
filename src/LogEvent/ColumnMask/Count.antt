-- ===== src/LogEvent/ColumnMask/Count.antt =====
-- What `update_n1bits` stores, and what the accessors read back.
use mysqlslave.Base.{ℕ, zero, suc, ◌+◌, ◌*◌, ◌/◌, ◌%◌, ◌^◌, ◌<◌, ◌≡◌, ap, ◌∙◌, arith}
use mysqlslave.Base.{bit_and}
use mysqlslave.Base.Bits.{
  bit, ones, ones-zero, ones-le, bit_and_step, bit_and-zero_right, bit_and_mask, bit_or_fields,
  bit-add_field,
}
use mysqlslave.LogEvent.ColumnMask.{count_bits, update_n1bits, mask_of, count_of}
use native.Mathlib.Nat.{pow-suc}

low_bit : (m : ℕ) → bit_and m 1 ≡ m % 2
low_bit m = omega (arith, bit_and_step m 1, bit_and-zero_right (m / 2))

-- With as many rounds as the mask has bits, the loop ends by its test and counts the ones.
count_bits-eq-ones : (f m n : ℕ) → m < 2 ^ f → n + f < 256 → count_bits f m n ≡ n + ones f m
unfolding count_bits
count_bits-eq-ones zero m n h k = omega arith
count_bits-eq-ones (suc f) m n h k = ground (
  arith,
  low_bit m,
  pow-suc 2 f,
  ones-zero f (m / 2),
  count_bits-eq-ones f (m / 2) (n + 1),
  count_bits-eq-ones f (m / 2) n,
)

-- For a mask below 2 ^ 56, `update_n1bits` keeps the mask in the low 56 bits and puts the number of
-- its ones above them.
pub update_n1bits_lem : (m : ℕ) → m < 2 ^ 56 → update_n1bits m ≡ m + ones 64 m * 2 ^ 56
unfolding update_n1bits
update_n1bits_lem m h = rw (bit_and_mask 56 m h, counted) (bit_or_fields 56 m (ones 64 m) h)
  where
    counted : count_bits 64 m 0 ≡ ones 64 m
    counted = count_bits-eq-ones 64 m 0 (omega arith) (omega arith) ∙ omega arith

-- The accessors after `update_n1bits` of a mask below 2 ^ 56: the count is the number of columns in
-- the mask, and each of the lower 56 bits of `used_columns_mask()` is that of the mask.
pub update_n1bits_read :
    (m : ℕ)
    → m < 2 ^ 56
    → (count_of (update_n1bits m) ≡ ones 64 m)
      × ((i : ℕ) → i < 56 → bit i (mask_of (update_n1bits m)) ≡ bit i m)
unfolding mask_of
update_n1bits_read m h = (
  omega (arith, update_n1bits_lem m h),
  λ i lt.
      ap (bit i) (bit_and_mask 64 _ (omega (arith, update_n1bits_lem m h, ones-le 64 m)))
      ∙ ap (bit i) (update_n1bits_lem m h)
      ∙ bit-add_field i 56 m (ones 64 m) lt,
)

-- For a mask below 2 ^ 56, `used_columns_mask()` does not clear the count that `update_n1bits` has
-- put in the highest byte: the literal has 64 ones.
mask_of-keeps_count : (m : ℕ) → m < 2 ^ 56 → mask_of (update_n1bits m) ≡ m + ones 64 m * 2 ^ 56
unfolding mask_of
mask_of-keeps_count m h =
    bit_and_mask 64 _ (omega (arith, update_n1bits_lem m h, ones-le 64 m)) ∙ update_n1bits_lem m h
