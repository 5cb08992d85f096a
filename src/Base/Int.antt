-- ===== src/Base/Int.antt =====
-- Signed integers over the native numbers, and the signed reading of a machine word.
use Prim.Native.Nat.{ℕ, suc, ◌-◌, ◌^◌}
use mysqlslave.Base.Tests.{ltb, leb, if◌then◌else◌}

-- `negsuc n` is -(n + 1).
pub data ℤ : Type 0 where
  pos : ℕ → ℤ
  negsuc : ℕ → ℤ

abbrev pub pos_part : ℤ → ℕ
pos_part (pos n) = n
pos_part (negsuc n) = 0

-- a - b, as an integer.
abbrev pub sub_ℕ : ℕ → ℕ → ℤ
sub_ℕ a b = if leb b a then pos (a - b) else negsuc (b - a - 1)

-- The integer that a word of `w` bits stands for in two's complement, and its bit pattern.
abbrev pub signed : ℕ → ℕ → ℤ
signed w n = if ltb n (2 ^ (w - 1)) then pos n else negsuc (2 ^ w - n - 1)

abbrev pub pattern_of : ℕ → ℤ → ℕ
pattern_of w (pos n) = n
pattern_of w (negsuc n) = 2 ^ w - suc n
