-- ===== src/Base/Bits.antt =====
-- Single bits of a number, and `&` read bit by bit.
use Prim.Native.Nat.{ℕ, zero, suc, ◌+◌, ◌-◌, ◌*◌, ◌/◌, ◌%◌, ◌^◌, ◌≤◌, ◌<◌, min, max}
use Prim.Native.Nat.{bit_and, bit_or, digits, bitwise, bit_and-bitwise, bit_or-bitwise}
use mathlib.Core.Path.{◌≡◌, refl, ap, ap₂, ◌∙◌}
use mathlib.Core.WellFounded
use mysqlslave.Base.Order.{lt_wf}
use native.Mathlib.Nat.{pow-suc, one-le-pow, div-add-mod}
use native.Mathlib.Omega.{arith}

-- Bit `i` of `a`, as 0 or 1.
abbrev pub bit : ℕ → ℕ → ℕ
bit zero a = a % 2
bit (suc i) a = bit i (a / 2)

-- The library defines the bit operations on fuel, one digit to a round. Two amounts that suffice
-- agree, and the lowest digit can be taken out.
module _ (keep : ℕ → ℕ) (digit : ℕ → ℕ → ℕ) where
  fuel_enough :
      (low high : ℕ) (x y : ℕ)
      → x ≤ high
      → x ≤ low
      → digits keep digit high x y ≡ digits keep digit low x y
  fuel_enough (suc low) (suc high) (suc x) y above below =
      rw (fuel_enough low high (suc x / 2) (y / 2) (omega arith) (omega arith))
  fuel_enough (suc low) (suc high) zero y above below = refl
  fuel_enough (suc low) zero zero y above below = refl
  fuel_enough zero (suc high) zero y above below = refl
  fuel_enough zero zero zero y above below = refl
  fuel_enough low zero (suc x) y above below = absurd (omega arith)
  fuel_enough zero (suc high) (suc x) y above below = absurd (omega arith)

  lowest_digit :
      (x y : ℕ)
      → bitwise keep digit (suc x) y
        ≡ digit ((suc x) % 2) (y % 2) + 2 * bitwise keep digit ((suc x) / 2) (y / 2)
  lowest_digit x y =
      let enough = fuel_enough ((suc x) / 2) x ((suc x) / 2) (y / 2) (omega arith) (omega arith) in
      omega (arith, enough)

pub bit_or_step : (x y : ℕ) → bit_or x y ≡ bit_or (x / 2) (y / 2) * 2 + max (x % 2) (y % 2)
bit_or_step (suc x) y = simp bit_or-bitwise (omega (arith, lowest_digit (λ n. n) max x y))
bit_or_step zero y = simp bit_or-bitwise (omega arith)

pub bit_and_step : (x y : ℕ) → bit_and x y ≡ bit_and (x / 2) (y / 2) * 2 + min (x % 2) (y % 2)
bit_and_step (suc x) y = simp bit_and-bitwise (omega (arith, lowest_digit (λ n. 0) min x y))
bit_and_step zero y = simp bit_and-bitwise (omega arith)

pub bit_and-zero : (a b : ℕ) → a ≡ 0 → bit_and a b ≡ 0
bit_and-zero zero b h = bit_and-bitwise 0 b
bit_and-zero (suc a) b h = absurd (omega arith)

-- `&` is the conjunction of each bit.
pub bit-bit_and : (i a b : ℕ) → bit i (bit_and a b) ≡ min (bit i a) (bit i b)
bit-bit_and zero a b = omega (arith, bit_and_step a b)
bit-bit_and (suc i) a b =
    ap (bit i) {y = bit_and (a / 2) (b / 2)} (omega (arith, bit_and_step a b))
    ∙ bit-bit_and i (a / 2) (b / 2)

pub bit-le : (i a : ℕ) → bit i a ≤ 1
bit-le zero a = omega arith
bit-le (suc i) a = bit-le i (a / 2)

pub bit_and-zero_right : (a : ℕ) → bit_and a 0 ≡ 0
bit_and-zero_right a = WellFounded.induction lt_wf {C = λ n. bit_and n 0 ≡ 0} a λ k ih. go k ih
  where
    go : (k : ℕ) → ((m : ℕ) → m < k → bit_and m 0 ≡ 0) → bit_and k 0 ≡ 0
    go zero ih = refl
    go (suc n) ih = omega (arith, bit_and_step (suc n) 0, ih (suc n / 2) (omega arith))

-- `a & (1 << i)` is bit `i`, in its place.
pub bit_and_pow : (i a : ℕ) → bit_and a (2 ^ i) ≡ bit i a * 2 ^ i
bit_and_pow zero a = omega (arith, bit_and_step a 1, bit_and-zero_right (a / 2))
bit_and_pow (suc i) a = omega (
  arith,
  bit_and_step a (2 ^ suc i),
  pow-suc 2 i,
  ap (λ (t : ℕ). bit_and (a / 2) t) half,
  bit_and_pow i (a / 2),
  ap (λ (t : ℕ). bit i (a / 2) * t) (pow-suc 2 i),
)
  where
    half : 2 ^ suc i / 2 ≡ 2 ^ i
    half = omega (arith, pow-suc 2 i)

-- A mask of `k` ones keeps what fits `k` bits.
pub bit_and_mask : (k a : ℕ) → a < 2 ^ k → bit_and a (2 ^ k - 1) ≡ a
bit_and_mask zero a h = omega (arith, bit_and-zero_right a)
bit_and_mask (suc k) a h = omega (
  arith,
  bit_and_step a (2 ^ suc k - 1),
  pow-suc 2 k,
  one-le-pow k 2,
  ap (λ (t : ℕ). bit_and (a / 2) t) half,
  bit_and_mask k (a / 2) (omega (arith, pow-suc 2 k)),
)
  where
    half : (2 ^ suc k - 1) / 2 ≡ 2 ^ k - 1
    half = omega (arith, pow-suc 2 k, one-le-pow k 2)

-- `|` of a field of `k` bits and one above it is their sum.
pub bit_or_fields : (k a c : ℕ) → a < 2 ^ k → bit_or a (c * 2 ^ k) ≡ a + c * 2 ^ k
bit_or_fields zero zero c h = bit_or-bitwise 0 (c * 1) ∙ omega arith
bit_or_fields zero (suc a) c h = absurd (omega arith)
bit_or_fields (suc k) a c h = omega (
  arith,
  bit_or_step a (c * 2 ^ suc k),
  twice,
  ap (λ (t : ℕ). bit_or (a / 2) t) half,
  bit_or_fields k (a / 2) c (omega (arith, pow-suc 2 k)),
)
  where
    twice : c * 2 ^ suc k ≡ 2 * (c * 2 ^ k)
    twice = omega (arith, ap (λ (t : ℕ). c * t) (pow-suc 2 k))

    half : c * 2 ^ suc k / 2 ≡ c * 2 ^ k
    half = omega (arith, twice)

-- Bits below `k` do not see a field above them.
pub bit-add_field : (i k a c : ℕ) → i < k → bit i (a + c * 2 ^ k) ≡ bit i a
bit-add_field i zero a c h = elim h [ ]
bit-add_field zero (suc k) a c h = omega (arith, ap (λ (t : ℕ). c * t) (pow-suc 2 k))
bit-add_field (suc i) (suc k) a c h = ap (bit i) half ∙ bit-add_field i k (a / 2) c (omega arith)
  where
    half : (a + c * 2 ^ suc k) / 2 ≡ a / 2 + c * 2 ^ k
    half = omega (arith, ap (λ (t : ℕ). c * t) (pow-suc 2 k))

-- The number of ones among the lowest `k` bits.
abbrev pub ones : ℕ → ℕ → ℕ
ones zero a = 0
ones (suc k) a = a % 2 + ones k (a / 2)

pub ones-zero : (k a : ℕ) → a ≡ 0 → ones k a ≡ 0
ones-zero zero a h = refl
ones-zero (suc k) a h = omega (arith, ones-zero k (a / 2) (omega arith))

pub ones-le : (k a : ℕ) → ones k a ≤ k
ones-le zero a = omega arith
ones-le (suc k) a = omega (arith, ones-le k (a / 2))

module _ (k : ℕ) where
  half_mask : (2 ^ suc k - 1) / 2 ≡ 2 ^ k - 1
  half_mask = omega (arith, pow-suc 2 k, one-le-pow k 2)

  half_fields : (c r : ℕ) → (c * 2 ^ suc k + r) / 2 ≡ c * 2 ^ k + r / 2
  half_fields c r = omega (arith, ap (λ (t : ℕ). c * t) (pow-suc 2 k))

bit_and_fields : (k c r : ℕ) → r < 2 ^ k → bit_and (c * 2 ^ k + r) (2 ^ k - 1) ≡ r
bit_and_fields zero c r h = omega (arith, bit_and-zero_right (c * 1 + r))
bit_and_fields (suc k) c r h = omega (
  arith,
  bit_and_step (c * 2 ^ suc k + r) (2 ^ suc k - 1),
  pow-suc 2 k,
  one-le-pow k 2,
  ap (λ (t : ℕ). c * t) (pow-suc 2 k),
  ap₂ bit_and (half_fields k c r) (half_mask k),
  bit_and_fields k c (r / 2) (omega (arith, pow-suc 2 k)),
)

-- A mask of `k` ones is the remainder by 2 ^ k.
pub bit_and-eq-mod : (k a : ℕ) → bit_and a (2 ^ k - 1) ≡ a % 2 ^ k
bit_and-eq-mod k a =
    ap (λ t. bit_and t (2 ^ k - 1)) whole ∙ bit_and_fields k (a / 2 ^ k) (a % 2 ^ k) small
  where
    small : a % 2 ^ k < 2 ^ k
    small = omega (arith, one-le-pow k 2)

    whole : a ≡ a / 2 ^ k * 2 ^ k + a % 2 ^ k
    whole = omega (arith, div-add-mod a (2 ^ k))
