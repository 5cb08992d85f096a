-- ===== src/Base/Masks.antt =====
-- Masks of ones and complements, bit by bit.
use Prim.Native.Nat.{ℕ, zero, suc, ◌-◌, ◌*◌, ◌/◌, ◌^◌, ◌≤◌, ◌<◌}
use mathlib.Core.Path.{◌≡◌, refl, ap, ◌∙◌}
use mysqlslave.Base.Bits.{bit, ones, ones-zero}
use native.Mathlib.Nat.{pow-suc, one-le-pow, pow-le-pow_right}
use native.Mathlib.Omega.{arith}

pub bit-all_ones : (i n : ℕ) → i < n → bit i (2 ^ n - 1) ≡ 1
bit-all_ones i zero lt = absurd (omega arith)
bit-all_ones zero (suc n) lt = omega (arith, pow-suc 2 n, one-le-pow n 2)
bit-all_ones (suc i) (suc n) lt =
    ap (bit i) {y = 2 ^ n - 1} (omega (arith, pow-suc 2 n, one-le-pow n 2))
    ∙ bit-all_ones i n (omega arith)

pub ones-all_ones : (k n : ℕ) → n ≤ k → ones k (2 ^ n - 1) ≡ n
ones-all_ones zero n few = omega arith
ones-all_ones (suc k) zero few = ones-zero (suc k) 0 refl
ones-all_ones (suc k) (suc n) few = omega (
  arith,
  pow-suc 2 n,
  one-le-pow n 2,
  ap (ones k) {x = (2 ^ suc n - 1) / 2} {y = 2 ^ n - 1}
      (omega (arith, pow-suc 2 n, one-le-pow n 2)),
  ones-all_ones k n (omega arith),
)

-- The complement of a bitmap.
pub bit-complement : (i k a : ℕ) → i < k → a < 2 ^ k → bit i (2 ^ k - 1 - a) ≡ 1 - bit i a
bit-complement i zero a lt fits = absurd (omega arith)
bit-complement zero (suc k) a lt fits = omega (arith, pow-suc 2 k, one-le-pow k 2)
bit-complement (suc i) (suc k) a lt fits =
    ap (bit i) {y = 2 ^ k - 1 - a / 2} (omega (arith, pow-suc 2 k, one-le-pow k 2))
    ∙ bit-complement i k (a / 2) (omega arith) (omega (arith, pow-suc 2 k))

-- `n` bits fit the bytes that hold them.
pub pow-le-bytes : (k n : ℕ) → n ≤ 8 * k → 2 ^ n ≤ 256 ^ k
pow-le-bytes k n few =
    let bound : 2 ^ n ≤ 2 ^ (8 * k) = pow-le-pow_right (omega arith) few in
    omega (arith, bound, bytes k)
  where
    eight : (n : ℕ) → 2 ^ suc (suc (suc (suc (suc (suc (suc (suc n))))))) ≡ 256 * 2 ^ n
    eight n = omega (
      arith,
      pow-suc 2 n,
      pow-suc 2 (suc n),
      pow-suc 2 (suc (suc n)),
      pow-suc 2 (suc (suc (suc n))),
      pow-suc 2 (suc (suc (suc (suc n)))),
      pow-suc 2 (suc (suc (suc (suc (suc n))))),
      pow-suc 2 (suc (suc (suc (suc (suc (suc n)))))),
      pow-suc 2 (suc (suc (suc (suc (suc (suc (suc n))))))),
    )

    bytes : (k : ℕ) → 2 ^ (8 * k) ≡ 256 ^ k
    bytes zero = refl
    bytes (suc k) =
        ap (λ t. 2 ^ t) {x = 8 * suc k} {y = suc (suc (suc (suc (suc (suc (suc (suc (8 * k))))))))}
          (omega arith)
        ∙ omega (arith, eight (8 * k), bytes k, pow-suc 256 k)
