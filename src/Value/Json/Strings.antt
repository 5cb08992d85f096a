-- ===== src/Value/Json/Strings.antt =====
-- Strings: the loop for the length ends only at a byte 0x80.
use mysqlslave.Base.{
  ℕ, zero, suc, ◌+◌, ◌*◌, ◌%◌, ◌^◌, ◌<◌, ◌≤◌, ◌≡◌, ◌≢◌, refl, ap, ◌∙◌, arith, some, none, false,
  leb, List, [], ◌∷◌, ◌++◌, All, length, drop, take, drop_next, bit_and, bit_or, ne→==,
  get_elem?-drop, drop_past,
}
use native.Mathlib.Nat.{pow-le-pow_right, pow-suc, mul-le-mul_right}
use mysqlslave.Base.Bits.{bit_and-eq-mod, bit_or_fields}
use mysqlslave.Memory.{Memory, Headers}
use mysqlslave.Memory.Endian.{take_exact-append}
use mysqlslave.Value.{Value}
use mysqlslave.Value.Json.{
  JsonValues, text, read_length, read_string, read_by_type, read_type, as_json,
}

-- From 32 bits on the shift is undefined.
read_length-wide : (bits len p : ℕ) (m : Memory) → 32 ≤ bits → read_length bits len p m ≡ none
unfolding read_length
read_length-wide bits len p [] wide = refl
read_length-wide bits len p (b ∷ m) wide = ground (arith, wide)

-- With `n` groups read at most, and no byte 0x80 among them, the loop has no result.
read_length-none :
    (n bits len p : ℕ) (m : Memory)
    → 32 ≤ bits + 7 * n
    → bits + 7 * n < 128
    → All (λ b. b ≢ 0x80) (take n m)
    → read_length bits len p m ≡ none
unfolding read_length
read_length-none zero bits len p m enough narrow other = read_length-wide bits len p m (omega arith)
read_length-none (suc n) bits len p [] enough narrow other = refl
read_length-none (suc n) bits len p (b ∷ m) enough narrow other =
    let group = bit_and b 0x7f * 2 ^ bits in
    let rest : read_length ((bits + 7) % 2 ^ 8) (bit_or len group) (p + 1) m ≡ none =
      read_length-none n ((bits + 7) % 2 ^ 8) (bit_or len group) (p + 1) m (omega arith)
        (omega arith) other.1 in
    ground (arith, rest, other.0)

-- The numbers that groups of seven bits stand for, the lowest first.
abbrev pub groups_value : List ℕ → ℕ
groups_value [] = 0
groups_value (g ∷ gs) = g % 128 + 128 * groups_value gs

seven : (k : ℕ) → 2 ^ (k + 7) ≡ 128 * 2 ^ k
seven zero = refl
seven (suc k) =
    ap (λ t. 2 ^ t) {y = suc (k + 7)} (omega arith)
    ∙ omega (arith, pow-suc 2 k, pow-suc 2 (k + 7), seven k)

positional : (len a c power : ℕ) → len + a * power + c * (128 * power) ≡ len + (a + 128 * c) * power
positional len a c power = omega arith

-- The loop on the groups `gs`, none of them the byte 0x80, with that byte behind them.
read_length-groups :
    (gs : List ℕ) (k len p : ℕ) (m : Memory)
    → k + length gs ≤ 4
    → len < 2 ^ (7 * k)
    → All (λ g. g ≢ 0x80) gs
    → read_length (7 * k) len p (gs ++ (0x80 ∷ m))
      ≡ some (len + groups_value gs * 2 ^ (7 * k), p + length gs + 1)
unfolding read_length
read_length-groups [] k len p m few fits other = ground (arith, bit_or_fields (7 * k) len 0 fits)
read_length-groups (g ∷ gs) k len p m few fits other =
    let low : bit_and g 0x7f ≡ g % 128 = bit_and-eq-mod 7 g in
    let bound : 2 ^ (7 * k) ≤ 2 ^ 21 =
      pow-le-pow_right {n = 2} (omega arith) {i = 7 * k} {j = 21} (omega arith) in
    let more : 2 ^ (7 * suc k) ≡ 128 * 2 ^ (7 * k) =
      ap (λ t. 2 ^ t) (omega arith) ∙ seven (7 * k) in
    let digit : g % 128 < 128 = omega arith in
    let product : g % 128 * 2 ^ (7 * k) ≤ 127 * 2 ^ (7 * k) =
      mul-le-mul_right (2 ^ (7 * k)) (omega arith) in
    let joined : bit_or len (g % 128 * 2 ^ (7 * k)) ≡ len + g % 128 * 2 ^ (7 * k) =
      bit_or_fields (7 * k) len (g % 128) fits in
    let next : (7 * k + 7) % 2 ^ 8 ≡ 7 * suc k = omega arith in
    let narrow : leb 32 (7 * k) ≡ false = ground arith in
    let small : leb (2 ^ 31) (g % 128 * 2 ^ (7 * k)) ≡ false = ground (arith, product, bound) in
    let rest =
      read_length-groups gs (suc k) (len + g % 128 * 2 ^ (7 * k)) (p + 1) m (omega arith)
        (omega (arith, more, product, fits)) other.1 in
    rw (low, joined, next, narrow, small, ne→== g 0x80 other.0, rest)
      (λ i. some (value i, pointer i))
  where
    value :
        len + g % 128 * 2 ^ (7 * k) + groups_value gs * 2 ^ (7 * suc k)
        ≡ len + (g % 128 + 128 * groups_value gs) * 2 ^ (7 * k)
    value =
        ap (λ t. len + g % 128 * 2 ^ (7 * k) + groups_value gs * t)
          (ap (λ t. 2 ^ t) (omega arith) ∙ seven (7 * k))
        ∙ positional len (g % 128) (groups_value gs) (2 ^ (7 * k))

    pointer : p + 1 + length gs + 1 ≡ p + suc (length gs) + 1
    pointer = omega arith

first_bytes :
    (s rest : List ℕ)
    → All (λ c. c < 128) s
    → 4 ≤ length s
    → length s < 128
    → All (λ b. b ≢ 0x80) (take 5 (length s ∷ (s ++ rest)))
first_bytes [] rest ascii enough few = absurd (omega arith)
first_bytes (a ∷ []) rest ascii enough few = absurd (omega arith)
first_bytes (a ∷ b ∷ []) rest ascii enough few = absurd (omega arith)
first_bytes (a ∷ b ∷ c ∷ []) rest ascii enough few = absurd (omega arith)
first_bytes (a ∷ b ∷ c ∷ d ∷ s) rest (ha, (hb, (hc, (hd, hs)))) enough few = (
  λ e. omega arith,
  (λ e. omega arith, (λ e. omega arith, (λ e. omega arith, (λ e. omega arith, tt)))),
)

module _ ⦃h : Headers⦄ ⦃j : JsonValues⦄ where
  -- A string whose length is not ended by a byte 0x80 within five bytes is not read: the shift
  -- becomes undefined, or the packet ends.
  read_string-unmarked :
      (m : Memory) (p : ℕ) → All (λ b. b ≢ 0x80) (take 5 (drop p m)) → read_string m p ≡ none
  unfolding read_string
  read_string-unmarked m p other =
      rw (read_length-none 5 0 0 p (drop p m) (omega arith) (omega arith) other) refl

  -- An ASCII text of 4 to 127 bytes in the encoding that MySQL documents (its type, its length in
  -- one byte, the text) is not read: `as_json` has no result.
  pub as_json-text :
      (s : List ℕ) (v : Value) (m : Memory) (p : ℕ) (rest : List ℕ)
      → All (λ c. c < 128) s
      → 4 ≤ length s
      → length s < 128
      → v.storage ≡ some p
      → drop p m ≡ text ∷ length s ∷ (s ++ rest)
      → as_json v m ≡ none
  unfolding as_json read_type read_by_type
  as_json-text s v m p rest ascii some_chars few stored at =
      let groups_only : read_string m (p + 1) ≡ none =
        read_string-unmarked m (p + 1)
          (rw (drop_next m p _ _ at) (first_bytes s rest ascii some_chars few)) in
      rw (stored, get_elem?-drop m p _ _ at, groups_only) refl

  -- A string behind a length that is written in up to four groups of seven bits, the lowest first,
  -- none of them the byte 0x80, and that such a byte ends, is read, with the pointer behind it.
  read_string-groups :
      (gs s : List ℕ) (m : Memory) (p : ℕ) (rest : List ℕ)
      → length gs ≤ 4
      → All (λ g. g ≢ 0x80) gs
      → groups_value gs ≡ length s
      → drop p m ≡ gs ++ (0x80 ∷ (s ++ rest))
      → read_string m p ≡ some (j.of_string s, p + length gs + 1 + length s)
  unfolding read_string
  read_string-groups gs s m p rest few other size at =
      let run = read_length-groups gs 0 0 p (s ++ rest) (omega arith) (omega arith) other in
      let behind : drop (p + length gs + 1) m ≡ s ++ rest =
        drop_next m (p + length gs) 0x80 (s ++ rest) (drop_past m p gs _ at) in
      let count : 0 + groups_value gs * 2 ^ (7 * 0) ≡ length s = omega (arith, size) in
      rw (at, run, count, behind, take_exact-append s rest) refl
