-- ===== src/Memory/Endian.antt =====
-- Reading back what was written: little-endian numbers of any width, and the bounds of a read.
use mysqlslave.Base.{
  ℕ, zero, suc, ◌+◌, ◌/◌, ◌%◌, ◌^◌, ◌≤◌, ◌<◌, ◌≡◌, ◌≢◌, refl, sym, ap, ◌∙◌, arith,
}
use mysqlslave.Base.{List, [], ◌∷◌, ◌++◌, some, none, length, drop, All, length-drop, drop-add}
use mysqlslave.Memory.{Memory, Headers, little_endian, take_exact, uint_korr}
use native.Mathlib.Nat.{pow-suc}

abbrev pub IsByte : ℕ → Type 0
IsByte b = b < 256

-- The `n` bytes of `v`, the lowest first: what `intNstore` writes.
abbrev pub le_bytes : ℕ → ℕ → List ℕ
le_bytes zero v = []
le_bytes (suc n) v = (v % 256) ∷ le_bytes n (v / 256)

pub length-le_bytes : (n v : ℕ) → length (le_bytes n v) ≡ n
length-le_bytes zero v = refl
length-le_bytes (suc n) v = ap suc (length-le_bytes n (v / 256))

pub little_endian-le_bytes : (n v : ℕ) → v < 256 ^ n → little_endian (le_bytes n v) ≡ v
little_endian-le_bytes zero v h = omega arith
little_endian-le_bytes (suc n) v h =
    omega (arith, pow-suc 256 n, little_endian-le_bytes n (v / 256) (omega (arith, pow-suc 256 n)))

pub little_endian-lt : (bs : List ℕ) → All IsByte bs → little_endian bs < 256 ^ length bs
little_endian-lt [] h = omega arith
little_endian-lt (b ∷ bs) h = omega (arith, pow-suc 256 (length bs), little_endian-lt bs h.1)

pub take_exact-append : (bs m : List ℕ) → take_exact (length bs) (bs ++ m) ≡ some bs
unfolding take_exact
take_exact-append [] m = refl
take_exact-append (b ∷ bs) m = rw (take_exact-append bs m)

pub take_exact_total :
    (n : ℕ) (m : Memory)
    → n ≤ length m
    → (bs : List ℕ) × (take_exact n m ≡ some bs) × (length bs ≡ n)
unfolding take_exact
take_exact_total zero m h = ([], refl, refl)
take_exact_total (suc n) [] h = absurd (omega arith)
take_exact_total (suc n) (b ∷ m) h =
    let (bs, e, l) = take_exact_total n m (omega arith) in (b ∷ bs, rw e, ap suc l)

pub take_exact_short : (n : ℕ) (m : Memory) → length m < n → take_exact n m ≡ none
unfolding take_exact
take_exact_short zero m h = absurd (omega arith)
take_exact_short (suc n) [] h = refl
take_exact_short (suc n) (b ∷ m) h = rw (take_exact_short n m (omega arith))

module _ ⦃h : Headers⦄ where
  -- A read of `n` bytes at `p` is defined when they lie in the packet.
  pub uint_korr-ne_none : (n : ℕ) (m : Memory) (p : ℕ) → p + n ≤ length m → uint_korr n m p ≢ none
  unfolding uint_korr
  uint_korr-ne_none n m p fits =
      let (bs, e, l) = take_exact_total n (drop p m) (omega (arith, length-drop p m)) in
      rw e (λ q. cc)

  -- A read of the bytes of `v` gives `v`, whatever follows them.
  pub uint_korr-le_bytes :
      (n v : ℕ) (m : Memory) (p : ℕ) (rest : List ℕ)
      → drop p m ≡ le_bytes n v ++ rest
      → v < 256 ^ n
      → uint_korr n m p ≡ some v
  unfolding uint_korr
  uint_korr-le_bytes n v m p rest at fits =
      rw (at, taken) (ap some (h.korr_lem (le_bytes n v) ∙ little_endian-le_bytes n v fits))
    where
      taken : take_exact n (le_bytes n v ++ rest) ≡ some (le_bytes n v)
      taken =
          ap (λ k. take_exact k (le_bytes n v ++ rest)) (sym (length-le_bytes n v))
          ∙ take_exact-append (le_bytes n v) rest

  -- The same at an offset from an address behind which the packet is known to hold `block`.
  pub uint_korr-offset :
      (n v : ℕ) (m : Memory) (p off : ℕ) (block rest : List ℕ)
      → drop p m ≡ block
      → drop off block ≡ le_bytes n v ++ rest
      → v < 256 ^ n
      → uint_korr n m (p + off) ≡ some v
  uint_korr-offset n v m p off block rest at field fits =
      uint_korr-le_bytes n v m (p + off) rest (drop-add p off m ∙ ap (drop off) at ∙ field) fits
