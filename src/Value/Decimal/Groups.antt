-- ===== src/Value/Decimal/Groups.antt =====
-- A group of digits of a NEWDECIMAL is read back.
use mysqlslave.Base.{
  ℕ, zero, suc, ◌+◌, ◌-◌, ◌*◌, ◌/◌, ◌%◌, ◌^◌, ◌≡◌, ◌≤◌, ◌<◌, refl, ap, ◌∙◌, arith, some, Bool,
  false, List, [], ◌∷◌, ◌++◌, All, ◌==◌, ◌⊎◌, inl, inr, take, drop, drop_past, take-append,
  length-drop, Bool-cases, length, if◌then◌else◌, ne→==,
}
use mysqlslave.Memory.{Memory, take_exact}
use mysqlslave.Memory.Endian.{take_exact-append}
use mysqlslave.Value.Decimal.{mi_sint_korr, flip_sign, masked, read_group}

-- The bytes of a group: the highest first, all inverted for a negative number.
abbrev pub be_bytes : ℕ → ℕ → List ℕ
be_bytes zero v = []
be_bytes (suc n) v = (v / 256 ^ n % 256) ∷ be_bytes n v

abbrev pub group_bytes : Bool → ℕ → ℕ → List ℕ
group_bytes negative width v = be_bytes width (if negative then 256 ^ width - 1 - v else v)

abbrev pub IsWidth : ℕ → Type 0
IsWidth w = (w ≡ 1) ⊎ ((w ≡ 2) ⊎ ((w ≡ 3) ⊎ (w ≡ 4)))

module _ (negative : Bool) (v : ℕ) where
  masked-group1 : v < 2 ^ 7 → masked negative (mi_sint_korr 1 (group_bytes negative 1 v)) ≡ v
  masked-group1 small = ground arith

  masked-group2 : v < 2 ^ 15 → masked negative (mi_sint_korr 2 (group_bytes negative 2 v)) ≡ v
  masked-group2 small = ground arith

  masked-group3 : v < 2 ^ 23 → masked negative (mi_sint_korr 3 (group_bytes negative 3 v)) ≡ v
  masked-group3 small = ground arith

  masked-group4 : v < 2 ^ 31 → masked negative (mi_sint_korr 4 (group_bytes negative 4 v)) ≡ v
  masked-group4 small = ground arith

masked-group :
    (negative : Bool) (w v : ℕ)
    → IsWidth w
    → v < 2 ^ (8 * w - 1)
    → masked negative (mi_sint_korr w (group_bytes negative w v)) ≡ v
masked-group negative w v (inl one) small = rw one (masked-group1 negative v (rw one at small))
masked-group negative w v (inr (inl two)) small =
    rw two (masked-group2 negative v (rw two at small))
masked-group negative w v (inr (inr (inl three))) small =
    rw three (masked-group3 negative v (rw three at small))
masked-group negative w v (inr (inr (inr four))) small =
    rw four (masked-group4 negative v (rw four at small))

-- The first bit flipped twice.
flip_sign_twice : (bs : List ℕ) → All (λ b. b < 256) bs → flip_sign (flip_sign bs) ≡ bs
flip_sign_twice [] bytes = refl
flip_sign_twice (b ∷ bs) bytes = ap (λ c. c ∷ bs) (ground (arith, bytes.0))

be_bytes-small : (n v : ℕ) → All (λ b. b < 256) (be_bytes n v)
be_bytes-small zero v = tt
be_bytes-small (suc n) v = (omega arith, be_bytes-small n v)

pub length-be_bytes : (n v : ℕ) → length (be_bytes n v) ≡ n
length-be_bytes zero v = refl
length-be_bytes (suc n) v = ap suc (length-be_bytes n v)

take_exact-take : (n : ℕ) (bs : List ℕ) → n ≤ length bs → take_exact n bs ≡ some (take n bs)
unfolding take_exact
take_exact-take zero bs fits = refl
take_exact-take (suc n) [] fits = absurd (omega arith)
take_exact-take (suc n) (b ∷ bs) fits = rw (take_exact-take n bs (omega arith)) refl

take-take : (a b : ℕ) (bs : List ℕ) → a ≤ b → take a (take b bs) ≡ take a bs
take-take zero b bs le = refl
take-take (suc a) zero bs le = absurd (omega arith)
take-take (suc a) (suc b) [] le = refl
take-take (suc a) (suc b) (c ∷ bs) le = ap (λ l. c ∷ l) (take-take a b bs (omega arith))

flip_sign-append :
    (bs rest : List ℕ) → 0 < length bs → flip_sign (bs ++ rest) ≡ flip_sign bs ++ rest
flip_sign-append [] rest some_bytes = absurd (omega arith)
flip_sign-append (b ∷ bs) rest some_bytes = refl

length-flip_sign : (bs : List ℕ) → length (flip_sign bs) ≡ length bs
length-flip_sign [] = refl
length-flip_sign (b ∷ bs) = refl

-- The bytes of a number that starts at `start`, from `p` on: the first bit of all is flipped.
abbrev pub IsStored : Memory → ℕ → ℕ → List ℕ → Type 0
IsStored m start p body = drop p m ≡ (if p == start then flip_sign body else body)

pub IsStored-next :
    (m : Memory) (start p : ℕ) (bs rest : List ℕ)
    → start ≤ p
    → 0 < length bs
    → IsStored m start p (bs ++ rest)
    → IsStored m start (p + length bs) rest
IsStored-next m start p bs rest behind some_bytes stored =
    let later : (p + length bs == start) ≡ false = ne→== (p + length bs) start (λ e. omega arith) in
    elim (Bool-cases (p == start)) [
      | inl first ↦ rw later (
          ap (λ n. drop (p + n) m) {y = length (flip_sign bs)} (omega (arith, length-flip_sign bs))
          ∙ drop_past m p (flip_sign bs) rest
              ((rw first at stored) ∙ flip_sign-append bs rest some_bytes))
      | inr other ↦ rw later (drop_past m p bs rest (rw other at stored))
    ]

pub width_some : (w : ℕ) → IsWidth w → 0 < w
width_some w width = ground (arith, width)

-- A group is read back, wherever it stands; for the first, four bytes are there.
pub read_group-stored :
    (negative : Bool) (w v : ℕ) (m : Memory) (start p : ℕ) (rest : List ℕ)
    → IsWidth w
    → v < 2 ^ (8 * w - 1)
    → start + 4 ≤ length m
    → IsStored m start p (group_bytes negative w v ++ rest)
    → read_group negative w m start p ≡ some v
unfolding read_group
read_group-stored negative w v m start p rest width small room stored =
    let x : ℕ = if negative then 256 ^ w - 1 - v else v in
    let g : List ℕ = be_bytes w x in
    let size = length-be_bytes w x in
    let back = masked-group negative w v width small in
    elim (Bool-cases (p == start)) [
      | inl first ↦
          let here : p ≡ start = ground (arith, first) in
          let read = take_exact-take 4 (drop p m) (omega (arith, length-drop p m)) in
          let at : drop p m ≡ flip_sign g ++ rest =
            (rw first at stored) ∙ flip_sign-append g rest (omega (arith, width_some w width)) in
          let cut : flip_sign (take w (take 4 (drop p m))) ≡ g =
            ap flip_sign (
              take-take w 4 (drop p m) (omega (arith, width))
              ∙ ap (take w) at
              ∙ ap (λ k. take k (flip_sign g ++ rest)) {y = length (flip_sign g)}
                  (omega (arith, length-flip_sign g))
              ∙ take-append (flip_sign g) rest)
            ∙ flip_sign_twice g (be_bytes-small w x) in
          rw (first, read, cut) (ap (λ (n : ℕ). some n) back)
      | inr other ↦
          let at : drop p m ≡ g ++ rest = rw other at stored in
          let read : take_exact w (drop p m) ≡ some g =
            ap (take_exact w) at
            ∙ ap (λ k. take_exact k (g ++ rest)) {y = length g} (omega arith)
            ∙ take_exact-append g rest in
          rw (other, read) (ap (λ (n : ℕ). some n) back)
    ]
