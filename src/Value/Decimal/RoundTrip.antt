-- ===== src/Value/Decimal/RoundTrip.antt =====
-- The four parts of `_init_decimal` on the groups of a number.
use mysqlslave.Base.{
  ℕ, zero, suc, ◌+◌, ◌-◌, ◌*◌, ◌^◌, ◌≡◌, ◌≤◌, ◌<◌, refl, ap, ◌∙◌, subst, arith, some, Bool, false,
  List, [], ◌∷◌, ◌++◌, All, ◌==◌, inl, inr, ltb, leb, length, if◌then◌else◌, le→ltb, ne→==,
}
use mysqlslave.Memory.{Memory}
use mysqlslave.Value.FieldSize.{dig2bytes}
use mysqlslave.Value.Decimal.{
  Decimal, decoded, push_integer, lead_group, integer_groups, fraction_groups, tail_group, shifted,
  read_group,
}
use mysqlslave.Value.Decimal.Groups.{
  group_bytes, IsWidth, IsStored, IsStored-next, read_group-stored, length-be_bytes, width_some,
}
use native.Mathlib.Nat.{pow-le-pow_right}
use mathlib.Core.List.{append_assoc, append-nil}
use mysqlslave.Value.Decimal.Number.{groups_bytes, pushes, push_onto-sign}

pub digits-IsWidth :
    (d : ℕ) → 0 < d → d < 9 → IsWidth (dig2bytes d) × (10 ^ d ≤ 2 ^ (8 * dig2bytes d - 1))
digits-IsWidth zero some_digits few = absurd (omega arith)
digits-IsWidth (suc zero) some_digits few = (inl refl, omega arith)
digits-IsWidth (suc (suc zero)) some_digits few = (inl refl, omega arith)
digits-IsWidth (suc (suc (suc zero))) some_digits few = (inr (inl refl), omega arith)
digits-IsWidth (suc (suc (suc (suc zero)))) some_digits few = (inr (inl refl), omega arith)
digits-IsWidth (suc (suc (suc (suc (suc zero))))) some_digits few =
    (inr (inr (inl refl)), omega arith)
digits-IsWidth (suc (suc (suc (suc (suc (suc zero)))))) some_digits few =
    (inr (inr (inl refl)), omega arith)
digits-IsWidth (suc (suc (suc (suc (suc (suc (suc zero))))))) some_digits few =
    (inr (inr (inr refl)), omega arith)
digits-IsWidth (suc (suc (suc (suc (suc (suc (suc (suc zero)))))))) some_digits few =
    (inr (inr (inr refl)), omega arith)
digits-IsWidth (suc (suc (suc (suc (suc (suc (suc (suc (suc d))))))))) some_digits few =
    absurd (omega arith)

-- The last group fits nine digits when it is shifted.
shifted-digits :
    (d v : ℕ)
    → 0 < d
    → d < 9
    → v < 10 ^ d
    → (shifted d v ≡ some (v * 10 ^ (9 - d))) × (v * 10 ^ (9 - d) < 10 ^ 9)
shifted-digits zero v some_digits few fits = absurd (omega arith)
shifted-digits (suc zero) v some_digits few fits = (ground arith, omega arith)
shifted-digits (suc (suc zero)) v some_digits few fits = (ground arith, omega arith)
shifted-digits (suc (suc (suc zero))) v some_digits few fits = (ground arith, omega arith)
shifted-digits (suc (suc (suc (suc zero)))) v some_digits few fits = (ground arith, omega arith)
shifted-digits (suc (suc (suc (suc (suc zero))))) v some_digits few fits =
    (ground arith, omega arith)
shifted-digits (suc (suc (suc (suc (suc (suc zero)))))) v some_digits few fits =
    (ground arith, omega arith)
shifted-digits (suc (suc (suc (suc (suc (suc (suc zero))))))) v some_digits few fits =
    (ground arith, omega arith)
shifted-digits (suc (suc (suc (suc (suc (suc (suc (suc zero)))))))) v some_digits few fits =
    (ground arith, omega arith)
shifted-digits (suc (suc (suc (suc (suc (suc (suc (suc (suc d))))))))) v some_digits few fits =
    absurd (omega arith)

module _ (m : Memory) (start : ℕ) (room : start + 4 ≤ length m) where
  -- What is left behind a group.
  group_behind :
      (negative : Bool) (w v p : ℕ) (rest : List ℕ)
      → 0 < w
      → start ≤ p
      → IsStored m start p (group_bytes negative w v ++ rest)
      → IsStored m start (p + w) rest
  group_behind negative w v p rest some_bytes behind stored =
      let size = length-be_bytes w (if negative then 256 ^ w - 1 - v else v) in
      subst (λ k. IsStored m start (p + k) rest) size
        (IsStored-next m start p (group_bytes negative w v) rest behind (omega arith) stored)

  pub integer_groups-IsStored :
      (vs : List ℕ) (negative : Bool) (p : ℕ) (rest : List ℕ) (d : Decimal)
      → d.sign ≡ negative
      → start ≤ p
      → All (λ v. v < 10 ^ 9) vs
      → IsStored m start p (groups_bytes negative vs ++ rest)
      → (integer_groups (length vs) m start p d ≡ some (decoded (p + 4 * length vs, pushes vs d)))
        × IsStored m start (p + 4 * length vs) rest
  unfolding integer_groups
  integer_groups-IsStored [] negative p rest d sign behind fits stored =
      let here : p + 0 ≡ p = omega arith in rw here (refl, stored)
  integer_groups-IsStored (v ∷ vs) negative p rest d sign behind fits stored =
      let at =
        subst (IsStored m start p)
          (append_assoc (group_bytes negative 4 v) (groups_bytes negative vs) rest) stored in
      let read =
        read_group-stored negative 4 v m start p (groups_bytes negative vs ++ rest)
          (inr (inr (inr refl))) (omega (arith, fits.0)) room at in
      let read_d = ap (λ b. read_group b 4 m start p) sign ∙ read in
      let small : ltb (10 ^ 9 - 1) v ≡ false = le→ltb (10 ^ 9 - 1) v (omega (arith, fits.0)) in
      let next : p + 4 * suc (length vs) ≡ p + 4 + 4 * length vs = omega arith in
      let (ran, left) =
        integer_groups-IsStored vs negative (p + 4) rest (push_integer 9 v d)
          (push_onto-sign d.buf 9 v d ∙ sign) (omega arith) fits.1
          (group_behind negative 4 v p (groups_bytes negative vs ++ rest) (omega arith) behind
            at) in
      rw (next, read_d, small) (ran, left)

  pub fraction_groups-IsStored :
      (vs : List ℕ) (p : ℕ) (rest : List ℕ) (d : Decimal)
      → start ≤ p
      → All (λ v. v < 10 ^ 9) vs
      → IsStored m start p (groups_bytes d.sign vs ++ rest)
      → (fraction_groups (length vs) m start p d
          ≡ some (decoded (p + 4 * length vs, record d { buf = d.buf ++ vs })))
        × IsStored m start (p + 4 * length vs) rest
  unfolding fraction_groups
  fraction_groups-IsStored [] p rest d behind fits stored =
      let here : p + 0 ≡ p = omega arith in rw (here, append-nil d.buf) (refl, stored)
  fraction_groups-IsStored (v ∷ vs) p rest d behind fits stored =
      let at =
        subst (IsStored m start p)
          (append_assoc (group_bytes d.sign 4 v) (groups_bytes d.sign vs) rest) stored in
      let read =
        read_group-stored d.sign 4 v m start p (groups_bytes d.sign vs ++ rest)
          (inr (inr (inr refl))) (omega (arith, fits.0)) room at in
      let small : ltb (10 ^ 9 - 1) v ≡ false = le→ltb (10 ^ 9 - 1) v (omega (arith, fits.0)) in
      let next : p + 4 * suc (length vs) ≡ p + 4 + 4 * length vs = omega arith in
      let (ran, left) =
        fraction_groups-IsStored vs (p + 4) rest (record d { buf = d.buf ++ (v ∷ []) })
          (omega arith) fits.1
          (group_behind d.sign 4 v p (groups_bytes d.sign vs ++ rest) (omega arith) behind at) in
      rw (next, read, small)
        (
          ran
              ∙ ap (λ l. some (decoded (p + 4 + 4 * length vs, record d { buf = l })))
                  (append_assoc d.buf (v ∷ []) vs),
          left,
        )

module _ (m : Memory) (start : ℕ) (room : start + 4 ≤ length m) where
  -- The last group.
  pub tail_group-stored :
      (digits v p : ℕ) (rest : List ℕ) (d : Decimal)
      → digits < 9
      → v < 10 ^ digits
      → start ≤ p
      → IsStored m start p (group_bytes d.sign (dig2bytes digits) v ++ rest)
      → tail_group digits m start p d
        ≡ some (
            decoded (record d {
              buf = d.buf ++ (if digits == 0 then [] else v * 10 ^ (9 - digits) ∷ []);
            }))
  unfolding tail_group
  tail_group-stored zero v p rest d few fits behind stored = rw (append-nil d.buf) refl
  tail_group-stored (suc k) v p rest d few fits behind stored =
      let (width, bound) = digits-IsWidth (suc k) (omega arith) few in
      let read =
        read_group-stored d.sign (dig2bytes (suc k)) v m start p rest width (omega arith) room
          stored in
      let (product, fits_nine) = shifted-digits (suc k) v (omega arith) few fits in
      let small : ltb (10 ^ 9 - 1) (v * 10 ^ (9 - suc k)) ≡ false = le→ltb _ _ (omega arith) in
      let some_digits : (suc k == 0) ≡ false = ne→== (suc k) 0 (λ e. omega arith) in
      rw (some_digits, read, product, small) refl

  -- The first group: its digits, or none if it is zero.
  pub lead_group-IsStored :
      (digits v p : ℕ) (rest : List ℕ) (d : Decimal)
      → digits < 9
      → v < 10 ^ digits
      → start ≤ p
      → IsStored m start p (group_bytes d.sign (dig2bytes digits) v ++ rest)
      → (lead_group digits m start p d
          ≡ some
              (decoded (p + dig2bytes digits, if digits == 0 then d else push_integer digits v d)))
        × IsStored m start (p + dig2bytes digits) rest
  unfolding lead_group
  lead_group-IsStored zero v p rest d few fits behind stored =
      let here : p + 0 ≡ p = omega arith in rw here (refl, stored)
  lead_group-IsStored (suc k) v p rest d few fits behind stored =
      let (width, bound) = digits-IsWidth (suc k) (omega arith) few in
      let read =
        read_group-stored d.sign (dig2bytes (suc k)) v m start p rest width (omega arith) room
          stored in
      let more : 10 ^ suc k ≤ 10 ^ (suc k + 1) = pow-le-pow_right (omega arith) (omega arith) in
      let big : leb (10 ^ (suc k + 1)) v ≡ false = ground (arith, fits, more) in
      let some_digits : (suc k == 0) ≡ false = ne→== (suc k) 0 (λ e. omega arith) in
      rw (some_digits, read, big)
        (
          refl,
          group_behind m start room d.sign (dig2bytes (suc k)) v p rest
              (width_some (dig2bytes (suc k)) width) behind stored,
        )
