-- ===== src/Base/Dict.antt =====
-- Maps as association lists, by a test that says when two keys are one. `std::map` with the order
-- `CCaseIgnorer` takes two names for one key when neither comes before the other.
use mysqlslave.Base.Tests.{if◌then◌else◌, ◌==◌, leb}
use Prim.Native.Nat.{ℕ, ◌+◌}
use mathlib.Core.Path.{◌≡◌, refl, sym, ◌∙◌}
use mathlib.Core.Logic.{◌≢◌}
use mathlib.Core.Bool.{Bool, true, false, ◌&&◌}
use mathlib.Core.Option.{Option, none, some}
use mathlib.Core.List.{List, [], ◌∷◌}
use native.Mathlib.Omega.{arith}

abbrev pub Dict {ℓ κ} : Type ℓ → Type κ → Type (ℓ ⊔ κ)
Dict K V = List (K × V)

-- What the maps need of their test.
pub record IsKey {ℓ} {K : Type ℓ} (same : K → K → Bool) : Type ℓ where
  pub same_refl : (a : K) → same a a ≡ true
  pub same_left : (a b c : K) → same a b ≡ true → same a c ≡ same b c

module _ {ℓ κ} {K : Type ℓ} {V : Type κ} (same : K → K → Bool) where
  -- `find`
  unfoldable pub lookup : K → Dict K V → Option V
  lookup k [] = none
  lookup k ((j, v) ∷ d) = if same j k then some v else lookup k d

  -- `d[k] = v`: an entry keeps the spelling of its first key.
  unfoldable pub insert : K → V → Dict K V → Dict K V
  insert k v [] = (k, v) ∷ []
  insert k v ((j, w) ∷ d) = if same j k then (j, v) ∷ d else (j, w) ∷ insert k v d

  -- No key is lost by an insertion.
  pub lookup-insert_stays :
      (k j : K) (v : V) (d : Dict K V) → lookup j d ≢ none → lookup j (insert k v d) ≢ none
  unfolding lookup insert
  lookup-insert_stays k j v [] there = ground (arith, there)
  lookup-insert_stays k j v ((i, w) ∷ d) there = ground (arith, there, lookup-insert_stays k j v d)

module _ {ℓ} {K : Type ℓ} (same : K → K → Bool) (key : IsKey same) where
  same_sym : (a b : K) → same a b ≡ true → same b a ≡ true
  same_sym a b h = sym (key.same_left a b a h) ∙ key.same_refl a

  same_right : (a b c : K) → same a b ≡ true → same c a ≡ same c b
  same_right a b c h = ground (arith, key.same_left c a b, key.same_left c b a, same_sym a b h)

module _ {ℓ κ} {K : Type ℓ} {V : Type κ} (same : K → K → Bool) (key : IsKey same) where
  pub lookup-insert_self :
      (k : K) (v : V) (d : Dict K V) → lookup same k (insert same k v d) ≡ some v
  unfolding lookup insert
  lookup-insert_self k v [] = ground (arith, key.same_refl k)
  lookup-insert_self k v ((j, w) ∷ d) = ground (arith, lookup-insert_self k v d)

  -- Two spellings of one key find one entry.
  pub lookup-same : (a b : K) (d : Dict K V) → same a b ≡ true → lookup same a d ≡ lookup same b d
  unfolding lookup
  lookup-same a b [] h = refl
  lookup-same a b ((j, v) ∷ d) h = ground (arith, same_right same key a b j h, lookup-same a b d h)

  pub lookup-insert_same :
      (k j : K) (v : V) (d : Dict K V)
      → same k j ≡ true
      → lookup same j (insert same k v d) ≡ some v
  lookup-insert_same k j v d h =
      sym (lookup-same k j (insert same k v d) h) ∙ lookup-insert_self k v d

  pub lookup-insert_other :
      (k j : K) (v : V) (d : Dict K V)
      → same k j ≡ false
      → lookup same j (insert same k v d) ≡ lookup same j d
  unfolding lookup insert
  lookup-insert_other k j v [] h = ground arith
  lookup-insert_other k j v ((i, w) ∷ d) h =
      ground (arith, lookup-insert_other k j v d h, key.same_left i k j)

-- ASCII letters of either case are one, as `strcasecmp` has it in the C locale.
abbrev pub lower : ℕ → ℕ
lower c = if leb b'A' c && leb c b'Z' then c + 32 else c

-- `strcasecmp(a.c_str(), b.c_str()) == 0`: a NUL ends a name.
unfoldable pub same_name : List ℕ → List ℕ → Bool
same_name [] [] = true
same_name [] (b ∷ t) = b == 0
same_name (a ∷ s) [] = a == 0
same_name (a ∷ s) (b ∷ t) =
    let rest = same_name s t in
    if lower a == lower b then (if a == 0 then true else rest) else false

same_name_refl : (a : List ℕ) → same_name a a ≡ true
unfolding same_name
same_name_refl [] = refl
same_name_refl (c ∷ s) = ground (arith, same_name_refl s)

same_name_left : (a b c : List ℕ) → same_name a b ≡ true → same_name a c ≡ same_name b c
unfolding same_name
same_name_left [] [] c h = refl
same_name_left [] (b ∷ t) [] h = ground arith
same_name_left [] (b ∷ t) (c ∷ u) h = ground arith
same_name_left (a ∷ s) [] [] h = ground arith
same_name_left (a ∷ s) [] (c ∷ u) h = ground arith
same_name_left (a ∷ s) (b ∷ t) [] h = ground arith
same_name_left (a ∷ s) (b ∷ t) (c ∷ u) h = ground (arith, same_name_left s t u)

pub same_name-IsKey : IsKey same_name
same_name-IsKey = record { same_refl = same_name_refl; same_left = same_name_left }

nat_same_refl : (a : ℕ) → (a == a) ≡ true
nat_same_refl a = ground arith

nat_same_left : (a b c : ℕ) → (a == b) ≡ true → (a == c) ≡ (b == c)
nat_same_left a b c h = ground arith

pub nat-IsKey : IsKey ◌==◌
nat-IsKey = record { same_refl = nat_same_refl; same_left = nat_same_left }
