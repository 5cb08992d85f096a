-- ===== src/Value/Sets/Members.antt =====
-- `as_set` with a description against the variants whose bits are set, in their order.
use mysqlslave.Base.{ℕ, zero, suc, ◌+◌, ◌/◌, ◌%◌, ◌^◌, ◌≤◌, ◌<◌, ◌≡◌, refl, sym, ap, arith}
use mysqlslave.Base.{List, [], ◌∷◌, ◌++◌, ◌==◌, if◌then◌else◌, length, drop, get_or}
use mysqlslave.Base.{drop_next, length-drop}
use mysqlslave.Base.Bits.{bit_and-eq-mod}
use mysqlslave.Value.Sets.{set_loop}
use native.Mathlib.Nat.{pow-suc}
use mathlib.Core.List.{append_assoc, append-nil}

-- The names whose bits are set in a mask, the first name at the lowest bit.
unfoldable pub chosen : List (List ℕ) → ℕ → List (List ℕ)
chosen [] mask = []
chosen (s ∷ rest) mask =
    let others = chosen rest (mask / 2) in if mask % 2 == 1 then s ∷ others else others

chosen-zero : (names : List (List ℕ)) → chosen names 0 ≡ []
unfolding chosen
chosen-zero [] = refl
chosen-zero (s ∷ rest) = chosen-zero rest

get_or-drop :
    (xs : List (List ℕ)) (p : ℕ) (b : List ℕ) (rest : List (List ℕ))
    → drop p xs ≡ b ∷ rest
    → get_or xs p [] ≡ b
get_or-drop [] zero b rest e = cc
get_or-drop [] (suc p) b rest e = cc
get_or-drop (x ∷ xs) zero b rest e = cc
get_or-drop (x ∷ xs) (suc p) b rest e = get_or-drop xs p b rest e

-- The loop from the variant `pos` on.
set_loop_from :
    (fuel : ℕ) (variants rest : List (List ℕ)) (mask pos : ℕ) (result : List (List ℕ))
    → drop pos variants ≡ rest
    → length rest ≤ fuel
    → mask < 2 ^ length rest
    → set_loop fuel variants mask pos result ≡ result ++ chosen rest mask
unfolding set_loop chosen
set_loop_from zero variants [] mask pos result at enough fits = sym (append-nil result)
set_loop_from zero variants (s ∷ rest) mask pos result at enough fits = absurd (omega arith)
set_loop_from (suc fuel) variants [] mask pos result at enough fits =
    ground (arith, append-nil result)
set_loop_from (suc fuel) variants (s ∷ rest) mask pos result at enough fits = ground (
  arith,
  pow-suc 2 (length rest),
  bit_and-eq-mod 1 mask,
  get_or-drop variants pos s rest at,
  length-drop pos variants,
  ap length at,
  chosen-zero rest,
  append-nil result,
  append_assoc result (s ∷ []) (chosen rest (mask / 2)),
  set_loop_from fuel variants rest (mask / 2) (pos + 1) (result ++ (s ∷ []))
      (drop_next variants pos s rest at),
  set_loop_from fuel variants rest (mask / 2) (pos + 1) result (drop_next variants pos s rest at),
)

-- For a mask that has no bit behind the variants, of at most 64, the loop finds the names whose
-- bits are set, in the order of the variants.
pub set_loop-chosen :
    (variants : List (List ℕ)) (mask : ℕ)
    → length variants ≤ 64
    → mask < 2 ^ length variants
    → set_loop 64 variants mask 0 [] ≡ chosen variants mask
set_loop-chosen variants mask few fits = set_loop_from 64 variants variants mask 0 [] refl few fits
