-- ===== src/Value/Json/Calls.antt =====
-- `as_json` and `_read_jsonb_type`: the first byte, and the recursive call, which is never made.
use mysqlslave.Base.{
  ℕ, zero, suc, ◌+◌, ◌≡◌, refl, some, >>=-ext, List, [], ◌∷◌, length, drop, replicate,
  get_elem?-drop, Bool, true, false,
}
use mysqlslave.Memory.{Memory, Headers, uint_korr}
use mysqlslave.Value.{Value}
use mysqlslave.Value.Json.{
  JsonValues, Read, blank, count_width, append_elements, set_members, read_array, read_object,
  read_key_sizes, read_keys, read_by_type, read_type, as_json,
}

module _ ⦃h : Headers⦄ ⦃j : JsonValues⦄ where
  pub as_json-read :
      (ty q : ℕ) (value : j.Json) (v : Value) (m : Memory) (p : ℕ) (rest : List ℕ)
      → v.storage ≡ some p
      → drop p m ≡ ty ∷ rest
      → read_by_type (read_type (length m)) ty m (p + 1) ≡ some (value, q)
      → as_json v m ≡ some value
  unfolding as_json read_type
  as_json-read ty q value v m p rest stored at run =
      rw (stored, get_elem?-drop m p ty rest at, run) refl

  append_elements-blank_any :
      (read read' : ℕ → Memory → ℕ → Read) (n : ℕ) (m : Memory) (p : ℕ) (value : j.Json)
      → append_elements read (replicate n blank) m p value
        ≡ append_elements read' (replicate n blank) m p value
  unfolding append_elements
  append_elements-blank_any read read' zero m p value = refl
  append_elements-blank_any read read' (suc n) m p value =
      append_elements-blank_any read read' n m p (j.append value j.null_value)

  set_members-blank_any :
      (read read' : ℕ → Memory → ℕ → Read) (keys : List (List ℕ)) (n : ℕ) (m : Memory) (p : ℕ)
      (value : j.Json)
      → set_members read keys (replicate n blank) m p value
        ≡ set_members read' keys (replicate n blank) m p value
  unfolding set_members
  set_members-blank_any read read' [] n m p value = refl
  set_members-blank_any read read' (key ∷ keys) zero m p value = refl
  set_members-blank_any read read' (key ∷ keys) (suc n) m p value =
      set_members-blank_any read read' keys n m p (j.set_member value key j.null_value)

  read_array-any :
      (read read' : ℕ → Memory → ℕ → Read) (large : Bool) (m : Memory) (p : ℕ)
      → read_array read large m p ≡ read_array read' large m p
  unfolding read_array
  read_array-any read read' large m p = >>=-ext (uint_korr (count_width large) m p) _ _ λ n.
      append_elements-blank_any read read' n m (p + count_width large + count_width large)
        j.array_value

  read_object-any :
      (read read' : ℕ → Memory → ℕ → Read) (large : Bool) (m : Memory) (p : ℕ)
      → read_object read large m p ≡ read_object read' large m p
  unfolding read_object
  read_object-any read read' large m p = >>=-ext (uint_korr (count_width large) m p) _ _ λ n.
      >>=-ext (read_key_sizes n large m (p + count_width large + count_width large)) _ _ λ sizes.
        >>=-ext (read_keys (sizes.0) m (sizes.1)) _ _
          λ keys. set_members-blank_any read read' (keys.0) n m (keys.1) j.null_value

  read_by_type-any :
      (read read' : ℕ → Memory → ℕ → Read) (ty : ℕ) (m : Memory) (p : ℕ)
      → read_by_type read ty m p ≡ read_by_type read' ty m p
  unfolding read_by_type
  read_by_type-any read read' ty m p =
      rw
        (
          read_array-any read read' false m p,
          read_array-any read read' true m p,
          read_object-any read read' false m p,
          read_object-any read read' true m p,
        )
        refl

  -- However much fuel there is for nested calls, `_read_jsonb_type` returns what it returns with
  -- fuel for itself alone: no element and no member is read by a recursive call.
  pub read_type-fuel :
      (fuel ty : ℕ) (m : Memory) (p : ℕ) → read_type (suc fuel) ty m p ≡ read_type 1 ty m p
  unfolding read_type
  read_type-fuel fuel ty m p = read_by_type-any (read_type fuel) (read_type 0) ty m p
