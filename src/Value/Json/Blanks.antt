-- ===== src/Value/Json/Blanks.antt =====
-- The elements of arrays and the members of objects, none of which is read.
use mysqlslave.Base.{
  ℕ, zero, suc, ◌+◌, ◌^◌, ◌<◌, ◌≡◌, refl, sym, ap, ◌∙◌, some, Bool, true, false, if◌then◌else◌,
  List, [], ◌∷◌, ◌++◌, All, length, drop, replicate, drop_next, drop_past,
}
use mathlib.Core.List.{append_assoc}
use mysqlslave.Memory.{Memory, Headers}
use mysqlslave.Memory.Endian.{le_bytes, length-le_bytes, take_exact-append, uint_korr-le_bytes}
use mysqlslave.Value.{Value}
use mysqlslave.Value.Json.Calls.{as_json-read}
use mysqlslave.Value.Json.{
  JsonValues, Read, blank, count_width, small_object, large_object, small_array, large_array,
  append_elements, read_array, read_key_sizes, read_keys, set_members, read_object, read_by_type,
  read_type, as_json,
}

-- The count, and the size that follows it, at the start of an array or an object.
abbrev pub counts : Bool → ℕ → ℕ → List ℕ
counts large n size = le_bytes (count_width large) n ++ le_bytes (count_width large) size

-- The entry of a key: where it is, and its size.
abbrev pub key_entries : Bool → List (ℕ × List ℕ) → List ℕ
key_entries large [] = []
key_entries large ((offset, key) ∷ keys) =
    le_bytes (count_width large) offset ++ (le_bytes 2 (length key) ++ key_entries large keys)

abbrev pub key_bytes : List (ℕ × List ℕ) → List ℕ
key_bytes [] = []
key_bytes ((offset, key) ∷ keys) = key ++ key_bytes keys

abbrev pub IsKey : Bool → ℕ × List ℕ → Type 0
IsKey large (offset, key) = (offset < 256 ^ count_width large) × (length key < 256 ^ 2)

module _ ⦃h : Headers⦄ ⦃j : JsonValues⦄ where
  -- `null` appended `n` times, and `null` as the value of every key.
  abbrev pub append_nulls : ℕ → j.Json → j.Json
  append_nulls zero value = value
  append_nulls (suc n) value = append_nulls n (j.append value j.null_value)

  abbrev pub set_nulls : List (ℕ × List ℕ) → j.Json → j.Json
  set_nulls [] value = value
  set_nulls ((offset, key) ∷ keys) value = set_nulls keys (j.set_member value key j.null_value)

  abbrev texts : List (ℕ × List ℕ) → List (List ℕ)
  texts [] = []
  texts ((offset, key) ∷ keys) = key ∷ texts keys

  abbrev sizes : List (ℕ × List ℕ) → List ℕ
  sizes [] = []
  sizes ((offset, key) ∷ keys) = length key ∷ sizes keys

  pub append_elements-blank :
      (read : ℕ → Memory → ℕ → Read) (n : ℕ) (m : Memory) (p : ℕ) (value : j.Json)
      → append_elements read (replicate n blank) m p value ≡ some (append_nulls n value, p)
  unfolding append_elements
  append_elements-blank read zero m p value = refl
  append_elements-blank read (suc n) m p value =
      append_elements-blank read n m p (j.append value j.null_value)

  set_members-blank :
      (read : ℕ → Memory → ℕ → Read) (keys : List (ℕ × List ℕ)) (m : Memory) (p : ℕ)
      (value : j.Json)
      → set_members read (texts keys) (replicate (length keys) blank) m p value
        ≡ some (set_nulls keys value, p)
  unfolding set_members
  set_members-blank read [] m p value = refl
  set_members-blank read ((offset, key) ∷ keys) m p value =
      set_members-blank read keys m p (j.set_member value key j.null_value)

  -- Past a number of `n` bytes.
  drop_number :
      (n v : ℕ) (m : Memory) (p : ℕ) (rest : List ℕ)
      → drop p m ≡ le_bytes n v ++ rest
      → drop (p + n) m ≡ rest
  drop_number n v m p rest at =
      ap (λ k. drop (p + k) m) (sym (length-le_bytes n v)) ∙ drop_past m p (le_bytes n v) rest at

  read_keys-bytes :
      (keys : List (ℕ × List ℕ)) (m : Memory) (p : ℕ) (rest : List ℕ)
      → drop p m ≡ key_bytes keys ++ rest
      → (q : ℕ) × (read_keys (sizes keys) m p ≡ some (texts keys, q))
  unfolding read_keys
  read_keys-bytes [] m p rest at = (p, refl)
  read_keys-bytes ((offset, key) ∷ keys) m p rest at =
      let here = at ∙ append_assoc key (key_bytes keys) rest in
      let (q, run) = read_keys-bytes keys m (p + length key) rest (drop_past m p key _ here) in
      (q, rw (here, take_exact-append key (key_bytes keys ++ rest), run) refl)

  read_key_sizes-entries :
      (large : Bool) (keys : List (ℕ × List ℕ)) (m : Memory) (p : ℕ) (rest : List ℕ)
      → All (IsKey large) keys
      → drop p m ≡ key_entries large keys ++ rest
      → (q : ℕ) × (read_key_sizes (length keys) large m p ≡ some (sizes keys, q))
        × (drop q m ≡ rest)
  unfolding read_key_sizes
  read_key_sizes-entries large [] m p rest valid at = (p, refl, at)
  read_key_sizes-entries large ((offset, key) ∷ keys) m p rest valid at =
      let w = count_width large in
      let at_offset =
        at
        ∙ append_assoc (le_bytes w offset) (le_bytes 2 (length key) ++ key_entries large keys) rest
        ∙ ap (λ l. le_bytes w offset ++ l)
            (append_assoc (le_bytes 2 (length key)) (key_entries large keys) rest) in
      let at_size = drop_number w offset m p _ at_offset in
      let at_keys = drop_number 2 (length key) m (p + w) _ at_size in
      let (q, run, behind) = read_key_sizes-entries large keys m (p + w + 2) rest valid.1 at_keys in
      (
        q,
        rw
            (
              uint_korr-le_bytes w offset m p _ at_offset valid.0.0,
              uint_korr-le_bytes 2 (length key) m (p + w) _ at_size valid.0.1,
              run,
            )
            refl,
        behind,
      )

  -- What the switch of `_read_jsonb_type` does with an array and an object.
  read_array-nulls :
      (read : ℕ → Memory → ℕ → Read) (large : Bool) (n size : ℕ) (m : Memory) (p : ℕ)
      (rest : List ℕ)
      → n < 256 ^ count_width large
      → drop p m ≡ counts large n size ++ rest
      → (q : ℕ) × (read_array read large m p ≡ some (append_nulls n j.array_value, q))
  unfolding read_array
  read_array-nulls read large n size m p rest fits at =
      let w = count_width large in
      let at_count = at ∙ append_assoc (le_bytes w n) (le_bytes w size) rest in
      (
        p + w + w,
        rw (uint_korr-le_bytes w n m p _ at_count fits)
            (append_elements-blank read n m (p + w + w) j.array_value),
      )

  read_object-nulls :
      (read : ℕ → Memory → ℕ → Read) (large : Bool) (keys : List (ℕ × List ℕ)) (size : ℕ)
      (m : Memory) (p : ℕ) (rest : List ℕ)
      → length keys < 256 ^ count_width large
      → All (IsKey large) keys
      → drop p m
        ≡ counts large (length keys) size ++ (key_entries large keys ++ (key_bytes keys ++ rest))
      → (q : ℕ) × (read_object read large m p ≡ some (set_nulls keys j.null_value, q))
  unfolding read_object
  read_object-nulls read large keys size m p rest fits valid at =
      let w = count_width large in
      let at_count = at ∙ append_assoc (le_bytes w (length keys)) (le_bytes w size) _ in
      let at_entries =
        drop_number w size m (p + w) _ (drop_number w (length keys) m p _ at_count) in
      let (q, sizes_read, at_keys) =
        read_key_sizes-entries large keys m (p + w + w) _ valid at_entries in
      let (q', keys_read) = read_keys-bytes keys m q rest at_keys in
      (
        q',
        rw (uint_korr-le_bytes w (length keys) m p _ at_count fits, sizes_read, keys_read)
            (set_members-blank read keys m q' j.null_value),
      )

  -- An array of `n` elements, small or large, decodes to `n` times `null`, whatever bytes follow
  -- its count and its size.
  pub as_json-array :
      (large : Bool) (n size : ℕ) (v : Value) (m : Memory) (p : ℕ) (rest : List ℕ)
      → v.storage ≡ some p
      → n < 256 ^ count_width large
      → drop p m ≡ (if large then large_array else small_array) ∷ (counts large n size ++ rest)
      → as_json v m ≡ some (append_nulls n j.array_value)
  unfolding read_by_type
  as_json-array true n size v m p rest stored fits at =
      let at_counts = drop_next m p _ _ at in
      let (q, run) =
        read_array-nulls (read_type (length m)) true n size m (p + 1) rest fits at_counts in
      as_json-read large_array q _ v m p _ stored at run
  as_json-array false n size v m p rest stored fits at =
      let at_counts = drop_next m p _ _ at in
      let (q, run) =
        read_array-nulls (read_type (length m)) false n size m (p + 1) rest fits at_counts in
      as_json-read small_array q _ v m p _ stored at run

  -- An object, small or large, whose keys stand right behind the entries of the keys, decodes to
  -- what setting each of them, in their order, to `null` makes of the value `null`: the values are
  -- not read, the keys are looked for where MySQL has the entries of the values, and the object with
  -- no key decodes to `null`.
  pub as_json-object :
      (large : Bool) (keys : List (ℕ × List ℕ)) (size : ℕ) (v : Value) (m : Memory) (p : ℕ)
      (rest : List ℕ)
      → v.storage ≡ some p
      → length keys < 256 ^ count_width large
      → All (IsKey large) keys
      → drop p m
        ≡ (if large then large_object else small_object)
          ∷ (counts large (length keys) size
              ++ (key_entries large keys ++ (key_bytes keys ++ rest)))
      → as_json v m ≡ some (set_nulls keys j.null_value)
  unfolding read_by_type
  as_json-object true keys size v m p rest stored fits valid at =
      let at_counts = drop_next m p _ _ at in
      let (q, run) =
        read_object-nulls (read_type (length m)) true keys size m (p + 1) rest fits valid
          at_counts in
      as_json-read large_object q _ v m p _ stored at run
  as_json-object false keys size v m p rest stored fits valid at =
      let at_counts = drop_next m p _ _ at in
      let (q, run) =
        read_object-nulls (read_type (length m)) false keys size m (p + 1) rest fits valid
          at_counts in
      as_json-read small_object q _ v m p _ stored at run
