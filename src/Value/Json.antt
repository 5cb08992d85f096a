-- ===== src/Value/Json.antt =====
-- `CValue::as_json` of src/mysqlslave/value.cpp and the `_read_jsonb_…` functions that it calls. A
-- reader takes the packet and the pointer, and returns the pointer behind what it has read; `none`
-- is a read outside the packet or an undefined shift. Memory for the vectors is not counted. The
-- values of jsoncpp are the parameter `JsonValues`.
pub mod Calls
pub mod Blanks
pub mod Scalars
pub mod Strings
use mysqlslave.Base.{
  ℕ, zero, suc, ◌+◌, ◌*◌, ◌%◌, ◌^◌, Option, none, some, ◌>>=◌, Bool, true, false, ◌||◌, ◌&&◌, ltb,
  leb, ◌==◌, if◌then◌else◌, List, [], ◌∷◌, bit_and, bit_or, drop, replicate, length,
}
use mysqlslave.Base.Int.{pos, signed}
use mysqlslave.Memory.{Memory, Headers, load, load_bytes, uint_korr}
use mysqlslave.Value.{Value}
pub use mysqlslave.Value.JsonTypes.{
  JsonValues, small_object, large_object, small_array, large_array, literal, int16, uint16, int32,
  uint32, int64, uint64, double, text, literal_null, literal_true, literal_false,
}
use mysqlslave.Value.Numbers.{through}

-- The loop for the length of a string, on the bytes from the pointer on. The group of seven bits is
-- shifted as an `int`: a shift by 32 or more, or a result that does not fit, is undefined.
unfoldable pub read_length : ℕ → ℕ → ℕ → Memory → Option (ℕ × ℕ)
read_length bits len p [] = none
read_length bits len p (b ∷ m) =
    let group = bit_and b 0x7f * 2 ^ bits in
    let len' = bit_or len group in
    let rest = read_length ((bits + 7) % 2 ^ 8) len' (p + 1) m in
    if leb 32 bits || leb (2 ^ 31) group
    then none
    else if b == 0x80
    then some (len', p + 1)
    else rest

-- `_read_jsonb_inline_or_offset` and `_read_jsonb_array` share the width of a count.
abbrev pub count_width : Bool → ℕ
count_width large = if large then 4 else 2

module _ ⦃h : Headers⦄ ⦃j : JsonValues⦄ where
  -- What a reader returns, and the value-initialised `ValueOrOffset`.
  abbrev pub Read : Type 0
  Read = Option (j.Json × ℕ)

  pub record ValueOrOffset : Type 0 where
    pub ty : ℕ
    pub is_offset : Bool
    pub json_value : j.Json
    pub offset : ℕ

  abbrev pub blank : ValueOrOffset
  blank = record { ty = 0; is_offset = false; json_value = j.null_value; offset = 0 }

  -- An integer of `n` bytes, and the pointer behind it.
  abbrev pub read_number : ℕ → (ℕ → j.Json) → Memory → ℕ → Read
  read_number n make m p = uint_korr n m p >>= λ v. some (make v, p + n)

  abbrev pub literal_of : ℕ → j.Json
  literal_of n =
      if n == literal_null
      then j.null_value
      else if n == literal_false
      then j.of_bool false
      else if n == literal_true
      then j.of_bool true
      else j.null_value

  -- `_read_jsonb_inlined`
  unfoldable pub read_inlined : ℕ → Memory → ℕ → Read
  read_inlined ty m p =
      if ty == literal
      then read_number 2 literal_of m p
      else if ty == int16
      then read_number 2 (λ v. j.of_int (signed 16 v)) m p
      else if ty == uint16
      then read_number 2 (λ v. j.of_int (pos v)) m p
      else if ty == int32
      then read_number 4 (λ v. j.of_int64 (signed 32 v)) m p
      else if ty == uint32
      then read_number 4 j.of_uint64 m p
      else some (j.null_value, p)

  abbrev is_inlined : ℕ → Bool → Bool
  is_inlined ty large =
      ty == literal || ty == int16 || ty == uint16 || (ty == int32 || ty == uint32) && large

  -- `_read_jsonb_inline_or_offset`, which nothing calls any more.
  unfoldable pub read_inline_or_offset : Bool → Memory → ℕ → Option (ValueOrOffset × ℕ)
  unfolding read_inlined
  read_inline_or_offset large m p = load m p >>= λ ty.
      let inlined = read_inlined ty m (p + 1) >>= λ (v, q).
      some (record blank { ty = ty; json_value = v }, q) in
      let offset = uint_korr (count_width large) m (p + 1) >>= λ offset.
      some
        (record blank { ty = ty; is_offset = true; offset = offset }, p + 1 + count_width large) in
      if is_inlined ty large then inlined else offset

  -- `_read_jsonb_string`
  unfoldable pub read_string : Memory → ℕ → Read
  unfolding read_length
  read_string m p = read_length 0 0 p (drop p m) >>= λ (length, q).
      load_bytes length m q >>= λ s. some (j.of_string s, q + length)

  -- One element or member: an offset is read by `read`, which is `_read_jsonb_type`.
  abbrev read_element : (ℕ → Memory → ℕ → Read) → ValueOrOffset → Memory → ℕ → Read
  read_element read e m p = if e.is_offset then read e.ty m p else some (e.json_value, p)

  -- The loop that appends the elements of an array.
  unfoldable pub append_elements :
      (ℕ → Memory → ℕ → Read) → List ValueOrOffset → Memory → ℕ → j.Json → Read
  append_elements read [] m p value = some (value, p)
  append_elements read (e ∷ es) m p value =
      read_element read e m p >>= λ (v, q). append_elements read es m q (j.append value v)

  -- The size behind the count is passed over. The loop that would read the elements is empty.
  unfoldable pub read_array : (ℕ → Memory → ℕ → Read) → Bool → Memory → ℕ → Read
  unfolding append_elements
  read_array read large m p = uint_korr (count_width large) m p >>= λ n.
      append_elements read (replicate n blank) m (p + count_width large + count_width large)
        j.array_value

  -- The loop over the entries of the keys: an offset, which is not used, and the key's size.
  unfoldable pub read_key_sizes : ℕ → Bool → Memory → ℕ → Option (List ℕ × ℕ)
  read_key_sizes zero large m p = some ([], p)
  read_key_sizes (suc n) large m p = uint_korr (count_width large) m p >>= λ offset.
      uint_korr 2 m (p + count_width large) >>= λ size.
      read_key_sizes n large m (p + count_width large + 2) >>= λ (sizes, q). some (size ∷ sizes, q)

  -- The loop over the keys, from where the entries end.
  unfoldable pub read_keys : List ℕ → Memory → ℕ → Option (List (List ℕ) × ℕ)
  read_keys [] m p = some ([], p)
  read_keys (size ∷ sizes) m p = load_bytes size m p >>= λ key.
      read_keys sizes m (p + size) >>= λ (keys, q). some (key ∷ keys, q)

  -- The loop that sets the members, one `ValueOrOffset` for each key.
  unfoldable pub set_members :
      (ℕ → Memory → ℕ → Read) → List (List ℕ) → List ValueOrOffset → Memory → ℕ → j.Json → Read
  set_members read (key ∷ keys) (e ∷ es) m p value =
      read_element read e m p >>= λ (v, q). set_members read keys es m q (j.set_member value key v)
  set_members read _ _ m p value = some (value, p)

  unfoldable pub read_object : (ℕ → Memory → ℕ → Read) → Bool → Memory → ℕ → Read
  unfolding read_key_sizes read_keys set_members
  read_object read large m p = uint_korr (count_width large) m p >>= λ n.
      read_key_sizes n large m (p + count_width large + count_width large) >>= λ (sizes, q).
      read_keys sizes m q >>= λ (keys, q').
      set_members read keys (replicate n blank) m q' j.null_value

  -- The `switch` of `_read_jsonb_type`, whose recursive call is `read`.
  unfoldable pub read_by_type : (ℕ → Memory → ℕ → Read) → ℕ → Memory → ℕ → Read
  unfolding read_object read_array read_string
  read_by_type read ty m p =
      if ty == small_object
      then read_object read false m p
      else if ty == large_object
      then read_object read true m p
      else if ty == small_array
      then read_array read false m p
      else if ty == large_array
      then read_array read true m p
      else if ty == literal
      then read_number 2 literal_of m p
      else if ty == int16
      then read_number 2 (λ v. j.of_int (signed 16 v)) m p
      else if ty == uint16
      then read_number 2 (λ v. j.of_int (pos v)) m p
      else if ty == int32
      then read_number 4 (λ v. j.of_int64 (signed 32 v)) m p
      else if ty == uint32
      then read_number 4 j.of_uint64 m p
      else if ty == int64
      then read_number 8 (λ v. j.of_int64 (signed 64 v)) m p
      else if ty == uint64
      then read_number 8 j.of_uint64 m p
      else if ty == double
      then (load_bytes 8 m p >>= λ bs. some (j.of_double bs, p + 8))
      else if ty == text
      then read_string m p
      else some (j.null_value, p)

  -- `_read_jsonb_type`
  unfoldable pub read_type : ℕ → ℕ → Memory → ℕ → Read
  unfolding read_by_type
  read_type zero ty m p = none
  read_type (suc fuel) ty m p = read_by_type (read_type fuel) ty m p

  -- `as_json`, with fuel for as many nested calls as the packet has bytes.
  unfoldable pub as_json : Value → Memory → Option j.Json
  unfolding read_type
  as_json v m =
      through v.storage
        λ p. load m p >>= λ ty. read_type (suc (length m)) ty m (p + 1) >>= λ (value, q). some value
