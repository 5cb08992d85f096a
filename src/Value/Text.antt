-- ===== src/Value/Text.antt =====
-- `as_string` into a given string, and `as_blob`, of src/mysqlslave/value.cpp.
use mysqlslave.Base.{ℕ, Option, none, some, not, ◌||◌, ltb, List, [], if◌then◌else◌}
use mysqlslave.Memory.{Memory, load_bytes}
use mysqlslave.Value.Types.{ColumnType}
use mysqlslave.Value.{Value, is_null, is_valid}

-- The `switch` of `as_string(size_t*)`.
abbrev pub text_of : ColumnType → Value → Option ℕ × ℕ
text_of ColumnType.string v = (v.storage, v.size)
text_of ColumnType.varchar v = (v.storage, v.size)
text_of ColumnType.blob v = (v.storage, v.size)
text_of _ v = (none, 0)

-- The pointer that is returned, and `*length`.
unfoldable pub string_view : Value → Option ℕ × ℕ
string_view v = if is_null v || not (is_valid v) then (none, 0) else text_of v.ty v

-- `as_blob`
unfoldable pub blob_view : Value → Option ℕ × ℕ
blob_view v = if is_null v || not (is_valid v) then (none, 0) else (v.storage, v.size)

-- `dst.assign(cstr, len)` or `dst.clear()`.
abbrev pub assign_view : Option ℕ × ℕ → Memory → Option (List ℕ)
assign_view (none, len) m = some []
assign_view (some p, len) m = if ltb 0 len then load_bytes len m p else some []

-- `as_string(std::string&)`
unfoldable pub as_string : Value → Memory → Option (List ℕ)
unfolding string_view
as_string v m = assign_view (string_view v) m
