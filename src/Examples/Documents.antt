-- ===== src/Examples/Documents.antt =====
-- JSON documents on concrete bytes, with a tree in place of jsoncpp's values.
use mysqlslave.Base.{ℕ, ◌≡◌, refl, arith, none, some, true, false, Bool, List, [], ◌∷◌}
use mysqlslave.Base.Int.{ℤ, negsuc}
use mysqlslave.Base.Texts.{codes}
use mysqlslave.Memory.{Memory, take_exact}
use mysqlslave.Value.{Value}
use mysqlslave.Value.Types.{ColumnType}
use mysqlslave.Value.JsonTypes.{JsonValues}
use mysqlslave.Value.Json.{read_type, read_string, read_length, as_json}
use mysqlslave.Value.Json.Scalars.{number, number32, of_literal, truth, as_json-scalar}
use mysqlslave.Value.Json.Blanks.{as_json-array, as_json-object}
use mysqlslave.Value.Json.Strings.{as_json-text}
use mysqlslave.Value.Json.Calls.{read_type-fuel}
use mysqlslave.Examples.{client_headers}

pub data Doc : Type 0 where
  null_doc array_doc : Doc
  bool_doc : Bool → Doc
  int_doc : ℤ → Doc
  uint_doc : ℕ → Doc
  double_doc string_doc : List ℕ → Doc
  append_doc : Doc → Doc → Doc
  member_doc : Doc → List ℕ → Doc → Doc

instance abbrev pub tree_values : JsonValues
tree_values = record {
  Json = Doc;
  null_value = null_doc;
  of_bool = bool_doc;
  of_int = int_doc;
  of_int64 = int_doc;
  of_uint64 = uint_doc;
  of_double = double_doc;
  of_string = string_doc;
  array_value = array_doc;
  append = append_doc;
  set_member = member_doc;
}

-- A JSON column whose value starts at the start of the packet.
abbrev json_column : ℕ → Value
json_column size = record {
  ty = ColumnType.json;
  storage = some 0;
  size = size;
  metadata = 4;
  null_flag = false;
  pos = 0;
}

-- `true`, with the first byte of another column behind it.
as_json-scalar_example : as_json (json_column 2) (4 ∷ 1 ∷ 7 ∷ []) ≡ some null_doc
as_json-scalar_example =
    as_json-scalar (of_literal (truth true)) (json_column 2) (4 ∷ 1 ∷ 7 ∷ []) 0 (7 ∷ []) tt refl
      refl

-- The INT32 -2.
abbrev minus_two : Memory
minus_two = 7 ∷ 254 ∷ 255 ∷ 255 ∷ 255 ∷ []

minus_two_read : as_json (json_column 5) minus_two ≡ some (int_doc (negsuc 1))
minus_two_read =
    as_json-scalar (number (number32 (negsuc 1))) (json_column 5) minus_two 0 [] (omega arith) refl
      refl

-- The object with no key.
empty_object_read : as_json (json_column 5) (0 ∷ 0 ∷ 0 ∷ 4 ∷ 0 ∷ []) ≡ some null_doc
empty_object_read =
    as_json-object false [] 4 (json_column 5) (0 ∷ 0 ∷ 0 ∷ 4 ∷ 0 ∷ []) 0 [] refl (omega arith) tt
      refl

-- [1, 2]
abbrev array_bytes : Memory
array_bytes = 2 ∷ 2 ∷ 0 ∷ 10 ∷ 0 ∷ 5 ∷ 1 ∷ 0 ∷ 5 ∷ 2 ∷ 0 ∷ []

as_json-array_example :
    as_json (json_column 11) array_bytes
    ≡ some (append_doc (append_doc array_doc null_doc) null_doc)
as_json-array_example =
    as_json-array false 2 10 (json_column 11) array_bytes 0 (5 ∷ 1 ∷ 0 ∷ 5 ∷ 2 ∷ 0 ∷ []) refl
      (omega arith) refl

-- One member `a`, with the key right behind its entry.
abbrev object_bytes : Memory
object_bytes = 0 ∷ 1 ∷ 0 ∷ 9 ∷ 0 ∷ 8 ∷ 0 ∷ 1 ∷ 0 ∷ b'a' ∷ []

as_json-object_example :
    as_json (json_column 10) object_bytes ≡ some (member_doc null_doc (b'a' ∷ []) null_doc)
as_json-object_example =
    as_json-object false ((8, b'a' ∷ []) ∷ []) 9 (json_column 10) object_bytes 0 [] refl
      (omega arith) ((omega arith, omega arith), tt) refl

as_json-text_example : as_json (json_column 7) (12 ∷ 5 ∷ codes "hello") ≡ none
as_json-text_example =
    as_json-text (codes "hello") (json_column 7) (12 ∷ 5 ∷ codes "hello") 0 []
      (omega arith, (omega arith, (omega arith, (omega arith, (omega arith, tt))))) (omega arith)
      (omega arith) refl refl

read_type-fuel_example : read_type 4 2 array_bytes 1 ≡ read_type 1 2 array_bytes 1
read_type-fuel_example = read_type-fuel 3 2 array_bytes 1

-- A length that the loop ends: five, then the byte 0x80.
read_string_marked : read_string (5 ∷ 0x80 ∷ codes "hello") 0 ≡ some (string_doc (codes "hello"), 7)
unfolding read_string read_length take_exact
read_string_marked = refl
