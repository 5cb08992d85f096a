-- ===== src/Parser/Session/DumpRequest.antt =====
-- The packet that `CLogParser::request_binlog_dump` of src/mysqlslave/logparser.cpp builds in its
-- local buffer `buf[1024]`.
use mysqlslave.Base.{ℕ, ◌+◌, ◌≡◌, ◌≤◌, refl, ap, ◌∙◌, arith, Option, none, some, ◌>>=◌}
use mysqlslave.Base.{
  List, [], ◌++◌, length-append, length-drop, take-append, drop-append, drop-add, true, le→leb, leb,
  if◌then◌else◌, length, take, drop,
}
use mysqlslave.Memory.Endian.{le_bytes}
use mysqlslave.Parser.{Parser}
use mathlib.Core.List.{append_assoc}

-- `memcpy(buf + at, bytes, length)`, `none` if it writes behind the buffer.
unfoldable pub store_at : List ℕ → ℕ → List ℕ → Option (List ℕ)
store_at buf at bytes =
    if leb (at + length bytes) (length buf)
    then some (take at buf ++ (bytes ++ drop (at + length bytes) buf))
    else none

-- The bytes that are handed to `simple_command`; `stack` is what the buffer held. The flags are the
-- constant 0.
unfoldable pub dump_request : List ℕ → Parser → Option (List ℕ)
dump_request stack p = do
  buf₁ ← store_at stack 0 (le_bytes 4 p.binlog_pos)
  buf₂ ← store_at buf₁ 4 (le_bytes 2 0)
  buf₃ ← store_at buf₂ 6 (le_bytes 4 p.slave_id)
  buf₄ ← store_at buf₃ 10 p.binlog_name
  some (take (length p.binlog_name + 10) buf₄)

-- A store right behind what has been written: `front` is what the buffer begins with.
store_at-behind :
    (front back bytes : List ℕ)
    → length bytes ≤ length back
    → store_at (front ++ back) (length front) bytes
      ≡ some ((front ++ bytes) ++ drop (length bytes) back)
unfolding store_at
store_at-behind front back bytes fits =
    let all = length-append front back in
    let fits_all : leb (length front + length bytes) (length (front ++ back)) ≡ true =
      le→leb (length front + length bytes) (length (front ++ back)) (omega arith) in
    let tail : drop (length front + length bytes) (front ++ back) ≡ drop (length bytes) back =
      drop-add (length front) (length bytes) (front ++ back)
      ∙ ap (drop (length bytes)) (drop-append front back) in
    rw (fits_all, take-append front back, tail, append_assoc front bytes (drop (length bytes) back))
      refl

-- The bytes that go out are the position, two zeros, the id of the slave, and the name; none of
-- them is the buffer's old content.
pub dump_request-lem :
    (stack : List ℕ) (p : Parser)
    → length stack ≡ 1024
    → length p.binlog_name ≤ 1014
    → dump_request stack p
      ≡ some (le_bytes 4 p.binlog_pos ++ (le_bytes 2 0 ++ (le_bytes 4 p.slave_id ++ p.binlog_name)))
unfolding dump_request
dump_request-lem stack p room short =
    let name = p.binlog_name in
    let first : List ℕ = le_bytes 4 p.binlog_pos in
    let flags : List ℕ = first ++ le_bytes 2 0 in
    let head : List ℕ = flags ++ le_bytes 4 p.slave_id in
    let rest₁ : List ℕ = drop 4 stack in
    let rest₂ : List ℕ = drop 2 rest₁ in
    let rest₃ : List ℕ = drop 4 rest₂ in
    let step₁ = store_at-behind [] stack first (omega arith) in
    let step₂ = store_at-behind first rest₁ (le_bytes 2 0) (omega (arith, length-drop 4 stack)) in
    let left₂ : length rest₂ ≡ 1018 = omega (arith, length-drop 2 rest₁, length-drop 4 stack) in
    let step₃ = store_at-behind flags rest₂ (le_bytes 4 p.slave_id) (omega arith) in
    let step₄ = store_at-behind head rest₃ name (omega (arith, length-drop 4 rest₂)) in
    let size : length name + 10 ≡ length (head ++ name) = omega arith in
    let cut =
      ap (λ k. take k ((head ++ name) ++ drop (length name) rest₃)) size
      ∙ take-append (head ++ name) (drop (length name) rest₃) in
    rw (step₁, step₂, step₃, step₄) (ap (λ (l : List ℕ). some l) cut)
