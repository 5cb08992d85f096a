-- ===== src/Exceptions.antt =====
-- include/mysqlslave/exceptions.hpp: `CException` and `CLogEventException`, with the names of the
-- events (`get_type_code_str`) of include/mysqlslave/logevent.hpp. An exception is its buffer of
-- 1024 bytes, which is not initialised: `fresh` is what it holds before. The text that a format and
-- its arguments make is an argument; `c_string` of what is past the buffer is `none`.
pub mod Messages
use mysqlslave.Base.{ℕ, suc, ◌-◌, Option, none, some, leb, ◌==◌, if◌then◌else◌, List, [], ◌∷◌, ◌++◌}
use mysqlslave.Base.{length, take, drop, replicate}
use mysqlslave.Base.Int.{ℤ, pos, negsuc}
use mysqlslave.Base.Texts.{codes, decimal}
use mysqlslave.Memory.{c_string}
use mysqlslave.LogEvent.{EventType, event_code}

-- MYSQL_ERRMSG_MAX_LEN
abbrev pub errmsg_max_len : ℕ
errmsg_max_len = 1024

-- `snprintf` and `vsnprintf` of the text `s` into `size` bytes: cut, with a NUL.
unfoldable pub print_into : ℕ → List ℕ → List ℕ → List ℕ
print_into size s buffer =
    let kept = take (size - 1) s in kept ++ (0 ∷ drop (suc (length kept)) buffer)

-- `strncpy`: filled up with NULs, with none if the text has `size` bytes or more.
unfoldable pub copy_into : ℕ → List ℕ → List ℕ → List ℕ
copy_into size s buffer =
    if leb size (length s)
    then take size s ++ drop size buffer
    else s ++ (replicate (size - length s) 0 ++ drop size buffer)

-- The classes of events, with the type where the name depends on it.
pub data EventClass : Type 0 where
  format_description rotate unhandled query table_map : EventClass
  intvar rows : ℕ → EventClass

-- The names of an intvar event and of a rows event.
abbrev pub intvar_name : ℕ → List ℕ
intvar_name t =
    if t == 1
    then codes "intvar event LAST_INSERT_ID"
    else if t == 2
    then codes "intvar event INSERT_ID"
    else codes "intvar event unknown type"

abbrev pub rows_name : ℕ → List ℕ
rows_name t =
    if t == event_code EventType.write_rows_event
    then codes "WRITE_ROWS_EVENT"
    else if t == event_code EventType.delete_rows_event
    then codes "DELETE_ROWS_EVENT"
    else if t == event_code EventType.update_rows_event
    then codes "UPDATE_ROWS_EVENT"
    else codes "unknown rows event"

-- `get_type_code_str`
unfoldable pub type_code_str : EventClass → List ℕ
type_code_str format_description = codes "format description event"
type_code_str rotate = codes "rotate event"
type_code_str unhandled = codes "unhandled event"
type_code_str query = codes "query event"
type_code_str table_map = codes "table map event"
type_code_str (intvar t) = intvar_name t
type_code_str (rows t) = rows_name t

-- `%d`
abbrev pub signed_decimal : ℤ → List ℕ
signed_decimal (pos n) = decimal 10 n
signed_decimal (negsuc n) = b'-' ∷ decimal 10 (suc n)

-- `CException(fmt, …)`, on the text that the format makes.
unfoldable pub exception : List ℕ → List ℕ → List ℕ
unfolding print_into
exception text fresh = print_into errmsg_max_len text fresh

-- `CLogEventException(event, msg)`; `none` is the null pointer.
unfoldable pub log_event_exception : Option EventClass → List ℕ → List ℕ → List ℕ
unfolding print_into copy_into type_code_str
log_event_exception (some event) msg fresh =
    print_into errmsg_max_len (type_code_str event ++ (codes ": " ++ msg)) fresh
log_event_exception none msg fresh = copy_into errmsg_max_len msg fresh

-- `CLogEventException(event_number, msg)`
unfoldable pub event_number_exception : ℤ → List ℕ → List ℕ → List ℕ
unfolding print_into
event_number_exception number msg fresh =
    print_into errmsg_max_len
      (codes "event number " ++ (signed_decimal number ++ (codes ": " ++ msg))) fresh

-- `what()`, as the C string at the start of the buffer.
unfoldable pub what : List ℕ → Option (List ℕ)
what errmsg = c_string (take errmsg_max_len errmsg)
