-- ===== src/LogEvent.antt =====
-- include/mysqlslave/logevent.hpp and src/mysqlslave/logevent.cpp: the types of binlog events, the
-- common header of an event (`CLogEvent`), and the format that all events are read by
-- (`CFormatDescriptionLogEvent`). The events of each type are child modules.
pub mod Header
pub mod FieldLength
pub mod Rotate
pub mod Query
pub mod ColumnMask
pub mod Rows
pub mod TableMap
use mysqlslave.Base.{ℕ, ◌+◌, ◌-◌, ◌*◌, ◌≡◌, bit_and, List, [], ◌∷◌, ◌++◌, Option, none, some, ◌>>=◌}
use mysqlslave.Base.{Bool, true, false, ◌&&◌, not, get_or, set, take, replicate}
use mysqlslave.Base.{ltb, leb, ◌==◌, if◌then◌else◌}
use mysqlslave.Memory.{Memory, Headers, load, uint_korr}

-- `enum Log_event_type`
pub data EventType : Type 0 where
  unknown_event start_event_v3 query_event stop_event rotate_event intvar_event : EventType
  load_event slave_event create_file_event append_block_event exec_load_event : EventType
  delete_file_event new_load_event rand_event user_var_event : EventType
  format_description_event xid_event begin_load_query_event execute_load_query_event : EventType
  table_map_event pre_ga_write_rows_event pre_ga_update_rows_event : EventType
  pre_ga_delete_rows_event write_rows_event update_rows_event delete_rows_event : EventType
  incident_event heartbeat_event ignorable_event rows_query_event : EventType
  write_rows_v2_event update_rows_v2_event delete_rows_v2_event gtid_event : EventType
  anonymous_gtid_event previous_gtids_event transaction_context_event : EventType
  view_change_event xa_prepare_event enum_end_event : EventType

abbrev pub event_code : EventType → ℕ
event_code unknown_event = 0
event_code start_event_v3 = 1
event_code query_event = 2
event_code stop_event = 3
event_code rotate_event = 4
event_code intvar_event = 5
event_code load_event = 6
event_code slave_event = 7
event_code create_file_event = 8
event_code append_block_event = 9
event_code exec_load_event = 10
event_code delete_file_event = 11
event_code new_load_event = 12
event_code rand_event = 13
event_code user_var_event = 14
event_code format_description_event = 15
event_code xid_event = 16
event_code begin_load_query_event = 17
event_code execute_load_query_event = 18
event_code table_map_event = 19
event_code pre_ga_write_rows_event = 20
event_code pre_ga_update_rows_event = 21
event_code pre_ga_delete_rows_event = 22
event_code write_rows_event = 23
event_code update_rows_event = 24
event_code delete_rows_event = 25
event_code incident_event = 26
event_code heartbeat_event = 27
event_code ignorable_event = 28
event_code rows_query_event = 29
event_code write_rows_v2_event = 30
event_code update_rows_v2_event = 31
event_code delete_rows_v2_event = 32
event_code gtid_event = 33
event_code anonymous_gtid_event = 34
event_code previous_gtids_event = 35
event_code transaction_context_event = 36
event_code view_change_event = 37
event_code xa_prepare_event = 38
event_code enum_end_event = 39

-- Sizes and offsets of the fixed headers.
abbrev pub log_event_types : ℕ
log_event_types = event_code enum_end_event - 1

abbrev pub st_server_ver_len : ℕ
st_server_ver_len = 50

abbrev pub log_event_header_len : ℕ
log_event_header_len = 19

abbrev pub query_header_minimal_len : ℕ
query_header_minimal_len = 4 + 4 + 1 + 2

abbrev pub query_header_len : ℕ
query_header_len = query_header_minimal_len + 2

abbrev pub load_header_len : ℕ
load_header_len = 4 + 4 + 4 + 1 + 1 + 4

abbrev pub start_v3_header_len : ℕ
start_v3_header_len = 2 + st_server_ver_len + 4

abbrev pub rows_header_len : ℕ
rows_header_len = 8

abbrev pub table_map_header_len : ℕ
table_map_header_len = 8

abbrev pub execute_load_query_header_len : ℕ
execute_load_query_header_len = query_header_len + (4 + 4 + 4 + 1)

abbrev pub event_type_offset : ℕ
event_type_offset = 4

abbrev pub server_id_offset : ℕ
server_id_offset = 5

abbrev pub event_len_offset : ℕ
event_len_offset = 9

abbrev pub log_pos_offset : ℕ
log_pos_offset = 13

abbrev pub flags_offset : ℕ
flags_offset = 17

-- LOG_EVENT_ARTIFICIAL_F
abbrev pub log_event_artificial_f : ℕ
log_event_artificial_f = 0x20

-- The `int` that a `tune` returns: 0 or -1.
pub data Status : Type 0 where
  success failure : Status

pub record FormatDescription : Type 0 where
  pub binlog_version : ℕ
  pub server_version : List ℕ
  pub common_header_len : ℕ
  pub post_header_len : List ℕ
  pub use_checksum : Bool

-- The constructor leaves `_use_checksum` as it finds it: `junk`. Of `_server_version` it sets one
-- byte, the NUL, which is all that is read of it.
unfoldable pub format_init : Bool → FormatDescription
format_init junk = record {
  binlog_version = 0;
  server_version = replicate st_server_ver_len 0;
  common_header_len = 0;
  post_header_len = replicate log_event_types 0;
  use_checksum = junk;
}

-- The entry of `_post_header_len` for an event type; the array has one for every type but 0.
abbrev pub header_len_of : FormatDescription → EventType → ℕ
header_len_of fmt t = get_or fmt.post_header_len (event_code t - 1) 0

abbrev pub put_header_len : EventType → ℕ → List ℕ → List ℕ
put_header_len t n lens = set lens (event_code t - 1) n

-- The assignments to `_post_header_len`, in the source's order.
unfoldable pub tuned_header_lens : List ℕ → List ℕ
tuned_header_lens l₀ =
    let l₁ = put_header_len start_event_v3 start_v3_header_len l₀ in
    let l₂ = put_header_len query_event query_header_len l₁ in
    let l₃ = put_header_len stop_event 0 l₂ in
    let l₄ = put_header_len rotate_event 8 l₃ in
    let l₅ = put_header_len intvar_event 0 l₄ in
    let l₆ = put_header_len load_event load_header_len l₅ in
    let l₇ = put_header_len slave_event 0 l₆ in
    let l₈ = put_header_len create_file_event 4 l₇ in
    let l₉ = put_header_len append_block_event 4 l₈ in
    let l₁₀ = put_header_len exec_load_event 4 l₉ in
    let l₁₁ = put_header_len delete_file_event 4 l₁₀ in
    let l₁₂ = put_header_len new_load_event load_header_len l₁₁ in
    let l₁₃ = put_header_len rand_event 0 l₁₂ in
    let l₁₄ = put_header_len user_var_event 0 l₁₃ in
    let l₁₅ =
      put_header_len format_description_event (start_v3_header_len + 1 + log_event_types) l₁₄ in
    let l₁₆ = put_header_len xid_event 0 l₁₅ in
    let l₁₇ = put_header_len begin_load_query_event 4 l₁₆ in
    let l₁₈ = put_header_len execute_load_query_event execute_load_query_header_len l₁₇ in
    let l₁₉ = put_header_len pre_ga_write_rows_event 0 l₁₈ in
    let l₂₀ = put_header_len pre_ga_update_rows_event 0 l₁₉ in
    let l₂₁ = put_header_len pre_ga_delete_rows_event 0 l₂₀ in
    let l₂₂ = put_header_len table_map_event table_map_header_len l₂₁ in
    let l₂₃ = put_header_len write_rows_event rows_header_len l₂₂ in
    let l₂₄ = put_header_len update_rows_event rows_header_len l₂₃ in
    let l₂₅ = put_header_len delete_rows_event rows_header_len l₂₄ in
    let l₂₆ = put_header_len incident_event 2 l₂₅ in
    let l₂₇ = put_header_len write_rows_v2_event rows_header_len l₂₆ in
    let l₂₈ = put_header_len update_rows_v2_event rows_header_len l₂₇ in
    put_header_len delete_rows_v2_event rows_header_len l₂₈

-- `strncpy(_server_version, s, 50)`: cut at 50 bytes, or filled up with NULs.
abbrev pub server_version_field : List ℕ → List ℕ
server_version_field s = take st_server_ver_len (s ++ replicate st_server_ver_len 0)

-- The version is `none` for a null pointer.
unfoldable pub format_tune :
    FormatDescription → ℕ → Option (List ℕ) → Bool → Status × FormatDescription
unfolding tuned_header_lens
format_tune f ver none checksum =
    (failure, record f { binlog_version = ver; server_version = set f.server_version 0 0 })
format_tune f ver (some s) checksum =
    if ver == 4
    then (
      success,
      record f {
        binlog_version = ver;
        server_version = server_version_field s;
        use_checksum = checksum;
        common_header_len = log_event_header_len;
        post_header_len = tuned_header_lens f.post_header_len;
      },
    )
    else (failure, record f { binlog_version = ver; server_version = set f.server_version 0 0 })

unfoldable pub format_is_valid : FormatDescription → Bool
format_is_valid f =
    f.binlog_version == 4
    && not (get_or f.server_version 0 0 == 0)
    && leb log_event_header_len f.common_header_len

-- `is_supported`
abbrev pub is_supported : ℕ → Bool
is_supported event_type = leb event_type log_event_types

-- `CLogEvent`
pub record LogEvent : Type 0 where
  pub when : ℕ
  pub server_id : ℕ
  pub data_written : ℕ
  pub log_pos : ℕ
  pub flags : ℕ
  pub checksum : ℕ

module _ ⦃h : Headers⦄ where
  -- The four bytes at `data + size - 4`; an event shorter than that is read before its start.
  unfoldable pub trailing_checksum : Memory → ℕ → ℕ → Option ℕ
  trailing_checksum m start size = if ltb size 4 then none else uint_korr 4 m (start + size - 4)

  -- `CLogEvent::tune`, on the event of `size` bytes at address `start`.
  unfoldable pub header_tune : Memory → ℕ → ℕ → FormatDescription → Option LogEvent
  header_tune m start size fmt = do
    when ← uint_korr 4 m start
    server_id ← uint_korr 4 m (start + server_id_offset)
    data_written ← uint_korr 4 m (start + event_len_offset)
    log_pos ← uint_korr 4 m (start + log_pos_offset)
    flags ← uint_korr 2 m (start + flags_offset)
    checksum ←
        if fmt.use_checksum && bit_and flags log_event_artificial_f == 0
        then trailing_checksum m start size
        else some 0
    some (record {
      when = when;
      server_id = server_id;
      data_written = data_written;
      log_pos = log_pos;
      flags = flags;
      checksum = checksum;
    })
