-- ===== src/LogEvent/Rows.antt =====
-- `CRowLogEvent` of src/mysqlslave/logevent.cpp: the head of a WRITE, UPDATE or DELETE rows event.
pub mod Bytes
pub mod Layout
use mysqlslave.Base.{ℕ, ◌+◌, ◌-◌, ◌^◌, Option, none, some, ◌>>=◌, ◌==◌, if◌then◌else◌}
use mysqlslave.Base.{Bool, true, false, ◌||◌}
use mysqlslave.Base.Words.{sub16, sub64}
use mysqlslave.Memory.{Memory, Headers, load, uint_korr}
use mysqlslave.LogEvent.{
  EventType, event_code, event_type_offset, Status, success, failure, FormatDescription, LogEvent,
  header_tune,
}
use mysqlslave.LogEvent.FieldLength.{net_field_length}
use mysqlslave.LogEvent.ColumnMask.{build_column_mask, update_n1bits, wrong_mask}

-- Addresses are into the packet. The masks are the raw fields, with the count in the high byte.
pub record RowEvent : Type 0 where
  pub header : LogEvent
  pub event_type : ℕ
  pub row_flags : ℕ
  pub table_id : ℕ
  pub ncolumns : ℕ
  pub extra_data_len : ℕ
  pub extra_data : Option ℕ
  pub used_columns : ℕ
  pub used_columns_afterimage : ℕ
  pub rows_data : ℕ
  pub rows_len : ℕ
  pub valid : Bool

abbrev pub is_v2 : ℕ → Bool
is_v2 t =
    t == event_code EventType.write_rows_v2_event
    || t == event_code EventType.update_rows_v2_event
    || t == event_code EventType.delete_rows_v2_event

abbrev pub is_update : ℕ → Bool
is_update t =
    t == event_code EventType.update_rows_event || t == event_code EventType.update_rows_v2_event

module _ ⦃h : Headers⦄ where
  -- The extra data of version 2: the address behind it, `_extra_data_len` and `_extra_data`.
  unfoldable pub read_extra : ℕ → Memory → ℕ → Option (ℕ × ℕ × Option ℕ)
  read_extra t m p =
      if is_v2 t
      then (uint_korr 2 m p >>= λ n. let len = sub16 n 2 in some (p + 2 + len, len, some (p + 2)))
      else some (p, 0, none)

  -- The second bitmap of an UPDATE, and what `tune` ends with. `start` and `size` are those of the
  -- event's body.
  unfoldable pub read_afterimage : RowEvent → Memory → ℕ → ℕ → ℕ → Option (Status × RowEvent)
  read_afterimage e m start size p =
      let finish = λ (e' : RowEvent) (q : ℕ). record e' {
        rows_len = sub64 size (q - start);
        rows_data = q;
        valid = true;
      } in
      let afterimage = build_column_mask m p none e.ncolumns >>= λ (mask, q, _).
      if mask == wrong_mask
      then some (failure, record e { used_columns_afterimage = mask })
      else some (success, finish (record e { used_columns_afterimage = update_n1bits mask }) q) in
      if is_update e.event_type then afterimage else some (success, finish e p)

  -- `CRowLogEvent::tune` on the event of `size` bytes at `start`.
  unfoldable pub row_tune :
      RowEvent → Memory → ℕ → ℕ → FormatDescription → Option (Status × RowEvent)
  row_tune e m start size fmt = do
    header ← header_tune m start size fmt
    t ← load m (start + event_type_offset)
    let body = start + fmt.common_header_len
    let size₁ = sub64 size fmt.common_header_len
    let size₂ = if fmt.use_checksum then sub64 size₁ 4 else size₁
    table_id ← uint_korr 6 m body
    flags ← uint_korr 2 m (body + 6)
    (p₁, extra_len, extra) ← read_extra t m (body + 6 + 2)
    (ncolumns, p₂) ← net_field_length m p₁
    (mask, p₃, _) ← build_column_mask m p₂ none ncolumns
    let e' = record e {
      header = header;
      valid = false;
      event_type = t;
      table_id = table_id;
      row_flags = flags;
      extra_data_len = extra_len;
      extra_data = extra;
      ncolumns = ncolumns;
    }
    if mask == wrong_mask
        then some (failure, record e' { used_columns = mask })
        else read_afterimage (record e' { used_columns = update_n1bits mask }) m body size₂ p₃
