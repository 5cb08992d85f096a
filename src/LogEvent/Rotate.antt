-- ===== src/LogEvent/Rotate.antt =====
-- `CRotateLogEvent`, `CIntvarLogEvent` and `CUnhandledLogEvent` of src/mysqlslave/logevent.cpp and
-- include/mysqlslave/logevent.hpp.
pub mod Layout
use mysqlslave.Base.{ℕ, ◌+◌, Option, some, ◌>>=◌, if◌then◌else◌}
use mysqlslave.Base.Words.{sub64}
use mysqlslave.Memory.{Memory, Headers, load, uint_korr}
use mysqlslave.LogEvent.{
  EventType, event_type_offset, header_len_of, FormatDescription, LogEvent, header_tune,
}

-- `new_log` is the address of the file name in the packet, `len` its length.
pub record RotateEvent : Type 0 where
  pub header : LogEvent
  pub position : ℕ
  pub new_log : ℕ
  pub len : ℕ

pub record IntvarEvent : Type 0 where
  pub header : LogEvent
  pub intvar_type : ℕ
  pub val : ℕ

pub record UnhandledEvent : Type 0 where
  pub header : LogEvent
  pub event_number : ℕ

module _ ⦃h : Headers⦄ where
  -- `CLogEvent::tune` always returns 0, so none of these three fails.
  unfoldable pub rotate_tune : Memory → ℕ → ℕ → FormatDescription → Option RotateEvent
  rotate_tune m start size fmt = do
    header ← header_tune m start size fmt
    let body = start + fmt.common_header_len
    let size₁ = sub64 size fmt.common_header_len
    let size₂ = if fmt.use_checksum then sub64 size₁ 4 else size₁
    position ← uint_korr 8 m body
    some (record { header = header; position = position; new_log = body + 8; len = sub64 size₂ 8 })

  unfoldable pub intvar_tune : Memory → ℕ → ℕ → FormatDescription → Option IntvarEvent
  intvar_tune m start size fmt = do
    header ← header_tune m start size fmt
    let body = start + (fmt.common_header_len + header_len_of fmt EventType.intvar_event)
    t ← load m body
    v ← uint_korr 8 m (body + 1)
    some (record { header = header; intvar_type = t; val = v })

  unfoldable pub unhandled_tune : Memory → ℕ → ℕ → FormatDescription → Option UnhandledEvent
  unhandled_tune m start size fmt = do
    header ← header_tune m start size fmt
    n ← load m (start + event_type_offset)
    some (record { header = header; event_number = n })
