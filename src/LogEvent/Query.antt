-- ===== src/LogEvent/Query.antt =====
-- `CQueryLogEvent::tune` of src/mysqlslave/logevent.cpp.
pub mod Layout
use mysqlslave.Base.{ℕ, ◌+◌, Option, some, ◌>>=◌, if◌then◌else◌, ltb, ◌==◌, ◌||◌, List, []}
use mysqlslave.Base.Words.{u32, sub64}
use mysqlslave.Memory.{Memory, Headers, load, load_bytes, uint_korr}
use mysqlslave.LogEvent.{
  EventType, header_len_of, query_header_minimal_len, Status, success, failure, FormatDescription,
  LogEvent, header_tune,
}

pub record QueryEvent : Type 0 where
  pub header : LogEvent
  pub q_exec_time : ℕ
  pub q_len : ℕ
  pub db_len : ℕ
  pub error_code : ℕ
  pub status_vars_len : ℕ
  pub query : List ℕ

-- MAX_SIZE_LOG_EVENT_STATUS
abbrev pub max_size_log_event_status : ℕ
max_size_log_event_status =
    (1 + 4)
    + (1 + 8)
    + (1 + 1 + 255)
    + (1 + 4)
    + (1 + 6)
    + (1 + 1 + 255)
    + (1 + 2)
    + (1 + 2)
    + (1 + 8)
    + (1 + 4)
    + (1 + 16 + 1 + 60)

module _ ⦃h : Headers⦄ where
  -- The statement behind the status variables and the database's name.
  unfoldable pub read_statement : QueryEvent → Memory → ℕ → ℕ → ℕ → Option (Status × QueryEvent)
  read_statement e m body data_len post_len =
      let len₁ = sub64 data_len e.status_vars_len in
      let q_len = u32 (sub64 len₁ (e.db_len + 1)) in
      load_bytes q_len m (body + (post_len + e.status_vars_len + e.db_len + 1)) >>= λ q.
      some (success, record e { q_len = q_len; query = q })

  -- The status variables, which are skipped, if their length is plausible.
  unfoldable pub read_status : QueryEvent → Memory → ℕ → ℕ → ℕ → Option (Status × QueryEvent)
  unfolding read_statement
  read_status e m body data_len post_len = do
    vars_len ← uint_korr 2 m (body + 11)
    let e' = record e { status_vars_len = vars_len }
    if ltb data_len vars_len || ltb max_size_log_event_status vars_len
        then some (failure, e')
        else read_statement e' m body data_len post_len

  unfoldable pub query_tune :
      QueryEvent → Memory → ℕ → ℕ → FormatDescription → Option (Status × QueryEvent)
  unfolding read_status
  query_tune e m start size fmt = do
    header ← header_tune m start size fmt
    let post_len = header_len_of fmt EventType.query_event
    let len₁ = sub64 size (fmt.common_header_len + post_len)
    let data_len = if fmt.use_checksum then sub64 len₁ 4 else len₁
    let body = start + fmt.common_header_len
    q_exec_time ← uint_korr 4 m (body + 4)
    db_len ← load m (body + 8)
    error_code ← uint_korr 2 m (body + 9)
    let e' = record e {
      header = header;
      query = [];
      q_exec_time = q_exec_time;
      db_len = db_len;
      error_code = error_code;
    }
    if post_len == query_header_minimal_len
        then some (failure, e')
        else read_status e' m body data_len post_len
