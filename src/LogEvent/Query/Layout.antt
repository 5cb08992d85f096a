-- ===== src/LogEvent/Query/Layout.antt =====
-- A query event in the layout that MySQL documents: the thread, the time, the sizes and the error,
-- and then the status variables, the name of the database with a NUL, and the statement up to the
-- end of the event or its checksum.
use mysqlslave.Base.{
  ℕ, ◌+◌, ◌^◌, ◌<◌, ◌≤◌, ◌≡◌, refl, ap, ◌∙◌, arith, some, false, Bool-cases, inl, inr, List, ◌∷◌,
  ◌++◌, length, length-append, drop, drop-add, drop_past, drop_next, get_elem?-drop, ltb, le→ltb,
  if◌then◌else◌,
}
use mathlib.Core.List.{append_assoc}
use mysqlslave.Base.Words.{u32, sub64}
use mysqlslave.Memory.{Memory, Headers, load, load_bytes, uint_korr}
use mysqlslave.Memory.Endian.{le_bytes, take_exact-append, uint_korr-offset}
use mysqlslave.LogEvent.{EventType, header_len_of, FormatDescription, LogEvent, success}
use mysqlslave.LogEvent.Header.{IsEvent, read_header, tail_bytes, body_at, header_tune-event}
use mysqlslave.LogEvent.Query.{
  QueryEvent, max_size_log_event_status, query_tune, read_status, read_statement,
}

-- What a query event says.
pub record Query : Type 0 where
  pub thread : ℕ
  pub time : ℕ
  pub error : ℕ
  pub variables : List ℕ
  pub database : List ℕ
  pub statement : List ℕ

pub record IsQuery (q : Query) : Type 0 where
  pub time_fits : q.time < 256 ^ 4
  pub error_fits : q.error < 256 ^ 2
  pub variables_few : length q.variables ≤ max_size_log_event_status
  pub statement_fits : length q.statement < 2 ^ 32

abbrev pub query_body : Query → List ℕ
query_body q =
    le_bytes 4 q.thread
    ++ (le_bytes 4 q.time
        ++ (length q.database
            ∷ (le_bytes 2 q.error
                ++ (le_bytes 2 (length q.variables)
                    ++ (q.variables ++ (q.database ++ (0 ∷ q.statement)))))))

module _ ⦃h : Headers⦄ where
  module _ {e : LogEvent} {t crc : ℕ} {q : Query} {rest : List ℕ} {fmt : FormatDescription}
      {m : Memory} {start size : ℕ} (event : IsEvent e t (query_body q) crc fmt m start size rest)
      (valid : IsQuery q) (post_len : header_len_of fmt EventType.query_event ≡ 13) where
    length-body :
        length (query_body q) ≡ 13 + length q.variables + length q.database + 1 + length q.statement
    length-body = omega (
      arith,
      length-append q.variables (q.database ++ (0 ∷ q.statement)),
      length-append q.database (0 ∷ q.statement),
    )

    -- What is left behind the header and the post-header, without the checksum.
    length-data :
        (if fmt.use_checksum
          then sub64
              (sub64 size (fmt.common_header_len + header_len_of fmt EventType.query_event))
              4
          else sub64 size (fmt.common_header_len + header_len_of fmt EventType.query_event))
        ≡ length q.variables + length q.database + 1 + length q.statement
    length-data = elim (Bool-cases fmt.use_checksum) [
      | inl on ↦
          let sized : size ≡ 19 + length (query_body q) + 4 = rw on at event.sized in
          rw (on, event.header_len, post_len) (omega (arith, sized, length-body, event.size_fits))
      | inr off ↦
          let sized : size ≡ 19 + length (query_body q) + 0 = rw off at event.sized in
          rw (off, event.header_len, post_len) (omega (arith, sized, length-body, event.size_fits))
    ]

    fields :
        (uint_korr 4 m (start + fmt.common_header_len + 4) ≡ some q.time)
        × (load m (start + fmt.common_header_len + 8) ≡ some (length q.database))
        × (uint_korr 2 m (start + fmt.common_header_len + 9) ≡ some q.error)
        × (uint_korr 2 m (start + fmt.common_header_len + 11) ≡ some (length q.variables))
    fields =
        let p = start + fmt.common_header_len in
        let at = body_at event in
        (
          uint_korr-offset 4 q.time m p 4 _ _ at refl valid.time_fits,
          get_elem?-drop m (p + 8) _ _ (drop-add p 8 m ∙ ap (drop 8) at),
          uint_korr-offset 2 q.error m p 9 _ _ at refl valid.error_fits,
          uint_korr-offset 2 (length q.variables) m p 11 _ _ at refl
              (omega (arith, valid.variables_few)),
        )

    statement_at :
        load_bytes
          (length q.statement)
          m
          (start + fmt.common_header_len + (13 + length q.variables + length q.database + 1))
        ≡ some q.statement
    statement_at =
        let p = start + fmt.common_header_len in
        let behind = tail_bytes fmt crc ++ rest in
        let at_variables : drop (p + 13) m
            ≡ q.variables ++ ((q.database ++ (0 ∷ q.statement)) ++ behind) =
          drop-add p 13 m
          ∙ ap (drop 13) (body_at event)
          ∙ append_assoc q.variables (q.database ++ (0 ∷ q.statement)) behind in
        let at_database : drop (p + 13 + length q.variables) m
            ≡ q.database ++ (0 ∷ (q.statement ++ behind)) =
          drop_past m (p + 13) q.variables _ at_variables
          ∙ append_assoc q.database (0 ∷ q.statement) behind in
        let at_nul = drop_past m (p + 13 + length q.variables) q.database _ at_database in
        let at_statement =
          drop_next m (p + 13 + length q.variables + length q.database) 0 _ at_nul in
        let here : p + (13 + length q.variables + length q.database + 1)
            ≡ p + 13 + length q.variables + length q.database + 1 =
          omega arith in
        rw (here, at_statement) (take_exact-append q.statement behind)

    -- A query event in the documented layout, with a time of 32 bits, an error of 16, status
    -- variables of no more bytes than MySQL writes, and a statement of less than 2 ^ 32 bytes, of a
    -- format whose post-header for it has 13 bytes, is read back: its time, the length of its
    -- database's name, its error and its statement.
    pub query_tune-event :
        (before : QueryEvent)
        → query_tune before m start size fmt
          ≡ some (
            success,
            record {
              header = read_header e crc fmt;
              q_exec_time = q.time;
              q_len = length q.statement;
              db_len = length q.database;
              error_code = q.error;
              status_vars_len = length q.variables;
              query = q.statement;
            },
          )
    unfolding query_tune read_status read_statement
    query_tune-event before =
        let (time, database, error, variables) = fields in
        let rest_of : u32 (
              sub64
                (sub64 (length q.variables + length q.database + 1 + length q.statement)
                  (length q.variables))
                (length q.database + 1))
            ≡ length q.statement =
          omega (arith, length-body, event.sized, event.size_fits, valid.statement_fits) in
        let enough : ltb (length q.variables + length q.database + 1 + length q.statement)
              (length q.variables)
            ≡ false =
          le→ltb _ _ (omega arith) in
        let few : ltb max_size_log_event_status (length q.variables) ≡ false =
          le→ltb _ _ valid.variables_few in
        rw
          (
            header_tune-event event,
            length-data,
            post_len,
            time,
            database,
            error,
            variables,
            enough,
            few,
            rest_of,
            statement_at,
          )
          refl
