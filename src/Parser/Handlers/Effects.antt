-- ===== src/Parser/Handlers/Effects.antt =====
-- What the handlers of events leave alone: the position in the binlog, the calls, the tables.
use mysqlslave.Base.{ℕ, ◌≡◌, refl, arith, Option, some, none, [], ◌∷◌, ◌++◌}
use mysqlslave.Base.{Bool, true, ◌||◌, ◌==◌, ◌⊎◌, inl, inr}
use mysqlslave.Memory.{Memory, Headers}
use mysqlslave.LogEvent.{EventType, event_code, Status, success, failure}
use mysqlslave.LogEvent.Rows.{RowEvent, row_tune}
use mysqlslave.Database.{Table}
use mysqlslave.Database.Update.{table_update}
use mysqlslave.Base.Dict.{lookup}
use mysqlslave.Parser.{
  Parser, Result, returned, thrown, undefined, stuck, Call, defined, and_then, TablePointer,
  put_table, find_table, Exception,
}
use mysqlslave.Parser.Handlers.{
  RowsKind, handle_rotate, handle_query, handle_unhandled, map_table, handle_table_map,
  deliver_rows, deliver_to, handle_rows, handle_event, call_of, call_client, deliver_if_read,
}

-- What holds of the parser however a call ends.
abbrev pub Always : (Parser → Type 0) → Result → Type 0
Always P (returned p) = P p
Always P (thrown e p) = P p
Always P undefined = Unit
Always P stuck = Unit

pub Always-defined :
    (P : Parser → Type 0) {A : Type 0} (o : Option A) (f : A → Result)
    → ((a : A) → o ≡ some a → Always P (f a))
    → Always P (defined o f)
Always-defined P none f each = tt
Always-defined P (some a) f each = each a refl

pub Always-and_then :
    (P Q : Parser → Type 0) (r : Result) (f : Parser → Result)
    → Always P r
    → ((p : Parser) → P p → Q p)
    → ((p : Parser) → P p → Always Q (f p))
    → Always Q (and_then r f)
Always-and_then P Q (returned p) f before weaken next = next p before
Always-and_then P Q (thrown e p) f before weaken next = weaken p before
Always-and_then P Q undefined f before weaken next = tt
Always-and_then P Q stuck f before weaken next = tt

pub Always-weaken :
    (P Q : Parser → Type 0) (r : Result) → ((p : Parser) → P p → Q p) → Always P r → Always Q r
Always-weaken P Q (returned p) weaken now = weaken p now
Always-weaken P Q (thrown e p) weaken now = weaken p now
Always-weaken P Q undefined weaken now = tt
Always-weaken P Q stuck weaken now = tt

-- The position at which a reader that reconnects asks the server to go on.
abbrev pub SamePosition : Parser → Parser → Type 0
SamePosition p p' = (p'.binlog_name ≡ p.binlog_name) × (p'.binlog_pos ≡ p.binlog_pos)

-- The types of events that leave the position alone.
abbrev pub is_row_or_map : ℕ → Bool
is_row_or_map t =
    t == event_code EventType.format_description_event
    || t == event_code EventType.table_map_event
    || t == event_code EventType.write_rows_event
    || t == event_code EventType.write_rows_v2_event
    || t == event_code EventType.update_rows_event
    || t == event_code EventType.update_rows_v2_event
    || t == event_code EventType.delete_rows_event
    || t == event_code EventType.delete_rows_v2_event

module _ ⦃h : Headers⦄ where
  -- What every handler ensures, the `switch` does.
  pub handle_event-Always :
      (P : Parser → Type 0) (fuel : ℕ) (p : Parser) (m : Memory) (size t : ℕ)
      → Always P (handle_rotate p m size)
      → P p
      → Always P (handle_query p m size)
      → Always P (handle_table_map p m size)
      → ((kind : RowsKind) → Always P (handle_rows fuel kind p m size))
      → Always P (handle_unhandled p m size)
      → Always P (handle_event fuel p m size t)
  unfolding handle_event
  handle_event-Always P fuel p m size t rotated kept queried mapped rows unhandled = ground (
    arith,
    rotated,
    kept,
    queried,
    mapped,
    unhandled,
    rows RowsKind.write,
    rows RowsKind.update,
    rows RowsKind.delete,
  )

  handle_table_map-position :
      (p : Parser) (m : Memory) (size : ℕ) → Always (SamePosition p) (handle_table_map p m size)
  unfolding handle_table_map map_table put_table
  handle_table_map-position p m size = ground arith

  handle_rows-position :
      (fuel : ℕ) (kind : RowsKind) (p : Parser) (m : Memory) (size : ℕ)
      → Always (SamePosition p) (handle_rows fuel kind p m size)
  unfolding handle_rows deliver_rows put_table
  handle_rows-position fuel kind p m size = ground arith

  -- A format, table map or rows event leaves the position alone, however its handling ends.
  pub handle_event-position :
      (fuel : ℕ) (p : Parser) (m : Memory) (size t : ℕ)
      → is_row_or_map t ≡ true
      → Always (SamePosition p) (handle_event fuel p m size t)
  unfolding handle_event
  handle_event-position fuel p m size t kind = ground (
    arith,
    handle_table_map-position p m size,
    handle_rows-position fuel RowsKind.write p m size,
    handle_rows-position fuel RowsKind.update p m size,
    handle_rows-position fuel RowsKind.delete p m size,
  )

  -- The client is called at most once.
  abbrev pub CallsAtMostOnce : Parser → Parser → Type 0
  CallsAtMostOnce p p' = (p'.calls ≡ p.calls) ⊎ ((c : Call) × (p'.calls ≡ p.calls ++ (c ∷ [])))

  handle_table_map-calls :
      (p : Parser) (m : Memory) (size : ℕ)
      → Always (λ p'. p'.calls ≡ p.calls) (handle_table_map p m size)
  unfolding handle_table_map map_table put_table
  handle_table_map-calls p m size = ground arith

  handle_rotate-calls :
      (p : Parser) (m : Memory) (size : ℕ)
      → Always (λ p'. p'.calls ≡ p.calls) (handle_rotate p m size)
  unfolding handle_rotate
  handle_rotate-calls p m size = ground arith

  handle_query-calls :
      (p : Parser) (m : Memory) (size : ℕ)
      → Always (λ p'. p'.calls ≡ p.calls) (handle_query p m size)
  unfolding handle_query
  handle_query-calls p m size = ground arith

  handle_unhandled-calls :
      (p : Parser) (m : Memory) (size : ℕ)
      → Always (λ p'. p'.calls ≡ p.calls) (handle_unhandled p m size)
  unfolding handle_unhandled
  handle_unhandled-calls p m size = ground arith

  call_client-calls :
      (kind : RowsKind) (p : Parser) (at : TablePointer) (o : Option (Status × Table))
      → Always (CallsAtMostOnce p) (call_client kind p at o)
  unfolding put_table
  call_client-calls kind p at none = tt
  call_client-calls kind p at (some (st, t)) = inr (call_of kind t, refl)

  deliver_to-calls :
      (fuel : ℕ) (kind : RowsKind) (p : Parser) (m : Memory) (r : RowEvent)
      → (o : Option TablePointer) → Always (CallsAtMostOnce p) (deliver_to fuel kind p m r o)
  unfolding deliver_rows
  deliver_to-calls fuel kind p m r none = inl refl
  deliver_to-calls fuel kind p m r (some at) =
      Always-defined (CallsAtMostOnce p) (find_table p at) (deliver_rows fuel kind p m r at) (λ t _.
        Always-defined (CallsAtMostOnce p) (table_update fuel t r m) (call_client kind p at)
          (λ o _. call_client-calls kind p at o))

  deliver_if_read-calls :
      (fuel : ℕ) (kind : RowsKind) (p : Parser) (m : Memory) (r : Status × RowEvent)
      → Always (CallsAtMostOnce p) (deliver_if_read fuel kind p m r)
  deliver_if_read-calls fuel kind p m (success, r) =
      deliver_to-calls fuel kind (record p { event_row = r }) m r
        (lookup ◌==◌ r.table_id p.id_2_table)
  deliver_if_read-calls fuel kind p m (failure, r) = inl refl

  handle_rows-calls :
      (fuel : ℕ) (kind : RowsKind) (p : Parser) (m : Memory) (size : ℕ)
      → Always (CallsAtMostOnce p) (handle_rows fuel kind p m size)
  unfolding handle_rows
  handle_rows-calls fuel kind p m size =
      Always-defined (CallsAtMostOnce p) (row_tune p.event_row m 1 size p.fmt)
        (deliver_if_read fuel kind p m) (λ r _. deliver_if_read-calls fuel kind p m r)

  Always-no_call :
      (p : Parser) (r : Result) → Always (λ p'. p'.calls ≡ p.calls) r → Always (CallsAtMostOnce p) r
  Always-no_call p (returned p') same = inl same
  Always-no_call p (thrown e p') same = inl same
  Always-no_call p undefined same = tt
  Always-no_call p stuck same = tt

  pub handle_event-calls :
      (fuel : ℕ) (p : Parser) (m : Memory) (size t : ℕ)
      → Always (CallsAtMostOnce p) (handle_event fuel p m size t)
  handle_event-calls fuel p m size t =
      handle_event-Always (CallsAtMostOnce p) fuel p m size t
        (Always-no_call p _ (handle_rotate-calls p m size)) (inl refl)
        (Always-no_call p _ (handle_query-calls p m size))
        (Always-no_call p _ (handle_table_map-calls p m size))
        (λ kind. handle_rows-calls fuel kind p m size)
        (Always-no_call p _ (handle_unhandled-calls p m size))

  -- A handler throws for an event that cannot be read, and for nothing else.
  pub handle_event_throws :
      (fuel : ℕ) (p : Parser) (m : Memory) (size t : ℕ) (e : Exception) (p' : Parser)
      → handle_event fuel p m size t ≡ thrown e p'
      → e ≡ Exception.tuning_failed
  unfolding handle_event handle_rotate handle_query handle_table_map map_table handle_rows
      deliver_rows handle_unhandled
  handle_event_throws fuel p m size t e p' q = ground arith
