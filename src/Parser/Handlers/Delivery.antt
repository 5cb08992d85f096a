-- ===== src/Parser/Handlers/Delivery.antt =====
-- What a rows event on the wire makes of the parser: the client is called with the rows.
use mysqlslave.Base.{
  ℕ, ◌+◌, ◌-◌, ◌^◌, ◌≤◌, ◌<◌, ◌≡◌, refl, ap, ◌∙◌, some, none, Bool, true, false, ◌==◌,
  if◌then◌else◌, List, [], ◌∷◌, ◌++◌, All, length, drop,
}
use mysqlslave.Base.Dict.{lookup}
use mysqlslave.Memory.{Memory, Headers}
use mysqlslave.LogEvent.{EventType, event_code, LogEvent, success}
use mysqlslave.LogEvent.Header.{IsEvent, tail_bytes, read_header}
use mysqlslave.LogEvent.TableMap.{TableMapEvent}
use mysqlslave.LogEvent.ColumnMask.{update_n1bits}
use mysqlslave.LogEvent.Rows.{RowEvent, is_update, is_v2, row_tune}
use mysqlslave.LogEvent.Rows.Bytes.{RowHead, IsRowHead, row_head_bytes}
use mysqlslave.LogEvent.Rows.Layout.{row_tune-event}
use mysqlslave.Database.{Table}
use mysqlslave.Database.Update.{table_update, as_rows}
use mysqlslave.Database.Update.Images.{IsRow}
use mysqlslave.Database.Update.Changes.{
  Change, written, updated, changes_bytes, IsChange, old_rows, new_rows_of, final_values,
}
use mysqlslave.Database.Update.Refines.{table_update-refines}
use mysqlslave.Parser.{
  Parser, returned, Call, on_insert, on_update, on_delete, TablePointer, put_table, find_table,
}
use mysqlslave.Parser.Handlers.{
  RowsKind, write, update, delete, call_of, handle_rows, handle_event, deliver_rows,
}

-- The type of a rows event of a kind, in version 1 or 2.
abbrev pub rows_code : RowsKind → Bool → ℕ
rows_code write false = event_code EventType.write_rows_event
rows_code write true = event_code EventType.write_rows_v2_event
rows_code update false = event_code EventType.update_rows_event
rows_code update true = event_code EventType.update_rows_v2_event
rows_code delete false = event_code EventType.delete_rows_event
rows_code delete true = event_code EventType.delete_rows_v2_event

-- The changes that an event of a kind has: pairs of rows in an UPDATE, single rows in the others.
abbrev pub FitsKind : ⦃h : Headers⦄ → TableMapEvent → ℕ → RowsKind → Change → Type 0
FitsKind e n update (written cells) = ⊥
FitsKind e n update (updated old new) = IsRow e n old × IsRow e n new
FitsKind e n _ (written cells) = IsRow e n cells
FitsKind e n _ (updated old new) = ⊥

-- A table whose map the event and its changes fit, with a value for each column.
abbrev pub FitsTable : ⦃h : Headers⦄ → Table → RowHead → RowsKind → List Change → Type 0
FitsTable t w kind cs =
    (t.event.table_id ≡ w.table_id)
    × (length t.row.values ≡ w.ncolumns)
    × All (FitsKind t.event w.ncolumns kind) cs

-- All columns are used, in both images.
abbrev pub UsesAll : RowHead → Type 0
UsesAll w = (w.columns ≡ 2 ^ w.ncolumns - 1) × (w.afterimage ≡ 2 ^ w.ncolumns - 1)

-- The table when the changes, which stand at `a`, have been read.
abbrev pub changed_table : Table → List Change → ℕ → Table
changed_table t cs a = record t {
  row = record { has_table = t.row.has_table; values = final_values cs t.row.values a };
  rows = as_rows t.row.has_table (old_rows cs t.row.values a);
  new_rows = as_rows t.row.has_table (new_rows_of cs t.row.values a);
}

-- The call that the client gets for the changes: the rows as they were inserted or deleted, or for
-- an UPDATE the rows behind it, then those before it.
abbrev pub delivered : RowsKind → Table → List Change → ℕ → Call
delivered write t cs a =
    on_insert (changed_table t cs a) (as_rows t.row.has_table (old_rows cs t.row.values a))
delivered update t cs a =
    on_update (changed_table t cs a) (as_rows t.row.has_table (new_rows_of cs t.row.values a))
      (as_rows t.row.has_table (old_rows cs t.row.values a))
delivered delete t cs a =
    on_delete (changed_table t cs a) (as_rows t.row.has_table (old_rows cs t.row.values a))

call_of-delivered :
    (kind : RowsKind) (t : Table) (cs : List Change) (a : ℕ)
    → call_of kind (changed_table t cs a) ≡ delivered kind t cs a
call_of-delivered write t cs a = refl
call_of-delivered update t cs a = refl
call_of-delivered delete t cs a = refl

-- The parser behind the changes: the table is stored, the event kept, and the client called.
abbrev pub after_rows :
    RowsKind → Parser → TablePointer → Table → List Change → ℕ → RowEvent → Parser
after_rows kind p at t cs a r =
    record (put_table (record p { event_row = r }) at (changed_table t cs a)) {
      calls = p.calls ++ (delivered kind t cs a ∷ []);
    }

module _ ⦃h : Headers⦄ where
  -- A rows event is handled by `handle_rows`, and its type tells an UPDATE.
  handle_event-kind :
      (fuel : ℕ) (kind : RowsKind) (v2 : Bool) (p : Parser) (m : Memory) (size : ℕ)
      → handle_event fuel p m size (rows_code kind v2) ≡ handle_rows fuel kind p m size
  unfolding handle_event
  handle_event-kind fuel write false p m size = refl
  handle_event-kind fuel write true p m size = refl
  handle_event-kind fuel update false p m size = refl
  handle_event-kind fuel update true p m size = refl
  handle_event-kind fuel delete false p m size = refl
  handle_event-kind fuel delete true p m size = refl

  FitsKind-IsChange :
      (e : TableMapEvent) (n : ℕ) (kind : RowsKind) (v2 : Bool) (r : RowEvent) (c : Change)
      → r.event_type ≡ rows_code kind v2
      → (is_update r.event_type ≡ true → r.used_columns_afterimage ≡ update_n1bits (2 ^ n - 1))
      → FitsKind e n kind c
      → IsChange e r n c
  FitsKind-IsChange e n write false r (written cells) same after fits = (rw same refl, fits)
  FitsKind-IsChange e n write true r (written cells) same after fits = (rw same refl, fits)
  FitsKind-IsChange e n delete false r (written cells) same after fits = (rw same refl, fits)
  FitsKind-IsChange e n delete true r (written cells) same after fits = (rw same refl, fits)
  FitsKind-IsChange e n update false r (updated old new) same after fits =
      let is : is_update r.event_type ≡ true = rw same refl in (is, after is, fits.0, fits.1)
  FitsKind-IsChange e n update true r (updated old new) same after fits =
      let is : is_update r.event_type ≡ true = rw same refl in (is, after is, fits.0, fits.1)
  FitsKind-IsChange e n write v2 r (updated old new) same after fits = absurd fits
  FitsKind-IsChange e n delete v2 r (updated old new) same after fits = absurd fits
  FitsKind-IsChange e n update v2 r (written cells) same after fits = absurd fits

  FitsKind-All :
      (e : TableMapEvent) (n : ℕ) (kind : RowsKind) (v2 : Bool) (r : RowEvent) (cs : List Change)
      → r.event_type ≡ rows_code kind v2
      → (is_update r.event_type ≡ true → r.used_columns_afterimage ≡ update_n1bits (2 ^ n - 1))
      → All (FitsKind e n kind) cs
      → All (IsChange e r n) cs
  FitsKind-All e n kind v2 r [] same after fits = tt
  FitsKind-All e n kind v2 r (c ∷ cs) same after fits = (
    FitsKind-IsChange e n kind v2 r c same after fits.0,
    FitsKind-All e n kind v2 r cs same after fits.1,
  )

  -- What the handler does once the event is read.
  handle_rows-read :
      (fuel : ℕ) (kind : RowsKind) (p : Parser) (m : Memory) (size : ℕ) (r : RowEvent)
      (at : TablePointer) (t t' : Table)
      → row_tune p.event_row m 1 size p.fmt ≡ some (success, r)
      → lookup ◌==◌ r.table_id p.id_2_table ≡ some at
      → find_table p at ≡ some t
      → table_update fuel t r m ≡ some (some (success, t'))
      → handle_rows fuel kind p m size
        ≡ returned (record (put_table (record p { event_row = r }) at t') {
          calls = p.calls ++ (call_of kind t' ∷ []);
        })
  unfolding handle_rows deliver_rows find_table put_table
  handle_rows-read fuel kind p m size r at t t' read known found updated_to =
      rw (read, known, found, updated_to) refl

  -- A rows event in the documented layout, of any kind and version: the handler calls the client
  -- with the table and the rows, and keeps the event.
  pub handle_event-rows :
      (fuel : ℕ) (kind : RowsKind) (v2 : Bool) (e : LogEvent) (w : RowHead) (cs : List Change)
      (crc : ℕ) (p : Parser) (m : Memory) (size : ℕ) (rest : List ℕ) (at : TablePointer) (t : Table)
      → IsEvent e
          (rows_code kind v2)
          (row_head_bytes (rows_code kind v2) w (changes_bytes cs))
          crc
          p.fmt
          m
          1
          size
          rest
      → IsRowHead w
      → UsesAll w
      → lookup ◌==◌ w.table_id p.id_2_table ≡ some at
      → find_table p at ≡ some t
      → FitsTable t w kind cs
      → length cs ≤ fuel
      → length (changes_bytes cs) < 2 ^ 63
      → (a : ℕ) × (r : RowEvent) × (drop a m ≡ changes_bytes cs ++ (tail_bytes p.fmt crc ++ rest))
        × (handle_event fuel p m size (rows_code kind v2)
            ≡ returned (after_rows kind p at t cs a r))
  handle_event-rows fuel kind v2 e w cs crc p m size rest at t event valid (used, after) known found
        (ids, same, fits) enough small =
      let code = rows_code kind v2 in
      let (a, read, at_rows) =
        row_tune-event p.event_row e code w (changes_bytes cs) crc m 1 size p.fmt rest valid
          event in
      let r : RowEvent = record {
        header = read_header e crc p.fmt;
        event_type = code;
        row_flags = w.row_flags;
        table_id = w.table_id;
        ncolumns = w.ncolumns;
        extra_data_len = if is_v2 code then length w.extra else 0;
        extra_data = if is_v2 code then some (1 + p.fmt.common_header_len + 6 + 2 + 2) else none;
        used_columns = update_n1bits w.columns;
        used_columns_afterimage =
            if is_update code
            then update_n1bits w.afterimage
            else p.event_row.used_columns_afterimage;
        rows_data = a;
        rows_len = length (changes_bytes cs);
        valid = true;
      } in
      let second : is_update code ≡ true
          → r.used_columns_afterimage ≡ update_n1bits (2 ^ w.ncolumns - 1) =
        λ is. rw (is, after) refl in
      let ran =
        table_update-refines cs fuel w.ncolumns t r m (tail_bytes p.fmt crc ++ rest)
          valid.some_columns valid.few_columns refl (ap update_n1bits used) refl ids same
          (FitsKind-All t.event w.ncolumns kind v2 r cs refl second fits) enough refl small
          at_rows in
      (
        a,
        r,
        at_rows,
        handle_event-kind fuel kind v2 p m size
            ∙ handle_rows-read fuel kind p m size r at t (changed_table t cs a) read known found ran
            ∙ ap
                (λ c.
                  returned
                    (record (put_table (record p { event_row = r }) at (changed_table t cs a)) {
                      calls = p.calls ++ (c ∷ []);
                    }))
                (call_of-delivered kind t cs a),
      )
