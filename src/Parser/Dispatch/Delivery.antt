-- ===== src/Parser/Dispatch/Delivery.antt =====
-- From a packet to the client: what a round of `CLogParser::dispatch_events` does with an intact
-- event, and with the rows in it.
use mysqlslave.Base.{
  ℕ, ◌+◌, ◌-◌, ◌^◌, ◌≤◌, ◌<◌, ◌≡◌, refl, sym, ap, ◌∙◌, subst, arith, some, Bool, true, false, ◌==◌,
  Bool-cases, inl, inr, List, [], ◌∷◌, ◌++◌, length, length-append, drop, bit_and, eq→==,
}
use mysqlslave.Base.Dict.{lookup}
use mysqlslave.Memory.{Memory, Headers, take_exact, uint_korr}
use mysqlslave.Memory.Endian.{uint_korr-offset, uint_korr-le_bytes, take_exact-append}
use mysqlslave.LogEvent.{LogEvent, is_supported, log_event_artificial_f}
use mysqlslave.LogEvent.Header.{
  IsEvent, header_bytes, tail_bytes, is_checked, event_type_at, tail_at,
}
use mysqlslave.LogEvent.Rows.{RowEvent}
use mysqlslave.LogEvent.Rows.Bytes.{RowHead, IsRowHead, row_head_bytes}
use mysqlslave.Database.{Table}
use mysqlslave.Database.Update.Changes.{Change, changes_bytes}
use mysqlslave.Parser.{Parser, returned, TablePointer, put_table, find_table}
use mysqlslave.Parser.Handlers.{RowsKind, write, update, delete, handle_event}
use mysqlslave.Parser.Handlers.Delivery.{
  rows_code, FitsTable, UsesAll, after_rows, handle_event-rows,
}
use mysqlslave.Parser.Dispatch.{
  Zlib, packet, compare_checksum, verify_checksum, process_event, check_length, handle_packet,
}
use mathlib.Core.List.{append_assoc}

module _ ⦃h : Headers⦄ where
  module _ ⦃z : Zlib⦄ where
    -- The checksum of an event that is compared is the CRC of the bytes before it.
    abbrev pub HasCrc : Parser → LogEvent → ℕ → List ℕ → ℕ → Type 0
    HasCrc p e t body crc =
        is_checked p.fmt e.flags ≡ true → crc ≡ z.crc32 (header_bytes e t ++ body)

    module _ (p : Parser) (e : LogEvent) (t : ℕ) (body : List ℕ) (crc : ℕ) (m : Memory) (size : ℕ)
        (event : IsEvent e t body crc p.fmt m 1 size []) where
      compare_checksum-event :
          p.fmt.use_checksum ≡ true
          → crc ≡ z.crc32 (header_bytes e t ++ body)
          → compare_checksum p m size ≡ returned p
      unfolding compare_checksum
      compare_checksum-event on checked =
          rw (stored, before, checked, eq→== (z.crc32 (header_bytes e t ++ body)) _ refl) refl
        where
          sum_size : size ≡ 19 + length body + 4
          sum_size = rw on at event.sized

          whole : length (header_bytes e t ++ body) ≡ size - 4
          whole = omega (arith, length-append (header_bytes e t) body, sum_size)

          address : 1 + (size - 4) ≡ 1 + 19 + length body
          address = omega (arith, sum_size)

          stored : uint_korr 4 m (1 + (size - 4)) ≡ some crc
          stored =
              let behind = tail_at event in
              rw address (uint_korr-le_bytes 4 crc m _ [] (rw on at behind) event.crc_fits)

          before : take_exact (size - 4) (drop 1 m) ≡ some (header_bytes e t ++ body)
          before =
              ap (λ k. take_exact k (drop 1 m)) (sym whole)
              ∙ ap (take_exact (length (header_bytes e t ++ body)))
                  (event.placed ∙ sym (append_assoc (header_bytes e t) body _))
              ∙ take_exact-append (header_bytes e t ++ body) _

      verify_checksum-event : HasCrc p e t body crc → verify_checksum p m size ≡ returned p
      unfolding verify_checksum
      verify_checksum-event checked =
          let flags =
            uint_korr-offset 2 e.flags m 1 17 _ _ event.placed refl event.header_valid.flags_fits in
          elim (Bool-cases p.fmt.use_checksum) [
            | inr off ↦ ground (arith, off)
            | inl on ↦ elim (Bool-cases (bit_and e.flags log_event_artificial_f == 0)) [
              | inl own ↦
                  let compared = compare_checksum-event on (checked (ground (arith, on, own))) in
                  ground (arith, on, own, flags, compared)
              | inr artificial ↦ ground (arith, on, artificial, flags)
            ]
          ]

    -- An event whose length is the packet's, of a type that is supported, with its checksum: the
    -- round does what the handler does.
    pub handle_packet-event :
        (fuel : ℕ) (p p' : Parser) (b : ℕ) (m : Memory) (e : LogEvent) (t : ℕ) (body : List ℕ)
        (crc : ℕ)
        → IsEvent e t body crc p.fmt (b ∷ m) 1 (length m) []
        → e.data_written ≡ length m
        → is_supported t ≡ true
        → HasCrc p e t body crc
        → p'.fmt ≡ p.fmt
        → handle_event fuel p (b ∷ m) (length m) t ≡ returned p'
        → handle_packet fuel p (packet (b ∷ m)) ≡ returned p'
    unfolding handle_packet check_length process_event
    handle_packet-event fuel p p' b m e t body crc event whole supported checked same handled =
        let in_p' : IsEvent e t body crc p'.fmt (b ∷ m) 1 (length m) [] =
          subst (λ f. IsEvent e t body crc f (b ∷ m) 1 (length m) []) (sym same) event in
        let checked' : HasCrc p' e t body crc =
          subst (λ f. is_checked f e.flags ≡ true → crc ≡ z.crc32 (header_bytes e t ++ body))
            (sym same) checked in
        let verified = verify_checksum-event p' e t body crc (b ∷ m) (length m) in_p' checked' in
        let stated =
          uint_korr-offset 4 e.data_written (b ∷ m) 1 9 _ _ event.placed refl
            event.header_valid.data_written_fits in
        let fits = event.header_valid.data_written_fits in
        let long = event.sized in
        let kind = event_type_at event in
        ground (arith, stated, whole, supported, verified, handled, kind, long, fits)

    -- A rows event of a kind and version is supported.
    rows_supported : (kind : RowsKind) (v2 : Bool) → is_supported (rows_code kind v2) ≡ true
    rows_supported write false = refl
    rows_supported write true = refl
    rows_supported update false = refl
    rows_supported update true = refl
    rows_supported delete false = refl
    rows_supported delete true = refl

    -- A packet with a rows event in the documented layout, of any kind and version: its length is the
    -- packet's, its checksum (where one is compared) is right, it has one to 48 columns that all are
    -- used, its id leads to a table that has this id and a value for each column, and its changes
    -- (fewer than 2 ^ 63 bytes) fit the kind and that table's map. With fuel for each change the round
    -- returns, and has called the client exactly once: the function for the kind, with that table and
    -- the rows that the changes mean, in their order, for an UPDATE the new ones and the old ones. The
    -- table is stored with them, the event is kept, and nothing else of the parser changes.
    pub handle_packet-rows :
        (fuel : ℕ) (kind : RowsKind) (v2 : Bool) (p : Parser) (b : ℕ) (m : Memory) (e : LogEvent)
        (w : RowHead) (cs : List Change) (crc : ℕ) (at : TablePointer) (t : Table)
        → IsEvent e
            (rows_code kind v2)
            (row_head_bytes (rows_code kind v2) w (changes_bytes cs))
            crc
            p.fmt
            (b ∷ m)
            1
            (length m)
            []
        → e.data_written ≡ length m
        → HasCrc p e
            (rows_code kind v2)
            (row_head_bytes (rows_code kind v2) w (changes_bytes cs))
            crc
        → IsRowHead w
        → UsesAll w
        → lookup ◌==◌ w.table_id p.id_2_table ≡ some at
        → find_table p at ≡ some t
        → FitsTable t w kind cs
        → length cs ≤ fuel
        → length (changes_bytes cs) < 2 ^ 63
        → (a : ℕ) × (r : RowEvent) × (drop a (b ∷ m)
            ≡ changes_bytes cs ++ (tail_bytes p.fmt crc ++ []))
          × (handle_packet fuel p (packet (b ∷ m)) ≡ returned (after_rows kind p at t cs a r))
    unfolding put_table
    handle_packet-rows fuel kind v2 p b m e w cs crc at t event whole checked valid used known found
          fits enough small =
        let (a, r, at_rows, handled) =
          handle_event-rows fuel kind v2 e w cs crc p (b ∷ m) (length m) [] at t event valid used
            known found fits enough small in
        (
          a,
          r,
          at_rows,
          handle_packet-event fuel p (after_rows kind p at t cs a r) b m e (rows_code kind v2)
              (row_head_bytes (rows_code kind v2) w (changes_bytes cs)) crc event whole
              (rows_supported kind v2) checked refl handled,
        )
