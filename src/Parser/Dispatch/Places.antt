-- ===== src/Parser/Dispatch/Places.antt =====
-- Where a reader that reconnects goes on: the position while table maps and rows are read.
use mysqlslave.Base.{
  ℕ, ◌+◌, ◌≡◌, refl, ◌∙◌, arith, none, some, true, List, [], ◌∷◌, All, length, subst,
}
use mysqlslave.Memory.{Memory, Headers, load}
use mysqlslave.LogEvent.{event_type_offset}
use mysqlslave.Parser.{Parser, Result, returned, and_then}
use mysqlslave.Parser.Handlers.Effects.{
  Always, Always-and_then, Always-weaken, SamePosition, is_row_or_map, handle_event-position,
}
use mysqlslave.Parser.Dispatch.{Zlib, Received, packet_error, packet, check_length, handle_packet}
use mysqlslave.Parser.Dispatch.Order.{process_event-Always}

-- No packet, or one whose byte for the type, if it has one, says a format, a table map or rows.
abbrev pub IsRowOrMap : Received → Type 0
IsRowOrMap packet_error = Unit
IsRowOrMap (packet m) = elim (load m (1 + event_type_offset)) [
  | none ↦ Unit
  | some t ↦ is_row_or_map t ≡ true
]

type_read :
    (m : Memory) (t : ℕ)
    → IsRowOrMap (packet m)
    → load m (1 + event_type_offset) ≡ some t
    → is_row_or_map t ≡ true
type_read m t held read =
    subst (λ o. elim o [ none ↦ Unit | some t ↦ is_row_or_map t ≡ true ]) read held

SamePosition-trans : (p q q' : Parser) → SamePosition p q → SamePosition q q' → SamePosition p q'
SamePosition-trans p q q' (name, pos) (name', pos') = (name' ∙ name, pos' ∙ pos)

module _ ⦃h : Headers⦄ where
  module _ ⦃z : Zlib⦄ where
    -- One round for each packet, up to one that does not return.
    unfoldable pub handle_packets : ℕ → Parser → List Received → Result
    handle_packets fuel p [] = returned p
    handle_packets fuel p (r ∷ rs) =
        and_then (handle_packet fuel p r) (λ p'. handle_packets fuel p' rs)

    handle_packet-position :
        (fuel : ℕ) (p : Parser) (r : Received)
        → IsRowOrMap r
        → Always (SamePosition p) (handle_packet fuel p r)
    unfolding handle_packet check_length
    handle_packet-position fuel p packet_error held = (refl, refl)
    handle_packet-position fuel p (packet []) held = (refl, refl)
    handle_packet-position fuel p (packet (b ∷ m)) held = ground (
      arith,
      process_event-Always (SamePosition p) fuel p (b ∷ m) (length m) (refl, refl)
          (λ t read.
            handle_event-position fuel p (b ∷ m) (length m) t (type_read (b ∷ m) t held read)),
    )

    -- While nothing but formats, table maps, rows, failed reads and packets too short for a type come
    -- from the server, one after another, the name of the binlog and the position in it stay as they
    -- were before the first of them, however the rounds end.
    pub handle_packets-position :
        (fuel : ℕ) (p : Parser) (rs : List Received)
        → All IsRowOrMap rs
        → Always (SamePosition p) (handle_packets fuel p rs)
    unfolding handle_packets
    handle_packets-position fuel p [] held = (refl, refl)
    handle_packets-position fuel p (r ∷ rs) held =
        Always-and_then (SamePosition p) (SamePosition p) (handle_packet fuel p r)
          (λ p'. handle_packets fuel p' rs) (handle_packet-position fuel p r held.0)
          (λ q same. same)
          (λ q same.
            Always-weaken (SamePosition q) (SamePosition p) (handle_packets fuel q rs)
              (λ q' same'. SamePosition-trans p q q' same same')
              (handle_packets-position fuel q rs held.1))
