-- ===== src/Parser/Dispatch/Order.antt =====
-- What one round of `CLogParser::dispatch_events` ensures, and in which order it does its work.
use mysqlslave.Base.{ℕ, ◌+◌, ◌≤◌, ◌≡◌, refl, ap, arith, some, [], ◌∷◌}
use mysqlslave.Base.{Bool, true, false, not, ◌&&◌, ◌==◌, if◌then◌else◌, inl, inr, Option-cases}
use mysqlslave.Base.{length, drop, length-drop}
use mysqlslave.Memory.{Memory, Headers, uint_korr, load}
use mysqlslave.Memory.Endian.{take_exact_short}
use mysqlslave.LogEvent.{EventType, event_code, event_type_offset, is_supported}
use mysqlslave.Parser.{Parser, Result, returned, thrown, undefined, stuck, Exception, and_then}
use mysqlslave.Parser.Handlers.{handle_event}
use mysqlslave.Parser.Handlers.Effects.{
  Always, Always-defined, Always-and_then, CallsAtMostOnce, handle_event-calls, handle_event_throws,
}
use mysqlslave.Parser.Handlers.Pointers.{Wired, set_connection-Wired}
use mysqlslave.Parser.Handlers.Wired.{handle_event-Wired}
use mysqlslave.Parser.Dispatch.{
  Zlib, Received, packet_error, packet, compare_checksum, verify_checksum, process_event,
  check_length, handle_packet,
}

module _ ⦃h : Headers⦄ where
  module _ ⦃z : Zlib⦄ where
    -- The checksum changes nothing.
    verify_checksum-Always :
        (P : Parser → Type 0) (p : Parser) (m : Memory) (size : ℕ)
        → P p
        → Always P (verify_checksum p m size)
    unfolding verify_checksum compare_checksum
    verify_checksum-Always P p m size holds = ground (arith, holds)

    pub process_event-Always :
        (P : Parser → Type 0) (fuel : ℕ) (p : Parser) (m : Memory) (size : ℕ)
        → P p
        → ((t : ℕ)
            → load m (1 + event_type_offset) ≡ some t
            → Always P (handle_event fuel p m size t))
        → Always P (process_event fuel p m size)
    unfolding process_event
    process_event-Always P fuel p m size holds handled =
        Always-defined P (load m (1 + event_type_offset)) _ (λ t read.
          choose (not (is_supported t) && not (t == event_code EventType.format_description_event))
            (Exception.not_supported t)
            (and_then (handle_event fuel p m size t) (λ p'. verify_checksum p' m size))
            (Always-and_then P P (handle_event fuel p m size t) (λ p'. verify_checksum p' m size)
              (handled t read) (λ p' before. before)
              (λ p' after. verify_checksum-Always P p' m size after)))
      where
        choose :
            (b : Bool) (e : Exception) (r : Result)
            → Always P r
            → Always P (if b then thrown e p else r)
        choose true e r later = holds
        choose false e r later = later

    handle_packet-Always :
        (P : Parser → Type 0) (fuel : ℕ) (p : Parser) (r : Received)
        → P p
        → P (record p { is_connected = false })
        → ((m : Memory) (size t : ℕ) → Always P (handle_event fuel p m size t))
        → Always P (handle_packet fuel p r)
    unfolding handle_packet check_length
    handle_packet-Always P fuel p packet_error holds lost handled = lost
    handle_packet-Always P fuel p (packet []) holds lost handled = lost
    handle_packet-Always P fuel p (packet (b ∷ m)) holds lost handled = ground (
      arith,
      holds,
      lost,
      process_event-Always P fuel p (b ∷ m) (length m) holds
          (λ t read. handled (b ∷ m) (length m) t),
    )

    -- Whatever the server sends, a round calls the client at most once, however it ends.
    pub handle_packet-calls :
        (fuel : ℕ) (p : Parser) (r : Received) → Always (CallsAtMostOnce p) (handle_packet fuel p r)
    handle_packet-calls fuel p r =
        handle_packet-Always (CallsAtMostOnce p) fuel p r (inl refl) (inl refl)
          (handle_event-calls fuel p)

    -- Whatever the server sends, a round leaves each pointer in `_id_2_table` at a table, if each
    -- was at one before.
    pub handle_packet-Wired :
        (fuel : ℕ) (p : Parser) (r : Received) → Wired p → Always Wired (handle_packet fuel p r)
    handle_packet-Wired fuel p r wired =
        handle_packet-Always Wired fuel p r wired
          (set_connection-Wired p false p.binlog_name p.binlog_pos p.binlog_flags wired)
          (λ m size t. handle_event-Wired fuel p m size t wired)

    verify_checksum_throws :
        (p p' : Parser) (m : Memory) (size : ℕ) (e : Exception)
        → verify_checksum p m size ≡ thrown e p'
        → p ≡ p'
    unfolding verify_checksum compare_checksum
    verify_checksum_throws p p' m size e q = ground arith

    -- A mismatch behind a handler that throws only for an event that cannot be read.
    mismatch_after :
        (r : Result) (m : Memory) (size : ℕ) (p' : Parser)
        → ((e : Exception) (p : Parser) → r ≡ thrown e p → e ≡ Exception.tuning_failed)
        → and_then r (λ p. verify_checksum p m size) ≡ thrown Exception.checksum_mismatch p'
        → r ≡ returned p'
    mismatch_after (returned p) m size p' throws q =
        ap returned (verify_checksum_throws p p' m size Exception.checksum_mismatch q)
    mismatch_after (thrown e p) m size p' throws q = ground (arith, throws e p refl, q)
    mismatch_after undefined m size p' throws q = ground (arith, q)
    mismatch_after stuck m size p' throws q = ground (arith, q)

    -- A packet is refused for its checksum only when its event has been handled: the parser that is
    -- left, with the calls made, is the one after the handling.
    pub handle_packet-late_checksum :
        (fuel : ℕ) (p p' : Parser) (b : ℕ) (m : Memory)
        → handle_packet fuel p (packet (b ∷ m)) ≡ thrown Exception.checksum_mismatch p'
        → (t : ℕ) × (load (b ∷ m) (1 + event_type_offset) ≡ some t)
          × (handle_event fuel p (b ∷ m) (length m) t ≡ returned p')
    unfolding handle_packet check_length process_event
    handle_packet-late_checksum fuel p p' b m q =
        elim (Option-cases (load (b ∷ m) (1 + event_type_offset))) [
          | inl outside ↦ absurd (ground (arith, outside, q))
          | inr (t, at) ↦ (
            t,
            at,
            mismatch_after (handle_event fuel p (b ∷ m) (length m) t) (b ∷ m) (length m) p'
                (λ e p''. handle_event_throws fuel p (b ∷ m) (length m) t e p'')
                (ground (arith, at, q)),
          )
        ]

    -- An event of nine to twelve bytes passes the test of its size, and its length is then read
    -- outside the packet.
    pub handle_packet-short :
        (fuel : ℕ) (p : Parser) (b : ℕ) (m : Memory)
        → 9 ≤ length m
        → length m ≤ 12
        → handle_packet fuel p (packet (b ∷ m)) ≡ undefined
    unfolding handle_packet check_length uint_korr
    handle_packet-short fuel p b m lo hi =
        ground (arith, take_exact_short 4 (drop 10 (b ∷ m)), length-drop 10 (b ∷ m))
