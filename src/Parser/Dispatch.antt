-- ===== src/Parser/Dispatch.antt =====
-- `CLogParser::dispatch_events` of src/mysqlslave/logparser.cpp: one packet from the server, and
-- the loop. The network, zlib's `crc32`, and the thread that calls `stop_event_loop` are outside.
pub mod Delivery
pub mod Order
pub mod Places
use mysqlslave.Base.{ℕ, ◌+◌, ◌-◌, Option, none, some, ◌==◌, not, ◌&&◌, ◌||◌, ltb, if◌then◌else◌}
use mysqlslave.Base.{Bool, true, false, List, [], ◌∷◌, length, drop, take, bit_and}
use mysqlslave.Base.Words.{u32}
use mysqlslave.Memory.{Memory, Headers, load, load_bytes, uint_korr}
use mysqlslave.LogEvent.{
  EventType, event_code, event_type_offset, event_len_offset, flags_offset, log_event_artificial_f,
  is_supported,
}
use mysqlslave.Parser.{
  Parser, Result, returned, thrown, undefined, stuck, Exception, and_then, defined,
}
use mysqlslave.Parser.Handlers.{handle_event}

-- What the program takes from zlib: `crc32(crc32(0, NULL, 0), buf, len)`.
pub record Zlib : Type 0 where
  pub crc32 : List ℕ → ℕ

-- What `cli_safe_read` gives: an error, or the bytes of a packet.
pub data Received : Type 0 where
  packet_error : Received
  packet : List ℕ → Received

module _ ⦃h : Headers⦄ where
  module _ ⦃z : Zlib⦄ where
    -- The last four bytes of the event against the CRC of those before. (The tests of the length
    -- come first, so an event has at least nine bytes.)
    unfoldable pub compare_checksum : Parser → Memory → ℕ → Result
    compare_checksum p m size = defined (uint_korr 4 m (1 + (size - 4))) λ received.
        defined (load_bytes (size - 4) m 1) λ bytes.
          if received == z.crc32 bytes then returned p else thrown Exception.checksum_mismatch p

    -- The checksum is compared after the event has been handled, but for artificial events.
    unfoldable pub verify_checksum : Parser → Memory → ℕ → Result
    unfolding compare_checksum
    verify_checksum p m size =
        let compare = defined (uint_korr 2 m (1 + flags_offset)) λ flags.
          if bit_and flags log_event_artificial_f == 0
          then compare_checksum p m size
          else returned p in
        if p.fmt.use_checksum then compare else returned p

    -- An event of `size` bytes that has passed the tests of its length.
    unfoldable pub process_event : ℕ → Parser → Memory → ℕ → Result
    unfolding verify_checksum
    process_event fuel p m size = defined (load m (1 + event_type_offset)) λ t.
        if not (is_supported t) && not (t == event_code EventType.format_description_event)
        then thrown (Exception.not_supported t) p
        else and_then (handle_event fuel p m size t) λ p'. verify_checksum p' m size

    -- The sanity check reads the length of the event, at bytes 9 to 12.
    unfoldable pub check_length : ℕ → Parser → Memory → ℕ → Result
    unfolding process_event
    check_length fuel p m size =
        if ltb size event_len_offset
        then thrown Exception.sanity_check p
        else defined (uint_korr 4 m (1 + event_len_offset)) λ event_len.
          if u32 size == event_len
          then process_event fuel p m size
          else thrown Exception.sanity_check p

    -- The body of the loop behind `cli_safe_read`, up to the test of `dispatch()`.
    unfoldable pub handle_packet : ℕ → Parser → Received → Result
    unfolding check_length
    handle_packet fuel p packet_error =
        thrown Exception.reading_packet (record p { is_connected = false })
    handle_packet fuel p (packet []) =
        thrown Exception.reading_packet (record p { is_connected = false })
    handle_packet fuel p (packet (b ∷ m)) =
        if ltb (length (b ∷ m)) 8 && b == 254
        then thrown Exception.end_packet (record p { is_connected = false })
        else check_length fuel p (b ∷ m) (length m)
