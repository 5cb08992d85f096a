-- ===== src/LogEvent/Rotate/Layout.antt =====
-- A rotate event in the layout that MySQL documents: the position, and then the name of the next
-- binlog up to the end of the event or its checksum.
use mysqlslave.Base.{
  ℕ, ◌+◌, ◌^◌, ◌<◌, ◌≡◌, refl, ◌∙◌, arith, some, Bool-cases, inl, inr, List, ◌++◌, length,
  length-append, drop, drop_past, if◌then◌else◌,
}
use mathlib.Core.List.{append_assoc}
use mysqlslave.Base.Words.{sub64}
use mysqlslave.Memory.{Memory, Headers, load_bytes}
use mysqlslave.Memory.Endian.{le_bytes, take_exact-append, uint_korr-le_bytes}
use mysqlslave.LogEvent.{FormatDescription, LogEvent}
use mysqlslave.LogEvent.Header.{IsEvent, read_header, tail_bytes, body_at, header_tune-event}
use mysqlslave.LogEvent.Rotate.{rotate_tune}

abbrev pub rotate_body : ℕ → List ℕ → List ℕ
rotate_body position name = le_bytes 8 position ++ name

module _ ⦃h : Headers⦄ where
  module _ {e : LogEvent} {t position crc : ℕ} {name rest : List ℕ} {fmt : FormatDescription}
      {m : Memory} {start size : ℕ}
      (event : IsEvent e t (rotate_body position name) crc fmt m start size rest)
      (fits : position < 256 ^ 8) where
    at_position :
        drop (start + fmt.common_header_len) m
        ≡ le_bytes 8 position ++ (name ++ (tail_bytes fmt crc ++ rest))
    at_position = body_at event ∙ append_assoc (le_bytes 8 position) name _

    length-body : length (rotate_body position name) ≡ 8 + length name
    length-body = length-append (le_bytes 8 position) name

    -- What is left behind the header and the position, without the checksum.
    length-name :
        sub64
          (if fmt.use_checksum
            then sub64 (sub64 size fmt.common_header_len) 4
            else sub64 size fmt.common_header_len)
          8
        ≡ length name
    length-name = elim (Bool-cases fmt.use_checksum) [
      | inl on ↦
          let sized : size ≡ 19 + length (rotate_body position name) + 4 = rw on at event.sized in
          rw (on, event.header_len) (omega (arith, sized, length-body, event.size_fits))
      | inr off ↦
          let sized : size ≡ 19 + length (rotate_body position name) + 0 = rw off at event.sized in
          rw (off, event.header_len) (omega (arith, sized, length-body, event.size_fits))
    ]

    pub rotate_tune-event :
        rotate_tune m start size fmt
        ≡ some (record {
          header = read_header e crc fmt;
          position = position;
          new_log = start + fmt.common_header_len + 8;
          len = length name;
        })
    unfolding rotate_tune
    rotate_tune-event =
        rw
          (
            header_tune-event event,
            uint_korr-le_bytes 8 position m _ _ at_position fits,
            length-name,
          )
          refl

    pub name_at : load_bytes (length name) m (start + fmt.common_header_len + 8) ≡ some name
    name_at =
        rw (drop_past m (start + fmt.common_header_len) (le_bytes 8 position) _ at_position)
          (take_exact-append name (tail_bytes fmt crc ++ rest))
