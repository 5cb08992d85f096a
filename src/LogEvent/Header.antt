-- ===== src/LogEvent/Header.antt =====
-- The common header of an event on the wire, and `CLogEvent::tune` and
-- `CFormatDescriptionLogEvent::tune` on it.
use mysqlslave.Base.{ℕ, ◌+◌, ◌-◌, ◌^◌, ◌<◌, ◌≡◌, refl, ap, ◌∙◌, arith}
use mysqlslave.Base.{List, [], ◌∷◌, ◌++◌, some, ◌>>=◌, Bool, true, ◌&&◌, ◌==◌}
use mysqlslave.Base.{
  if◌then◌else◌, length, drop, drop-add, bit_and, get_elem?-drop, drop_past, le→ltb,
}
use mysqlslave.Memory.{Memory, Headers, load}
use mysqlslave.Memory.Endian.{le_bytes, uint_korr-offset, uint_korr-le_bytes}
use mysqlslave.LogEvent.{
  event_type_offset, log_event_artificial_f, FormatDescription, LogEvent, header_tune,
  trailing_checksum,
}

-- The nineteen bytes of the header: `t` is the type, `data_written` the event's length.
abbrev pub header_bytes : LogEvent → ℕ → List ℕ
header_bytes e t =
    le_bytes 4 e.when
    ++ (t
        ∷ (le_bytes 4 e.server_id
            ++ (le_bytes 4 e.data_written ++ (le_bytes 4 e.log_pos ++ le_bytes 2 e.flags))))

-- The fields fit their widths.
pub record IsHeader (e : LogEvent) : Type 0 where
  pub when_fits : e.when < 256 ^ 4
  pub server_id_fits : e.server_id < 256 ^ 4
  pub data_written_fits : e.data_written < 256 ^ 4
  pub log_pos_fits : e.log_pos < 256 ^ 4
  pub flags_fits : e.flags < 256 ^ 2

-- Whether the event carries a checksum of its own.
abbrev pub is_checked : FormatDescription → ℕ → Bool
is_checked fmt flags = fmt.use_checksum && bit_and flags log_event_artificial_f == 0

module _ ⦃h : Headers⦄ where
  -- The fields before the checksum are read back; only the checksum looks further.
  header_fields :
      (e : LogEvent) (t : ℕ) (m : Memory) (start size : ℕ) (fmt : FormatDescription) (rest : List ℕ)
      → IsHeader e
      → drop start m ≡ header_bytes e t ++ rest
      → header_tune m start size fmt ≡ (
          (if is_checked fmt e.flags then trailing_checksum m start size else some 0) >>= λ c.
          some (record e { checksum = c }))
  unfolding header_tune
  header_fields e t m start size fmt rest valid at = rw (
    uint_korr-le_bytes 4 e.when m start _ at valid.when_fits,
    uint_korr-offset 4 e.server_id m start 5 _ _ at refl valid.server_id_fits,
    uint_korr-offset 4 e.data_written m start 9 _ _ at refl valid.data_written_fits,
    uint_korr-offset 4 e.log_pos m start 13 _ _ at refl valid.log_pos_fits,
    uint_korr-offset 2 e.flags m start 17 _ rest at refl valid.flags_fits,
  )

-- What stands behind the body of an event.
abbrev pub tail_bytes : FormatDescription → ℕ → List ℕ
tail_bytes fmt crc = if fmt.use_checksum then le_bytes 4 crc else []

-- An event of `size` bytes at `start`: header, body and tail, and then whatever follows.
pub record IsEvent (e : LogEvent) (t : ℕ) (body : List ℕ) (crc : ℕ) (fmt : FormatDescription)
    (m : Memory) (start size : ℕ) (rest : List ℕ) : Type 0 where
  pub header_valid : IsHeader e
  pub crc_fits : crc < 256 ^ 4
  pub placed : drop start m ≡ header_bytes e t ++ (body ++ (tail_bytes fmt crc ++ rest))
  pub sized : size ≡ 19 + length body + length (tail_bytes fmt crc)
  pub size_fits : size < 2 ^ 64
  pub header_len : fmt.common_header_len ≡ 19

-- The header as `tune` leaves it.
abbrev pub read_header : LogEvent → ℕ → FormatDescription → LogEvent
read_header e crc fmt = record e { checksum = if is_checked fmt e.flags then crc else 0 }

pub length-header_bytes : (e : LogEvent) (t : ℕ) → length (header_bytes e t) ≡ 19
length-header_bytes e t = refl

module _ ⦃h : Headers⦄ where
  module _ {e : LogEvent} {t : ℕ} {body : List ℕ} {crc : ℕ} {fmt : FormatDescription} {m : Memory}
      {start size : ℕ} {rest : List ℕ} (event : IsEvent e t body crc fmt m start size rest) where
    -- The type of the event, and its body.
    pub event_type_at : load m (start + event_type_offset) ≡ some t
    event_type_at = get_elem?-drop m (start + 4) t _ (drop-add start 4 m ∙ ap (drop 4) event.placed)

    pub body_at : drop (start + fmt.common_header_len) m ≡ body ++ (tail_bytes fmt crc ++ rest)
    body_at =
        ap (λ k. drop (start + k) m) event.header_len
        ∙ drop-add start 19 m
        ∙ ap (drop 19) event.placed

    -- What stands behind the body.
    pub tail_at : drop (start + 19 + length body) m ≡ tail_bytes fmt crc ++ rest
    tail_at = drop_past m (start + 19) body _ (drop-add start 19 m ∙ ap (drop 19) event.placed)

    checksum_at : fmt.use_checksum ≡ true → trailing_checksum m start size ≡ some crc
    unfolding trailing_checksum
    checksum_at on =
        rw (le→ltb size 4 (omega (arith, size_with)), address)
          (uint_korr-le_bytes 4 crc m _ rest (rw on at tail_at) event.crc_fits)
      where
        size_with : size ≡ 19 + length body + 4
        size_with = rw on at event.sized

        address : start + size - 4 ≡ start + 19 + length body
        address = omega (arith, size_with)

    -- `CLogEvent::tune` on an event with any body reads the header's fields, and the checksum
    -- behind the body if the format has checksums and the event is not artificial; without one it
    -- is 0.
    pub header_tune-event : header_tune m start size fmt ≡ some (read_header e crc fmt)
    header_tune-event =
        header_fields e t m start size fmt _ event.header_valid event.placed
        ∙ ground (arith, checksum_at)
