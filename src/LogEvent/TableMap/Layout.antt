-- ===== src/LogEvent/TableMap/Layout.antt =====
-- `CTableMapLogEvent` against the layout of a table map event that MySQL documents.
use mysqlslave.Base.{ℕ, ◌+◌, ◌^◌, ◌<◌, ◌≡◌, refl, ap, ◌∙◌, arith}
use mysqlslave.Base.{List, [], ◌∷◌, ◌++◌, some, none, ◌==◌, if◌then◌else◌, Bool-cases, inl, inr}
use mysqlslave.Base.{length, drop, drop-add, drop-append, drop_past, drop_next, get_elem?-drop}
use mysqlslave.Base.Words.{sub64}
use mysqlslave.Memory.Strings.{c_string-append}
use mysqlslave.Memory.{Memory, Headers, c_string, load_bytes}
use mysqlslave.Memory.Endian.{uint_korr-le_bytes}
use mysqlslave.LogEvent.{EventType, header_len_of, FormatDescription, LogEvent, success}
use mysqlslave.LogEvent.Header.{IsEvent, header_bytes, read_header, header_tune-event}
use mysqlslave.LogEvent.FieldLength.{net_field_length}
use mysqlslave.LogEvent.FieldLength.RoundTrip.{field_length_bytes, net_field_length-encoded}
use mysqlslave.LogEvent.TableMap.{
  map_id_start, map_names_start, get_table_id, get_database_name, get_table_name, read_name,
  table_map_tune,
}
use mysqlslave.LogEvent.TableMap.Bytes.{
  TableLayout, IsTableLayout, name_block, sized_block, table_map_block, load_exact,
  read_name-encoded,
}

-- The addresses of the parts, for names that start at `p`.
module _ (w : TableLayout) (p : ℕ) where
  abbrev table_name_start : ℕ
  table_name_start = p + 1 + (length w.db_name + 1)

  abbrev count_start : ℕ
  count_start = table_name_start + 1 + (length w.table_name + 1)

  abbrev types_start : ℕ
  types_start = count_start + length (field_length_bytes (length w.types))

  abbrev metadata_len_start : ℕ
  metadata_len_start = types_start + length w.types

  abbrev metadata_start : ℕ
  metadata_start = metadata_len_start + length (field_length_bytes (length w.metadata))

name_past :
    (s : List ℕ) (m : Memory) (p : ℕ) (rest : List ℕ)
    → drop p m ≡ name_block s rest
    → drop (p + 1 + (length s + 1)) m ≡ rest
name_past s m p rest at = rw (
  drop-add (p + 1) (length s + 1) m,
  drop_next m p _ _ at,
  drop-add (length s) 1 (s ++ (0 ∷ rest)),
  drop-append s (0 ∷ rest),
)

-- A memory that holds the event at `start`, whatever follows it.
module _ ⦃h : Headers⦄ (e : LogEvent) (t : ℕ) (w : TableLayout) (m : Memory) (start : ℕ)
    (fmt : FormatDescription) (rest : List ℕ) (valid : IsTableLayout w)
    (header_len : fmt.common_header_len ≡ 19)
    (post_header_len : header_len_of fmt EventType.table_map_event ≡ 8)
    (placed : drop start m ≡ header_bytes e t ++ table_map_block w rest) where
  abbrev names_start : ℕ
  names_start = map_names_start start fmt

  at_id : drop (map_id_start start fmt) m ≡ table_map_block w rest
  at_id = rw (header_len, drop-add start 19 m, placed)

  at_names :
      drop names_start m
      ≡ name_block w.db_name (
          name_block w.table_name
            (sized_block w.types (sized_block w.metadata (w.null_bits ++ rest))))
  at_names = rw (post_header_len, drop-add (map_id_start start fmt) 8 m, at_id)

  at_table_name :
      drop (table_name_start w names_start) m
      ≡ name_block w.table_name (sized_block w.types (sized_block w.metadata (w.null_bits ++ rest)))
  at_table_name = name_past w.db_name m names_start _ at_names

  at_count :
      drop (count_start w names_start) m
      ≡ sized_block w.types (sized_block w.metadata (w.null_bits ++ rest))
  at_count = name_past w.table_name m (table_name_start w names_start) _ at_table_name

  pub at_types :
      drop (types_start w names_start) m ≡ w.types ++ sized_block w.metadata (w.null_bits ++ rest)
  at_types =
      drop_past m (count_start w names_start) (field_length_bytes (length w.types)) _ at_count

  at_metadata_len :
      drop (metadata_len_start w names_start) m ≡ sized_block w.metadata (w.null_bits ++ rest)
  at_metadata_len = drop_past m (types_start w names_start) w.types _ at_types

  pub at_metadata : drop (metadata_start w names_start) m ≡ w.metadata ++ (w.null_bits ++ rest)
  at_metadata =
      drop_past m (metadata_len_start w names_start) (field_length_bytes (length w.metadata)) _
        at_metadata_len

  read_size :
      (n p : ℕ) (behind : List ℕ)
      → n < 2 ^ 32
      → drop p m ≡ field_length_bytes n ++ behind
      → net_field_length m p ≡ some (n, p + length (field_length_bytes n))
  read_size n p behind fits at =
      net_field_length-encoded n m p behind (omega arith) at
      ∙ ap (λ (k : ℕ). some (k, p + length (field_length_bytes n))) (omega arith)

  id_at : get_table_id m start fmt ≡ some w.table_id
  unfolding get_table_id
  id_at =
      rw post_header_len
        (uint_korr-le_bytes 6 w.table_id m (map_id_start start fmt) _ at_id valid.table_id_fits)

  -- What the dispatcher looks up before it lets the table tune itself: the id and the two names,
  -- as the event has them.
  table_map-names :
      (get_table_id m start fmt ≡ some w.table_id)
      × (get_database_name m start fmt ≡ some w.db_name)
      × (get_table_name m start fmt ≡ some w.table_name)
  unfolding get_database_name get_table_name
  table_map-names = (
    id_at,
    ap c_string (drop_next m names_start _ _ at_names)
        ∙ c_string-append w.db_name _ valid.db_name_valid.no_nul,
    rw (get_elem?-drop m names_start (length w.db_name) _ at_names, address)
        (ap c_string (drop_next m (table_name_start w names_start) _ _ at_table_name)
          ∙ c_string-append w.table_name _ valid.table_name_valid.no_nul),
  )
    where
      address : names_start + length w.db_name + 3 ≡ table_name_start w names_start + 1
      address = omega arith

  -- The names, and the sizes of the two lists behind them.
  read_parts :
      (read_name m names_start ≡ some (w.db_name, table_name_start w names_start))
      × (read_name m (table_name_start w names_start)
          ≡ some (w.table_name, count_start w names_start))
      × (net_field_length m (count_start w names_start)
          ≡ some (length w.types, types_start w names_start))
      × (net_field_length m (metadata_len_start w names_start)
          ≡ some (length w.metadata, metadata_start w names_start))
  read_parts = (
    read_name-encoded w.db_name m names_start _ valid.db_name_valid at_names,
    read_name-encoded w.table_name m (table_name_start w names_start) _ valid.table_name_valid
        at_table_name,
    read_size (length w.types) (count_start w names_start) _ valid.types_fit at_count,
    read_size (length w.metadata) (metadata_len_start w names_start) _ valid.metadata_fits
        at_metadata_len,
  )

module _ ⦃h : Headers⦄ (e : LogEvent) (t : ℕ) (w : TableLayout) (crc : ℕ) (m : Memory)
    (start size : ℕ) (fmt : FormatDescription) (rest : List ℕ) (valid : IsTableLayout w)
    (post_header_len : header_len_of fmt EventType.table_map_event ≡ 8)
    (event : IsEvent e t (table_map_block w []) crc fmt m start size rest) where
  -- The copy that the table keeps: the event without its checksum.
  abbrev copy : Memory
  copy = header_bytes e t ++ table_map_block w []

  copied : load_bytes (if fmt.use_checksum then sub64 size 4 else size) m start ≡ some copy
  copied = load_exact copy m start _ _ event.placed size_of_copy
    where
      size_of_copy : (if fmt.use_checksum then sub64 size 4 else size) ≡ length copy
      size_of_copy = elim (Bool-cases fmt.use_checksum) [
        | inl on ↦ rw on (omega (arith, rw on at event.sized, event.size_fits))
        | inr off ↦ rw off (omega (arith, rw off at event.sized))
      ]

  -- A table map event on the layout that MySQL documents: `tune` succeeds and reads every field,
  -- and the addresses that it keeps lead to the types of the columns and to their metadata.
  pub table_map_tune-event :
      (types_at metadata_at : ℕ) × (table_map_tune m start size fmt
        ≡ some (
          success,
          record {
            header = read_header e crc fmt;
            table_id = w.table_id;
            buffer = copy;
            db_name = w.db_name;
            table_name = w.table_name;
            column_count = length w.types;
            column_types = types_at;
            metadata_length = length w.metadata;
            metadata = if length w.metadata == 0 then none else some metadata_at;
          },
        ))
      × (drop types_at copy ≡ w.types ++ sized_block w.metadata (w.null_bits ++ []))
      × (drop metadata_at copy ≡ w.metadata ++ (w.null_bits ++ []))
  unfolding table_map_tune
  table_map_tune-event =
      let (db_name, table_name, count, metadata_len) =
        read_parts e t w copy 0 fmt [] valid event.header_len post_header_len refl in
      (
        types_start w (map_names_start 0 fmt),
        metadata_start w (map_names_start 0 fmt),
        rw
            (
              header_tune-event event,
              copied,
              id_at e t w copy 0 fmt [] valid event.header_len post_header_len refl,
              db_name,
              table_name,
              count,
              metadata_len,
            )
            refl,
        at_types e t w copy 0 fmt [] valid event.header_len post_header_len refl,
        at_metadata e t w copy 0 fmt [] valid event.header_len post_header_len refl,
      )
