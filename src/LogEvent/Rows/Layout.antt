-- ===== src/LogEvent/Rows/Layout.antt =====
-- `CRowLogEvent::tune` against the layout of a rows event that MySQL documents.
use mysqlslave.Base.{ℕ, ◌+◌, ◌-◌, ◌/◌, ◌^◌, ◌<◌, ◌≡◌, refl, ap, ◌∙◌, arith}
use mysqlslave.Base.{List, ◌++◌, some, none, true, false, Bool-cases}
use mysqlslave.Base.{inl, inr, ◌==◌, if◌then◌else◌, length, drop, drop-add, drop_past}
use mysqlslave.Base.{ne→==}
use mysqlslave.Base.Words.{sub64}
use mysqlslave.Memory.{Memory, Headers}
use mysqlslave.Memory.Endian.{le_bytes, length-le_bytes, uint_korr-le_bytes, uint_korr-offset}
use mysqlslave.LogEvent.{FormatDescription, LogEvent, success}
use mysqlslave.LogEvent.Header.{
  IsEvent, tail_bytes, read_header, header_tune-event, event_type_at, body_at,
}
use mysqlslave.LogEvent.FieldLength.{net_field_length}
use mysqlslave.LogEvent.FieldLength.RoundTrip.{field_length_bytes, net_field_length-encoded}
use mysqlslave.LogEvent.ColumnMask.{build_column_mask, update_n1bits, wrong_mask}
use mysqlslave.LogEvent.ColumnMask.Widths.{build_column_mask-encoded}
use mysqlslave.LogEvent.Rows.{RowEvent, is_v2, is_update, read_extra, read_afterimage, row_tune}
use mysqlslave.LogEvent.Rows.Bytes.{
  RowHead, IsRowHead, extra_bytes, afterimage_bytes, masked, counted, row_head_bytes, mask-ne_wrong,
  extra_end, count_end, mask_end, head_end, row_head-append, length-row_head,
}

module _ ⦃h : Headers⦄ where
  read_extra-encoded :
      (t : ℕ) (x : List ℕ) (m : Memory) (p : ℕ) (rest : List ℕ)
      → length x + 2 < 256 ^ 2
      → drop p m ≡ extra_bytes t x ++ rest
      → read_extra t m p
        ≡ some (
          p + length (extra_bytes t x),
          if is_v2 t then length x else 0,
          if is_v2 t then some (p + 2) else none,
        )
  unfolding read_extra
  read_extra-encoded t x m p rest fits at = elim (Bool-cases (is_v2 t)) [
    | inl v2 ↦
        rw (v2, uint_korr-le_bytes 2 (length x + 2) m p (x ++ rest) (rw v2 at at) fits)
          (ground arith)
    | inr v1 ↦ rw v1 (ground arith)
  ]

  read_afterimage-encoded :
      (e : RowEvent) (w : RowHead) (m : Memory) (start size p : ℕ) (rest : List ℕ)
      → IsRowHead w
      → e.ncolumns ≡ w.ncolumns
      → drop p m ≡ afterimage_bytes e.event_type w ++ rest
      → let q = p + length (afterimage_bytes e.event_type w) in
        read_afterimage e m start size p
        ≡ some (
          success,
          record e {
            used_columns_afterimage =
                if is_update e.event_type
                then update_n1bits w.afterimage
                else e.used_columns_afterimage;
            rows_len = sub64 size (q - start);
            rows_data = q;
            valid = true;
          },
        )
  unfolding read_afterimage
  read_afterimage-encoded e w m start size p rest valid same at =
      elim (Bool-cases (is_update e.event_type)) [
        | inl yes_update ↦ rw (yes_update, same, mask (rw yes_update at at), width, not_wrong) refl
        | inr no_update ↦ rw (no_update, stays)
      ]
    where
      stays : p + 0 ≡ p
      stays = omega arith

      width : length (le_bytes ((w.ncolumns + 7) / 8) w.afterimage) ≡ (w.ncolumns + 7) / 8
      width = length-le_bytes _ _

      not_wrong : (w.afterimage == wrong_mask) ≡ false
      not_wrong =
          ne→== _ _ (λ q. absurd (mask-ne_wrong w w.afterimage valid valid.afterimage_fits q))

      mask :
          drop p m ≡ le_bytes ((w.ncolumns + 7) / 8) w.afterimage ++ rest
          → build_column_mask m p none w.ncolumns
            ≡ some (w.afterimage, p + (w.ncolumns + 7) / 8, none)
      mask =
          build_column_mask-encoded w.ncolumns w.afterimage m p none rest valid.some_columns
            valid.few_columns valid.afterimage_fits

  module _ (old : RowEvent) (e : LogEvent) (t : ℕ) (w : RowHead) (rows : List ℕ) (crc : ℕ)
      (m : Memory) (start size : ℕ) (fmt : FormatDescription) (rest : List ℕ) (valid : IsRowHead w)
      (event : IsEvent e t (row_head_bytes t w rows) crc fmt m start size rest) where
    abbrev body_start : ℕ
    body_start = start + fmt.common_header_len

    abbrev behind : List ℕ
    behind = rows ++ (tail_bytes fmt crc ++ rest)

    at_body : drop body_start m ≡ row_head_bytes t w behind
    at_body = body_at event ∙ row_head-append t w rows _

    at_extra : drop (body_start + 6 + 2) m ≡ extra_bytes t w.extra ++ counted t w behind
    at_extra = rw (drop-add, drop-add, at_body)

    at_count : drop (extra_end t w body_start) m ≡ counted t w behind
    at_count = drop_past m (body_start + 6 + 2) (extra_bytes t w.extra) _ at_extra

    at_mask : drop (count_end t w body_start) m ≡ masked t w behind
    at_mask = drop_past m (extra_end t w body_start) (field_length_bytes w.ncolumns) _ at_count

    at_afterimage : drop (mask_end t w body_start) m ≡ afterimage_bytes t w ++ behind
    at_afterimage = rw (length-le_bytes ((w.ncolumns + 7) / 8) w.columns) at (
        drop_past m (count_end t w body_start) (le_bytes ((w.ncolumns + 7) / 8) w.columns) _
          at_mask)

    at_rows : drop (head_end t w body_start) m ≡ behind
    at_rows = drop_past m (mask_end t w body_start) (afterimage_bytes t w) _ at_afterimage

    read_count :
        net_field_length m (extra_end t w body_start) ≡ some (w.ncolumns, count_end t w body_start)
    read_count =
        net_field_length-encoded w.ncolumns m (extra_end t w body_start) _ (omega arith) at_count
        ∙ ap (λ (n : ℕ). some (n, count_end t w body_start)) (omega arith)

    abbrev body_size : ℕ
    body_size =
        let size₁ = sub64 size fmt.common_header_len in
        if fmt.use_checksum then sub64 size₁ 4 else size₁

    rows_size : sub64 body_size (head_end t w body_start - body_start) ≡ length rows
    rows_size = elim (Bool-cases fmt.use_checksum) [
      | inl on ↦ rw on (omega (arith, counted_size, rw on at event.sized, event.header_len))
      | inr off ↦ rw off (omega (arith, counted_size, rw off at event.sized, event.header_len))
    ]
      where
        counted_size :
            body_start + length (row_head_bytes t w rows) ≡ head_end t w body_start + length rows
        counted_size = length-row_head t w rows body_start

    -- The head of a rows event, on the layout that MySQL documents, for one to 48 columns: `tune`
    -- succeeds and reads every field; the masks are stored with their counts, the after-image's for
    -- an UPDATE only; and the rows are found where they begin, with their length.
    pub row_tune-event :
        (at : ℕ) × (row_tune old m start size fmt
          ≡ some (
            success,
            record {
              header = read_header e crc fmt;
              event_type = t;
              row_flags = w.row_flags;
              table_id = w.table_id;
              ncolumns = w.ncolumns;
              extra_data_len = if is_v2 t then length w.extra else 0;
              extra_data =
                  if is_v2 t then some (start + fmt.common_header_len + 6 + 2 + 2) else none;
              used_columns = update_n1bits w.columns;
              used_columns_afterimage =
                  if is_update t then update_n1bits w.afterimage else old.used_columns_afterimage;
              rows_data = at;
              rows_len = length rows;
              valid = true;
            },
          ))
        × (drop at m ≡ rows ++ (tail_bytes fmt crc ++ rest))
    unfolding row_tune
    row_tune-event = (
      head_end t w body_start,
      rw
          (
            header_tune-event event,
            event_type_at event,
            uint_korr-le_bytes 6 w.table_id m body_start _ at_body valid.table_id_fits,
            uint_korr-offset 2 w.row_flags m body_start 6 _ _ at_body refl valid.row_flags_fits,
            read_extra-encoded t w.extra m (body_start + 6 + 2) _ valid.extra_fits at_extra,
            read_count,
            build_column_mask-encoded w.ncolumns w.columns m (count_end t w body_start) none _
                valid.some_columns valid.few_columns valid.columns_fit at_mask,
            ne→== _ _ (mask-ne_wrong w w.columns valid valid.columns_fit),
          )
          (read_afterimage-encoded _ w m body_start body_size (mask_end t w body_start) behind valid
              refl at_afterimage
            ∙ rw rows_size),
      at_rows,
    )
