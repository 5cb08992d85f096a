-- ===== src/Examples/Codecs.antt =====
-- Integers, bitmaps and bytes on concrete inputs.
use mysqlslave.Base.{◌≡◌, refl, arith, some, [], ◌∷◌}
use mysqlslave.LogEvent.FieldLength.{net_field_length}
use mysqlslave.LogEvent.FieldLength.RoundTrip.{field_length_bytes, net_field_length-encoded}
use mysqlslave.LogEvent.ColumnMask.{build_column_mask}
use mysqlslave.LogEvent.ColumnMask.Widths.{build_column_mask-encoded}
use mysqlslave.Examples.{client_headers}

net_field_length-encoded_example : net_field_length (9 ∷ 252 ∷ 44 ∷ 1 ∷ 5 ∷ []) 1 ≡ some (300, 4)
unfolding field_length_bytes
net_field_length-encoded_example =
    net_field_length-encoded 300 (9 ∷ 252 ∷ 44 ∷ 1 ∷ 5 ∷ []) 1 (5 ∷ []) (omega arith) refl

build_column_mask-encoded_example :
    build_column_mask (9 ∷ 255 ∷ 3 ∷ 1 ∷ []) 1 (some 3) 10 ≡ some (1023, 3, some 1)
build_column_mask-encoded_example =
    build_column_mask-encoded 10 1023 (9 ∷ 255 ∷ 3 ∷ 1 ∷ []) 1 (some 3) (1 ∷ []) (omega arith)
      (omega arith) (omega arith) refl
