-- ===== src/Examples/Values.antt =====
-- Values of columns on concrete inputs.
use mysqlslave.Base.{ℕ, ◌≡◌, refl, arith, some, List, [], ◌∷◌}
use mysqlslave.Base.Int.{negsuc}
use mysqlslave.ColumnDesc.{column_desc_init, update}
use mysqlslave.ColumnDesc.Printed.{enum_type, print_type, update-print_type}
use mysqlslave.Value.{Value, value_init, tune}
use mysqlslave.Value.Types.{ColumnType}
use mysqlslave.Value.FieldSize.{calc_field_size}
use mysqlslave.Value.FieldSize.Extent.{varchar_round_trip}
use mysqlslave.Value.Text.{as_string}
use mysqlslave.Value.Sets.{set_loop}
use mysqlslave.Value.Sets.Members.{chosen, set_loop-chosen}
use mysqlslave.Value.Numbers.{as_int}
use mysqlslave.Value.Numbers.Widths.{int16, number_at, as_int-encoded}
use mysqlslave.Value.Dates.{Date, Time, as_datetime}
use mysqlslave.Value.Dates.Formats.{
  datetime2_bytes, view, as_datetime-encoded, as_datetime2-loses_time,
}
use mysqlslave.Examples.{client_headers}
use mysqlslave.Memory.Endian.{le_bytes}

update-print_type_example :
    update column_desc_init 3 (print_type enum_type (b'a' ∷ []) ((b'b' ∷ []) ∷ []))
    ≡ record { position = 3; variants = (b'a' ∷ []) ∷ (b'b' ∷ []) ∷ [] }
update-print_type_example =
    update-print_type column_desc_init 3 enum_type (b'a' ∷ []) ((b'b' ∷ []) ∷ []) (omega arith, tt)
      ((omega arith, tt), tt)

varchar_round_trip_example :
    (v' : Value) × (calc_field_size ColumnType.varchar (2 ∷ b'h' ∷ b'i' ∷ 9 ∷ []) 0 20 ≡ some 3)
    × (tune value_init ColumnType.varchar (2 ∷ b'h' ∷ b'i' ∷ 9 ∷ []) 0 20 3 ≡ some v')
    × (as_string v' (2 ∷ b'h' ∷ b'i' ∷ 9 ∷ []) ≡ some (b'h' ∷ b'i' ∷ []))
varchar_round_trip_example =
    varchar_round_trip value_init 20 (2 ∷ b'h' ∷ b'i' ∷ 9 ∷ []) 0 (b'h' ∷ b'i' ∷ []) (9 ∷ [])
      (omega arith) (omega arith) refl

set_loop-chosen_example :
    set_loop 64 ((b'a' ∷ []) ∷ (b'b' ∷ []) ∷ (b'c' ∷ []) ∷ []) 5 0 []
    ≡ chosen ((b'a' ∷ []) ∷ (b'b' ∷ []) ∷ (b'c' ∷ []) ∷ []) 5
set_loop-chosen_example =
    set_loop-chosen ((b'a' ∷ []) ∷ (b'b' ∷ []) ∷ (b'c' ∷ []) ∷ []) 5 (omega arith) (omega arith)

as_int-encoded_example :
    as_int 16 (number_at ColumnType.short 1 2) (0 ∷ 254 ∷ 255 ∷ []) ≡ some (negsuc 1)
as_int-encoded_example =
    as_int-encoded int16 (negsuc 1) (0 ∷ 254 ∷ 255 ∷ []) 1 [] (omega arith) refl

abbrev some_date : Date
some_date = record { y = 2013; m = 5; d = 17 }

abbrev some_time : Time
some_time = record { h = 12; m = 34; s = 56 }

abbrev other_time : Time
other_time = record { h = 13; m = 0; s = 1 }

as_datetime-encoded_example :
    as_datetime (view ColumnType.datetime 0 8) (le_bytes 8 20130517123456)
    ≡ some (record { date = some_date; time = some_time })
as_datetime-encoded_example =
    as_datetime-encoded (record { date = some_date; time = some_time }) (le_bytes 8 20130517123456)
      0 [] (omega arith, omega arith, omega arith) (omega arith, omega arith, omega arith) refl

abbrev datetime2_packet : Time → List ℕ
datetime2_packet t = datetime2_bytes (record { date = some_date; time = t })

as_datetime2-loses_time_example :
    as_datetime (view ColumnType.datetime2 0 5) (datetime2_packet some_time)
    ≡ as_datetime (view ColumnType.datetime2 0 5) (datetime2_packet other_time)
as_datetime2-loses_time_example =
    as_datetime2-loses_time (record { date = some_date; time = some_time })
      (record { date = some_date; time = other_time }) (datetime2_packet some_time)
      (datetime2_packet other_time) 0 [] [] (omega arith, omega arith, omega arith)
      (omega arith, omega arith, omega arith) refl refl refl refl
