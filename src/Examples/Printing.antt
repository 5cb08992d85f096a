-- ===== src/Examples/Printing.antt =====
-- Printing and exceptions on concrete values, with stand-ins for what the libraries print.
use mysqlslave.Base.{◌≡◌, ◌≢◌, refl, arith, none, some, true, [], ◌∷◌, ◌++◌, replicate}
use mysqlslave.Base.Texts.{codes, decimal}
use mysqlslave.Memory.{Memory}
use mysqlslave.Value.Types.{ColumnType}
use mysqlslave.Value.Dates.Formats.{view}
use mysqlslave.Value.Print.{Stream, Formats, new_stream, put_value, put_date}
use mysqlslave.Value.Print.Buffers.{put_value-temporal}
use mysqlslave.Exceptions.{rotate, log_event_exception, type_code_str, what}
use mysqlslave.Exceptions.Messages.{is_text-IsText, what-log_event}
use mysqlslave.Examples.{client_headers}
use mysqlslave.Examples.Documents.{tree_values}
use mysqlslave.Examples.Decimals.{number_reals}

instance abbrev plain_formats : Formats
plain_formats = record {
  double_text = decimal 20;
  ctime = λ t. codes "Thu Jan  1 00:00:07 1970\n";
  write_json = λ value. codes "{}";
}

put_date_padded :
    put_date new_stream (record { y = 2015; m = 3; d = 9 })
    ≡ some (record new_stream { out = codes "2015-03-09" })
unfolding put_date
put_date_padded = refl

put_value-temporal_example :
    put_value new_stream (view ColumnType.timestamp2 0 4) (replicate 8 255) ≢ none
put_value-temporal_example =
    put_value-temporal new_stream (view ColumnType.timestamp2 0 4) (replicate 8 255) 0
      (λ t small. refl) refl refl (omega arith)

-- The number 2 of an ENUM, and 255 in a column of the type INT.
abbrev two_columns : Memory
two_columns = 2 ∷ 255 ∷ 0 ∷ 0 ∷ 0 ∷ []

abbrev after_enum : Stream
after_enum = record { out = codes "00000002"; hex = true; fill = b'0'; width = 0 }

what-log_event_example :
    what (log_event_exception (some rotate) (codes "tuning failed") (replicate 1024 1))
    ≡ some (type_code_str rotate ++ (codes ": " ++ codes "tuning failed"))
what-log_event_example =
    what-log_event rotate (codes "tuning failed") (replicate 1024 1)
      (is_text-IsText (codes "tuning failed") refl) (omega arith)
