-- ===== src/Examples.antt =====
-- The theorems on concrete packets and values, and what the examples share: the headers of a
-- little-endian client, a CRC, a format description, and events of one table `d.t`.
mod Codecs
mod Values
mod Events
mod Clients
mod Tables
mod Sessions
mod Decimals
mod Documents
mod Printing
mod Statements
use mysqlslave.Base.{
  ℕ, ◌+◌, ◌^◌, ◌-◌, Option, none, some, refl, true, false, List, [], ◌∷◌, ◌++◌, length,
}
use mysqlslave.Base.Words.{u32}
use mysqlslave.Memory.{Headers, little_endian}
use mysqlslave.LogEvent.{FormatDescription, LogEvent}
use mysqlslave.LogEvent.Rows.{RowEvent}
use mysqlslave.LogEvent.Query.{QueryEvent}
use mysqlslave.Parser.{Parser}
use mysqlslave.Parser.Dispatch.{Zlib}

instance abbrev pub client_headers : Headers
client_headers = record { korr = little_endian; korr_lem = λ bs. refl; null_length = 2 ^ 64 - 1 }

-- A stand-in for the CRC: the sum of the bytes.
abbrev pub byte_sum : List ℕ → ℕ
byte_sum [] = 0
byte_sum (b ∷ bs) = u32 (b + byte_sum bs)

instance abbrev pub sum_zlib : Zlib
sum_zlib = record { crc32 = byte_sum }

-- A format whose post-headers have eight bytes for a table map (type 19) and a rows event.
abbrev pub example_format : FormatDescription
example_format = record {
  binlog_version = 4;
  server_version = b'5' ∷ [];
  common_header_len = 19;
  post_header_len =
      0 ∷ 0 ∷ 0 ∷ 8 ∷ 0 ∷ 0 ∷ 0 ∷ 0 ∷ 0 ∷ 0 ∷ 0 ∷ 0 ∷ 0 ∷ 0 ∷ 0 ∷ 0 ∷ 0 ∷ 0 ∷ 8 ∷ 0 ∷ 0 ∷ 0 ∷ 8 ∷ 8
      ∷ 8 ∷ [];
  use_checksum = false;
}

abbrev pub example_header : ℕ → LogEvent
example_header size = record {
  when = 7;
  server_id = 1;
  data_written = size;
  log_pos = 300;
  flags = 0;
  checksum = 0;
}

abbrev pub no_rows : RowEvent
no_rows = record {
  header = example_header 0;
  event_type = 0;
  row_flags = 0;
  table_id = 0;
  ncolumns = 0;
  extra_data_len = 0;
  extra_data = none;
  used_columns = 0;
  used_columns_afterimage = 0;
  rows_data = 0;
  rows_len = 0;
  valid = false;
}

abbrev pub no_query : QueryEvent
no_query = record {
  header = example_header 0;
  q_exec_time = 0;
  q_len = 0;
  db_len = 0;
  error_code = 0;
  status_vars_len = 0;
  query = [];
}

-- A parser that is connected and watches nothing.
abbrev pub fresh_parser : Parser
fresh_parser = record {
  id_2_table = [];
  table_2_id = [];
  databases = [];
  host = [];
  slave_id = 2;
  port = 3306;
  user = [];
  passwd = [];
  fmt = example_format;
  binlog_name = [];
  binlog_pos = 4;
  binlog_flags = 0;
  is_connected = true;
  dispatch = true;
  event_row = no_rows;
  event_query = no_query;
  calls = [];
}
