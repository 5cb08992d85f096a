-- ===== src/Lib.antt =====
-- mysqlslave: a client library that follows the binlog of a MySQL master as a slave does, decodes
-- its events, and calls a client's functions with the rows that changed.
--
-- The parts. `CLogParser` (src/mysqlslave/logparser.cpp) connects, asks for the binlog, and handles
-- one packet after the other. An event is decoded by the `tune` of its class
-- (src/mysqlslave/logevent.cpp, include/mysqlslave/logevent.hpp). A table map event names a table and
-- the id that the rows events behind it use; the parser keeps a map from ids to the tables that the
-- client watches. A rows event updates its table (src/mysqlslave/database.cpp,
-- include/mysqlslave/database.hpp): each row image becomes values
-- (src/mysqlslave/value.cpp, include/mysqlslave/value.hpp), with the columns' descriptions
-- (include/mysqlslave/columndesc.hpp) for ENUM and SET.
--
-- The files.
--   Memory: a packet is a list of bytes and an address an offset into it. A read outside is `none`,
--     since C++ leaves it undefined. `uintNkorr` and NULL_LENGTH come from the MySQL client's headers
--     and are the parameter `Headers`, with the documented little-endian reading as its law.
--   LogEvent: `CLogEvent`, `CFormatDescriptionLogEvent` and the constants. LogEvent.Rotate,
--     LogEvent.Query, LogEvent.TableMap and LogEvent.Rows are the classes of events,
--     LogEvent.FieldLength is `net_field_length`, LogEvent.ColumnMask the bitmaps of columns.
--   ColumnDesc: `CColumnDesc`.
--   Value: `CValue`. Value.Types and Value.FieldSize are the types and sizes, Value.Numbers,
--     Value.Dates, Value.Text and Value.Sets the accessors, Value.Decimal the digits of a NEWDECIMAL,
--     Value.Real what goes through floating point or MySQL's decimal library, Value.Json (with
--     Value.JsonTypes) the `_read_jsonb_` functions behind `as_json`, Value.Print the `operator<<`.
--   Database: `CRow`, `CTable` and `CDatabase`. Database.Columns is `update_row`, Database.Update is
--     `update`.
--   Exceptions: `CException` and `CLogEventException` (include/mysqlslave/exceptions.hpp), with the
--     names of the events.
--   Parser: the state of `CLogParser`, with the calls of the client as a list. Parser.Handlers is the
--     switch of `dispatch_events`, Parser.Dispatch what stands before and behind it, Parser.Runs the
--     runs of a parser as a step relation.
--     Parser.Session is the rest of the class, as steps that change the object and the world behind
--     the parameter `Client`, and that may throw: Parser.Session.Connection (`connect`, `reconnect`,
--     `request_binlog_dump`), Parser.Session.Format (`get_binlog_format`), Parser.Session.Structure
--     (`build_db_structure`), Parser.Session.Position (`get_last_binlog_position`) and
--     Parser.Session.Prepare (`prepare` and the loop of `dispatch_events`); Parser.Session.FromNew is a
--     parser from its constructor on.
--   Base: lists by native indices, maps as association lists, machine words, bits.
--   Examples: packets and values as bytes, and the theorems on them.
--
-- State is passed explicitly. A `tune` is a function from the memory, the address and the size of an
-- event to an optional status and object. A handler ends as a `Result`: it returns, it throws with
-- the state at that point, it reads outside the packet, or it has used up its fuel. A table is
-- pointed to by the names of its database and itself, since `std::map` does not move its entries.
--
-- Fuel. The loop of `CTable::update` runs on fuel; for one to 48 columns the length of the rows
-- in bytes is enough. The loop of `CValue::as_set` runs over the 64 bits of its mask, and that
-- of `CColumnDesc::update` over the length of the type. `_read_jsonb_type` calls itself through
-- the readers of arrays and objects: it runs on fuel, and one unit is enough, since no element
-- is read. The loop of `dispatch_events` waits for a server and for another thread to stop it:
-- it runs on fuel, one unit for a round. For a client whose loop another thread stops when it
-- has read so many packets, one unit more than packets are left is enough. All other loops are
-- structural.
--
-- The MySQL client library, the other thread that stops the loop, what uninitialised memory holds, and
-- the client's `pre_reconnect` and `post_reconnect` are the parameter `Client`; all that is assumed of
-- it is that the local buffer has the 1024 bytes it is declared with. zlib's `crc32` is the parameter
-- `Zlib`, of which nothing is assumed.
--
-- Floating point numbers and MySQL's decimal library are the parameter `Reals`, jsoncpp's values
-- the parameter `JsonValues`, and the texts of doubles, of `ctime` and of jsoncpp's writer the
-- parameter `Formats`; nothing is assumed of them but, where that is said, that the text of `ctime`
-- has 25 characters. Integers and texts on a stream, and `sprintf`
-- of integers, are written out as the standard library has them.
--
-- Not modelled. That an override of the client's functions (`on_insert`, `on_update`, `on_delete`,
-- and the hooks of `reconnect`) throws or changes the parser; that memory runs out; the texts that
-- the parser's exceptions are made with, the freeing of results and the closing of the socket; the
-- `dump` functions, which only a debug build has; extra/hash.h, which is MySQL's; and the test
-- daemon.
pub mod Base
pub mod Memory
pub mod LogEvent
pub mod ColumnDesc
pub mod Value
pub mod Database
pub mod Exceptions
pub mod Parser
pub mod Examples
