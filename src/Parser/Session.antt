-- ===== src/Parser/Session.antt =====
-- What `CLogParser` takes from the MySQL client library, and the steps of a parser that talks to a
-- server: they change the object and the connection, and may throw or read outside a buffer.
pub mod DumpRequest
pub mod Connection
pub mod Format
pub mod Position
pub mod Structure
pub mod Prepare
pub mod Outcomes
pub mod Kept
pub mod Life
pub mod Ready
pub mod Requests
pub mod Positions
pub mod Columns
pub mod Versions
pub mod Stops
pub mod FromNew
pub mod Spends
pub mod Rounds
use mysqlslave.Base.{ℕ, ◌≡◌, length, Option, none, some, Bool, true, false, List, if◌then◌else◌}
use mysqlslave.LogEvent.Rows.{RowEvent}
use mysqlslave.LogEvent.Query.{QueryEvent}
use mysqlslave.Parser.{Parser, Exception}
use mysqlslave.Parser.Dispatch.{Received}

-- A row of a result: NULL, or the bytes of a field up to its first NUL, as a `char *` is read.
abbrev pub SqlRow : Type 0
SqlRow = List (Option (List ℕ))

-- The client library, on a state `S` of the connection, the server and the process. The Boolean
-- results say whether a call has succeeded. `pre_reconnect` and `post_reconnect` are the client's
-- own. `stack` is what the memory of a local buffer of 1024 bytes holds, and `stop_requested` tells
-- whether another thread has called `stop_event_loop` by the time the loop looks; `locals` is what
-- the memory of the two events in `dispatch_events` holds.
pub record Client (S : Type 0) : Type 0 where
  pub mysql_init : S → Bool × S
  pub mysql_real_connect : List ℕ → List ℕ → List ℕ → ℕ → S → Bool × S
  pub mysql_close : S → S
  pub mysql_query : List ℕ → S → Bool × S
  pub mysql_store_result : S → Option (List SqlRow) × S
  pub mysql_list_dbs : S → Option (List SqlRow) × S
  pub mysql_select_db : List ℕ → S → Bool × S
  pub mysql_list_tables : S → Option (List SqlRow) × S
  pub simple_command : ℕ → List ℕ → S → Bool × S
  pub cli_safe_read : S → Received × S
  pub pre_reconnect : S → S
  pub post_reconnect : S → S
  pub stop_requested : S → Bool × S
  pub locals : S → RowEvent × QueryEvent
  pub stack : S → List ℕ
  pub length-stack : (s : S) → length (stack s) ≡ 1024

-- The object and the rest of the world.
pub record State (S : Type 0) : Type 0 where
  pub parser : Parser
  pub world : S

-- How a step ends: `undefined` is memory that is read or written outside a buffer or through a null
-- pointer, and `stuck` is fuel that ran out.
pub data Outcome (S A : Type 0) : Type 0 where
  done : A → State S → Outcome S A
  failed : Exception → State S → Outcome S A
  undefined : Outcome S A
  stuck : Outcome S A

abbrev pub Session : Type 0 → Type 0 → Type 0
Session S A = State S → Outcome S A

module _ {S : Type 0} where
  module _ {A : Type 0} where
    unfoldable pub pure : A → Session S A
    pure a s = done a s

    unfoldable pub undefined_step : Session S A
    undefined_step s = undefined

    -- What the object holds.
    unfoldable pub gets : (Parser → A) → Session S A
    gets f s = done (f s.parser) s

    -- A call of the library.
    unfoldable pub call : (S → A × S) → Session S A
    call f s = let (a, w) = f s.world in done a (record s { world = w })

    -- What is thrown when a call fails.
    unfoldable pub or_throw : Option A → Exception → Session S A
    or_throw none e s = failed e s
    or_throw (some a) e s = done a s

    unfoldable pub or_undefined : Option A → Session S A
    or_undefined none s = undefined
    or_undefined (some a) s = done a s

  unfoldable pub throw : Exception → Session S Unit
  throw e s = failed e s

  unfoldable pub throw_unless : Bool → Exception → Session S Unit
  throw_unless true e s = done tt s
  throw_unless false e s = failed e s

  unfoldable pub modify : (Parser → Parser) → Session S Unit
  modify f s = done tt (record s { parser = f s.parser })

  unfoldable pub call_ : (S → S) → Session S Unit
  call_ f s = done tt (record s { world = f s.world })

module _ {S A B : Type 0} where
  abbrev pub bind : Outcome S A → (A → Session S B) → Outcome S B
  bind (done a s) f = f a s
  bind (failed e s) f = failed e s
  bind undefined f = undefined
  bind stuck f = stuck

  infixl 5 ◌>>=◌ ◌>>◌
  -- Opening this opens the steps above too.
  unfoldable pub ◌>>=◌ : Session S A → (A → Session S B) → Session S B
  unfolding pure undefined_step gets call or_throw or_undefined throw throw_unless modify call_
  ◌>>=◌ m f s = bind (m s) f

  abbrev pub ◌>>◌ : Session S A → Session S B → Session S B
  m >> k = m >>= λ _. k

module _ {S : Type 0} ⦃c : Client S⦄ where
  -- `mysql_query`, and then `mysql_store_result`: a result, if neither has failed.
  unfoldable pub query_rows : List ℕ → Session S (Option (List SqlRow))
  query_rows text = do
    sent ← call (c.mysql_query text)
    if sent then call c.mysql_store_result else pure none
