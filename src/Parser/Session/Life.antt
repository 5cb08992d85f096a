-- ===== src/Parser/Session/Life.antt =====
-- The life of a parser, from `prepare` through the loop: what it keeps.
use mysqlslave.Base.{ℕ}
use mysqlslave.Memory.{Headers}
use mysqlslave.Parser.{Parser, find_table}
use mysqlslave.Parser.Handlers.Effects.{Always}
use mysqlslave.Parser.Handlers.Pointers.{Wired, put_table-Wired}
use mysqlslave.Parser.Dispatch.{Zlib, Received, handle_packet}
use mysqlslave.Parser.Dispatch.Order.{handle_packet-Wired}
use mysqlslave.Parser.Session.{Client, State, ◌>>◌}
use mysqlslave.Parser.Session.Outcomes.{Leaves, Keeps, Keeps-bind}
use mysqlslave.Parser.Session.Kept.{IsSteady, Keeps-prepare, Keeps-dispatch_events}
use mysqlslave.Parser.Session.Prepare.{prepare, dispatch_events}

Wired-IsSteady : IsSteady Wired
unfolding find_table
Wired-IsSteady = record {
  connection = λ p b wired. wired;
  format = λ p f wired. wired;
  position = λ p name n wired. wired;
  table = put_table-Wired;
  flag = λ p wired. wired;
  locals = λ p r q wired. wired;
}

module _ {S : Type 0} ⦃c : Client S⦄ ⦃h : Headers⦄ ⦃z : Zlib⦄ where
  Keeps-life :
      (P : Parser → Type 0)
      → IsSteady P
      → ((fuel : ℕ) (p : Parser) (r : Received) → P p → Always P (handle_packet fuel p r))
      → (fuel rows : ℕ) → Keeps {S = S} P (prepare >> dispatch_events fuel rows)
  Keeps-life P steady handled fuel rows =
      Keeps-bind prepare (λ _. dispatch_events fuel rows) (Keeps-prepare P steady)
        (λ _. Keeps-dispatch_events P steady handled fuel rows)

  -- However `prepare` and the loop behind it end, by returning or by an exception, whatever the
  -- server answers and sends: if each id in `_id_2_table` led to a table before, each does
  -- afterwards.
  pub life-Wired :
      (s : State S) (fuel rows : ℕ)
      → Wired s.parser
      → Leaves Wired ((prepare >> dispatch_events fuel rows) s)
  life-Wired s fuel rows wired =
      (Keeps-life Wired Wired-IsSteady handle_packet-Wired fuel rows).at s wired
