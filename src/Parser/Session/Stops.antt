-- ===== src/Parser/Session/Stops.antt =====
-- When the loop of `dispatch_events` returns.
use mysqlslave.Base.{ℕ, zero, suc, ◌≡◌, refl, Bool, true, false, if◌then◌else◌, not}
use mysqlslave.Memory.{Headers}
use mysqlslave.Parser.{Parser}
use mysqlslave.Parser.Dispatch.{Zlib}
use mysqlslave.Parser.Session.{Client, State, Session, ◌>>=◌, pure, call}
use mysqlslave.Parser.Session.Connection.{disconnect}
use mysqlslave.Parser.Session.Kept.{Keeps-disconnect}
use mysqlslave.Parser.Session.Ready.{Returns, Ensures, Ensures-rest, Keeps-Ensures}
use mysqlslave.Parser.Session.Prepare.{
  read_dispatch, wait_connected, handle_received, dispatch_round, dispatch_loop, dispatch_events,
}

abbrev pub Stopped : Parser → Type 0
Stopped p = p.dispatch ≡ false

module _ {S : Type 0} ⦃c : Client S⦄ where
  -- What the loop has read is what the flag holds.
  Ensures-read :
      (P R : Parser → Type 0) (f : Bool → Session S Unit)
      → ((b : Bool) → Ensures (λ p. p.dispatch ≡ b) R (f b))
      → Ensures P R (read_dispatch >>= f)
  unfolding ◌>>=◌ read_dispatch
  Ensures-read P R f later = record { at = λ s now. (later _).at _ refl }

  -- A branch on what has been read.
  Ensures-if_going :
      (b : Bool) (m k : Session S Unit)
      → Ensures (λ p. p.dispatch ≡ true) Stopped m
      → Ensures Stopped Stopped k
      → Ensures (λ p. p.dispatch ≡ b) Stopped (if b then m else k)
  Ensures-if_going true m k first second = first
  Ensures-if_going false m k first second = second

  Ensures-unless_going :
      (b : Bool) (m k : Session S Unit)
      → Ensures Stopped Stopped m
      → Ensures (λ p. p.dispatch ≡ true) Stopped k
      → Ensures (λ p. p.dispatch ≡ b) Stopped (if not b then m else k)
  Ensures-unless_going true m k first second = second
  Ensures-unless_going false m k first second = first

  Ensures-stay : Ensures {S = S} Stopped Stopped (pure tt)
  unfolding pure
  Ensures-stay = record { at = λ s now. now }

  module _ ⦃h : Headers⦄ where
    module _ ⦃z : Zlib⦄ where
      Ensures-round :
          (rows : ℕ) (more : Session S Unit)
          → ((P : Parser → Type 0) → Ensures P Stopped more)
          → Ensures (λ _. Unit) Stopped (dispatch_round rows more)
      unfolding dispatch_round
      Ensures-round rows more ends = Ensures-rest Stopped _ wait_connected _ λ _.
          Ensures-rest Stopped _ (call c.cli_safe_read) _ λ received.
            Ensures-read (λ _. Unit) Stopped _
              λ going. Ensures-unless_going going (pure tt) _ Ensures-stay (
                Ensures-rest Stopped _ (handle_received rows received) _ λ _.
                  Ensures-read (λ _. Unit) Stopped _
                    λ again.
                      Ensures-if_going again more disconnect (ends (λ p. p.dispatch ≡ true)) (
                        Keeps-Ensures Stopped disconnect
                          (Keeps-disconnect Stopped (λ p b now. now))))

      Ensures-loop :
          (fuel rows : ℕ) (P : Parser → Type 0)
          → Ensures {S = S} P Stopped (dispatch_loop fuel rows)
      unfolding dispatch_loop
      Ensures-loop zero rows P = record { at = λ s now. tt }
      Ensures-loop (suc fuel) rows P =
          let round = Ensures-round rows (dispatch_loop fuel rows) (Ensures-loop fuel rows) in
          record { at = λ s now. round.at s tt }

      -- `dispatch_events` returns only when it has been stopped: whatever the server sends, `_dispatch`
      -- is 0 when it returns.
      pub dispatch_events-Stopped :
          (fuel rows : ℕ) (s : State S) → Returns Stopped (dispatch_events fuel rows s)
      unfolding dispatch_events
      dispatch_events-Stopped fuel rows s =
          (Ensures-rest Stopped (λ _. Unit) _ _
              λ locals.
                Ensures-rest Stopped (λ _. Unit) _ _ λ _. Ensures-loop fuel rows (λ _. Unit)).at
            s tt
