-- ===== src/Parser/Session/Rounds.antt =====
-- How many rounds the loop of `dispatch_events` makes for a client that another thread stops.
use mysqlslave.Base.{
  ℕ, zero, suc, ◌-◌, ◌≤◌, ◌<◌, ◌≡◌, refl, ap, ◌∙◌, arith, Bool, true, false, not, List,
  if◌then◌else◌,
}
use mysqlslave.Memory.{Headers}
use mysqlslave.Parser.{Result}
use mysqlslave.Parser.Dispatch.{Zlib, Received, handle_packet}
use mysqlslave.Parser.Session.{Client, State, done, stuck, Session, ◌>>=◌, ◌>>◌, call, pure}
use mysqlslave.Parser.Session.Spends.{Within, Spends, >>=-agree, spends_rules}
use mysqlslave.Parser.Session.Connection.{connect, disconnect, reconnect, request_binlog_dump}
use mysqlslave.Parser.Session.Prepare.{
  read_dispatch, wait_connected, stop_event_loop, dispatch_round, dispatch_loop, reconnect_once,
  handle_received, resume,
}

-- A client whose loop is stopped: when `left` packets have been read, another thread has called
-- `stop_event_loop`, and no call but the reading of a packet has an effect on that number.
pub record IsStopped {S : Type 0} ⦃c : Client S⦄ (left : S → ℕ) : Type 0 where
  pub stop : (w : S) → left w ≡ 0 → (c.stop_requested w).0 ≡ true
  pub look : (w : S) → left (c.stop_requested w).1 ≤ left w
  pub read : (w : S) → left (c.cli_safe_read w).1 ≤ left w - 1
  pub init : (w : S) → left (c.mysql_init w).1 ≤ left w
  pub connection :
      (host user passwd : List ℕ) (port : ℕ) (w : S)
      → left (c.mysql_real_connect host user passwd port w).1 ≤ left w
  pub close : (w : S) → left (c.mysql_close w) ≤ left w
  pub command :
      (code : ℕ) (bytes : List ℕ) (w : S) → left (c.simple_command code bytes w).1 ≤ left w
  pub before : (w : S) → left (c.pre_reconnect w) ≤ left w
  pub behind : (w : S) → left (c.post_reconnect w) ≤ left w

module _ {S : Type 0} ⦃c : Client S⦄ ⦃h : Headers⦄ ⦃z : Zlib⦄ where
  -- `fuel` rounds at most, and `last` if they were not enough.
  abbrev pub rounds : ℕ → ℕ → Session S Unit → Session S Unit
  rounds zero rows last = last
  rounds (suc fuel) rows last = dispatch_round rows (rounds fuel rows last)

  loop-rounds : (fuel rows : ℕ) → dispatch_loop fuel rows ≡ rounds fuel rows (λ s. stuck)
  unfolding dispatch_loop
  loop-rounds zero rows = refl
  loop-rounds (suc fuel) rows = ap (dispatch_round rows) (loop-rounds fuel rows)

module _ {S : Type 0} ⦃c : Client S⦄ (left : S → ℕ) (stopped : IsStopped left) where
  Spends-connect : Spends left connect
  unfolding connect
  Spends-connect = search (spends_rules, stopped.init, stopped.connection) depth 14

  Spends-disconnect : Spends left disconnect
  unfolding disconnect
  Spends-disconnect = search (spends_rules, stopped.close) depth 14

  keep_world : {A : Type 0} (f : S → A) (w : S) → left w ≤ left w
  keep_world f w = omega arith

  Spends-request : Spends left request_binlog_dump
  unfolding request_binlog_dump ◌>>=◌
  Spends-request = search (spends_rules, stopped.command, keep_world) depth 14

  Spends-reconnect : Spends left reconnect
  unfolding reconnect
  Spends-reconnect =
      search
        (
          spends_rules, stopped.before, stopped.behind, Spends-connect, Spends-disconnect,
          Spends-request,
        )
        depth 14

  Spends-read_dispatch : Spends left read_dispatch
  unfolding read_dispatch
  Spends-read_dispatch = search (spends_rules, stopped.look) depth 14

  Spends-wait_connected : Spends left wait_connected
  unfolding wait_connected reconnect_once
  Spends-wait_connected = search (spends_rules, Spends-read_dispatch, Spends-reconnect) depth 14

  -- What is read when no packet is left.
  read_dispatch-stopped :
      (s : State S) → left s.world ≤ 0 → (s' : State S) × (read_dispatch s ≡ done false s')
  unfolding read_dispatch stop_event_loop ◌>>=◌
  read_dispatch-stopped s few =
      let now : (c.stop_requested s.world).0 ≡ true = stopped.stop s.world (omega arith) in
      rw now (record { parser = stop_event_loop s.parser; world = _ }, refl)

  module _ ⦃h : Headers⦄ where
    module _ ⦃z : Zlib⦄ where
      Within-resume : (n : ℕ) (o : Result) (w : S) → left w ≤ n → Within left n (resume o w)
      Within-resume n (Result.returned p) w few = few
      Within-resume n (Result.thrown e p) w few = tt
      Within-resume n Result.undefined w few = tt
      Within-resume n Result.stuck w few = tt

      Spends-handle : (rows : ℕ) (r : Received) → Spends left (handle_received rows r)
      unfolding handle_received
      Spends-handle rows r = record {
        at = λ n s few. Within-resume n (handle_packet rows s.parser r) s.world few;
      }

      -- The rest of a round, when a packet has been read.
      abbrev rest_of_round : ℕ → Session S Unit → Received → Session S Unit
      rest_of_round rows more received = do
        going ← read_dispatch
        if not going then pure tt else do
          handle_received rows received
          again ← read_dispatch
          if again then more else disconnect

      rest_of_round-last :
          (rows : ℕ) (more more' : Session S Unit) (received : Received) (s : State S)
          → left s.world ≤ 0
          → rest_of_round rows more received s ≡ rest_of_round rows more' received s
      unfolding ◌>>=◌
      rest_of_round-last rows more more' received s few =
          let (s', off) = read_dispatch-stopped s few in rw off refl

      rest_of_round-agree :
          (n rows : ℕ) (more more' : Session S Unit) (received : Received) (s : State S)
          → left s.world ≤ n
          → ((s' : State S) → left s'.world ≤ n → more s' ≡ more' s')
          → rest_of_round rows more received s ≡ rest_of_round rows more' received s
      rest_of_round-agree n rows more more' received s few same =
          >>=-agree left n read_dispatch _ _ s Spends-read_dispatch few
            λ going s₁ few₁. after_read going s₁ few₁
        where
          after_handle :
              (again : Bool) (s' : State S)
              → left s'.world ≤ n
              → (if again then more else disconnect) s' ≡ (if again then more' else disconnect) s'
          after_handle true s' few' = same s' few'
          after_handle false s' few' = refl

          after_read :
              (going : Bool) (s' : State S)
              → left s'.world ≤ n
              → (if not going
                    then pure tt
                    else (handle_received rows received >>= λ _.
                        read_dispatch >>= λ again. if again then more else disconnect))
                  s'
                ≡ (if not going
                      then pure tt
                      else (handle_received rows received >>= λ _.
                          read_dispatch >>= λ again. if again then more' else disconnect))
                    s'
          after_read false s' few' = refl
          after_read true s' few' =
              >>=-agree left n (handle_received rows received) _ _ s' (Spends-handle rows received)
                few'
                λ _ s₂ few₂.
                  >>=-agree left n read_dispatch _ _ s₂ Spends-read_dispatch few₂ after_handle

      -- A round, which begins with `n` packets left, goes on to what agrees when fewer are left.
      round-agree :
          (n rows : ℕ) (more more' : Session S Unit) (s : State S)
          → left s.world ≤ n
          → ((s' : State S) → left s'.world < n → more s' ≡ more' s')
          → dispatch_round rows more s ≡ dispatch_round rows more' s
      unfolding dispatch_round call ◌>>=◌
      round-agree n rows more more' s few same =
          >>=-agree left n wait_connected _ _ s Spends-wait_connected few (behind_wait n same)
        where
          behind_wait :
              (n : ℕ)
              → ((s' : State S) → left s'.world < n → more s' ≡ more' s')
              → (a : Unit {0}) (s' : State S) → left s'.world ≤ n
              → (call c.cli_safe_read >>= rest_of_round rows more) s'
                ≡ (call c.cli_safe_read >>= rest_of_round rows more') s'
          behind_wait zero same a s' few' =
              let fewer = stopped.read s'.world in
              rest_of_round-last rows more more' _ _ (omega (arith, fewer, few'))
          behind_wait (suc n) same a s' few' =
              let fewer = stopped.read s'.world in
              rest_of_round-agree n rows more more' _ _ (omega (arith, fewer, few'))
                λ s'' few''. same s'' (omega arith)

      rounds-enough :
          (fuel rows : ℕ) (last last' : Session S Unit) (s : State S)
          → left s.world < fuel
          → rounds fuel rows last s ≡ rounds fuel rows last' s
      rounds-enough zero rows last last' s few = absurd (omega arith)
      rounds-enough (suc fuel) rows last last' s few =
          round-agree fuel rows (rounds fuel rows last) (rounds fuel rows last') s (omega arith)
            λ s' few'. rounds-enough fuel rows last last' s' (omega (arith, few'))

      -- For a client that stops the loop (another thread has called `stop_event_loop` when `left`
      -- packets have been read, and no other call has an effect on that number), the loop of
      -- `dispatch_events` ends within more rounds than packets are left at its start: with so much
      -- fuel the rounds never run out, since whatever would be done then has no effect.
      pub dispatch_loop-enough :
          (fuel rows : ℕ) (last : Session S Unit) (s : State S)
          → left s.world < fuel
          → dispatch_loop fuel rows s ≡ rounds fuel rows last s
      dispatch_loop-enough fuel rows last s few =
          ap (λ (m : Session S Unit). m s) (loop-rounds fuel rows)
          ∙ rounds-enough fuel rows (λ s'. stuck) last s few
