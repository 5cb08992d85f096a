-- ===== src/Parser/Session/Ready.antt =====
-- What holds when `prepare` has returned.
use mysqlslave.Base.{
  ℕ, ◌≡◌, refl, arith, Option, some, Bool, true, false, List, [], ◌∷◌, inl, inr, Bool-cases, get_or,
  ◌==◌,
}
use mysqlslave.LogEvent.{FormatDescription, format_tune, format_is_valid}
use mysqlslave.Database.{Table}
use mysqlslave.Parser.{Parser, Exception, put_table, TablePointer}
use mysqlslave.Parser.Session.{
  Client, State, Outcome, done, failed, undefined, stuck, Session, bind, ◌>>=◌, modify,
  throw_unless,
}
use mysqlslave.Parser.Session.Outcomes.{Leaves, Keeps, Keeps-or_throw, Keeps-or_undefined}
use mysqlslave.Parser.Session.Connection.{connect, no_position, request_binlog_dump}
use mysqlslave.Parser.Session.Format.{
  accepted_version, adopt_format, wants_checksum, get_binlog_format, first_field, server_version,
}
use mysqlslave.Parser.Session.Kept.{
  Keeps-server_version, Keeps-query_rows, Keeps-checksum, Keeps-structure, Keeps-request,
}
use mysqlslave.Parser.Session.Prepare.{prepare}

-- `P` of the object when a step returns.
abbrev pub Returns : {S A : Type 0} → (Parser → Type 0) → Outcome S A → Type 0
Returns P (done a s) = P s.parser
Returns P _ = Unit

-- From `P` a step that returns leads to `Q`.
pub record Ensures {S A : Type 0} (P Q : Parser → Type 0) (m : Session S A) : Type 0 where
  pub at : (s : State S) → P s.parser → Returns Q (m s)

module _ {S A : Type 0} (P : Parser → Type 0) where
  Leaves-Returns : (o : Outcome S A) → Leaves P o → Returns P o
  Leaves-Returns (done a s) now = now
  Leaves-Returns (failed e s) now = tt
  Leaves-Returns undefined now = tt
  Leaves-Returns stuck now = tt

  pub Keeps-Ensures : (m : Session S A) → Keeps P m → Ensures P P m
  Keeps-Ensures m keeps = record { at = λ s now. Leaves-Returns (m s) (keeps.at s now) }

module _ {S A B : Type 0} (P Q R : Parser → Type 0) where
  Returns-bind :
      (o : Outcome S A) (f : A → Session S B)
      → Returns Q o
      → ((a : A) → Ensures Q R (f a))
      → Returns R (bind o f)
  Returns-bind (done a s) f now later = (later a).at s now
  Returns-bind (failed e s) f now later = tt
  Returns-bind undefined f now later = tt
  Returns-bind stuck f now later = tt

  Ensures-bind :
      (m : Session S A) (f : A → Session S B)
      → Ensures P Q m
      → ((a : A) → Ensures Q R (f a))
      → Ensures P R (m >>= f)
  unfolding ◌>>=◌
  Ensures-bind m f first later = record {
    at = λ s now. Returns-bind (m s) f (first.at s now) later;
  }

module _ {S A B : Type 0} (P R : Parser → Type 0) where
  -- A first step that keeps what holds.
  pub Ensures-next :
      (m : Session S A) (f : A → Session S B)
      → Keeps P m
      → ((a : A) → Ensures P R (f a))
      → Ensures P R (m >>= f)
  Ensures-next m f keeps later = Ensures-bind P P R m f (Keeps-Ensures P m keeps) later

module _ {S A B : Type 0} (R : Parser → Type 0) where
  -- When the rest makes `R` true by itself.
  pub Ensures-rest :
      (P : Parser → Type 0) (m : Session S A) (f : A → Session S B)
      → ((a : A) → Ensures (λ _. Unit) R (f a))
      → Ensures P R (m >>= f)
  unfolding ◌>>=◌
  Ensures-rest P m f later = record { at = λ s now. closed (m s) }
    where
      closed : (o : Outcome S A) → Returns R (bind o f)
      closed (done a s) = (later a).at s tt
      closed (failed e s) = tt
      closed undefined = tt
      closed stuck = tt

module _ {S : Type 0} (R P : Parser → Type 0) where
  Ensures-modify : (f : Parser → Parser) → ((p : Parser) → R (f p)) → Ensures {S = S} P R (modify f)
  unfolding modify
  Ensures-modify f makes = record { at = λ s now. makes s.parser }

module _ {S B : Type 0} (P R : Parser → Type 0) where
  -- The rest may use the test.
  Ensures-unless :
      (b : Bool) (e : Exception) (f : Unit → Session S B)
      → (b ≡ true → Ensures P R (f tt))
      → Ensures P R (throw_unless b e >>= f)
  unfolding ◌>>=◌
  Ensures-unless true e f later = record { at = λ s now. (later refl).at s now }
  Ensures-unless false e f later = record { at = λ s now. tt }

-- A parser that is connected, and one that knows the format too.
abbrev pub Connected : Parser → Type 0
Connected p = p.is_connected ≡ true

abbrev pub Tuned : Parser → Type 0
Tuned p = Connected p × (format_is_valid p.fmt ≡ true)

abbrev pub Ready : Parser → Type 0
Ready p = Tuned p × (no_position p ≡ false)

version_begins :
    (version : List ℕ) → accepted_version version ≡ true → (get_or version 0 0 == 0) ≡ false
unfolding accepted_version
version_begins [] accepted = absurd (ground (arith, accepted))
version_begins (v ∷ rest) accepted = ground (arith, accepted)

pub format_tune-valid :
    (f : FormatDescription) (version : List ℕ) (checksum : Bool)
    → accepted_version version ≡ true
    → format_is_valid (format_tune f 4 (some version) checksum).1 ≡ true
unfolding format_tune format_is_valid
format_tune-valid f [] checksum accepted = absurd (ground (arith, version_begins [] accepted))
format_tune-valid f (v ∷ rest) checksum accepted = rw (version_begins (v ∷ rest) accepted) refl

put_table-Tuned : (p : Parser) (at : TablePointer) (t : Table) → Tuned p → Tuned (put_table p at t)
unfolding put_table
put_table-Tuned p at t now = now

module _ {S : Type 0} ⦃c : Client S⦄ where
  request-refused :
      (s : State S)
      → no_position s.parser ≡ true
      → request_binlog_dump s ≡ failed Exception.no_binlog_position s
  unfolding request_binlog_dump ◌>>=◌
  request-refused s missing = rw missing refl

  Ensures-connect : (P : Parser → Type 0) → Ensures {S = S} P Connected connect
  unfolding connect
  Ensures-connect P = Ensures-rest Connected P _ _ λ _. Ensures-rest Connected _ _ _ λ _.
      Ensures-rest Connected _ _ _ λ _. Ensures-rest Connected _ _ _ λ _.
        Ensures-rest Connected _ _ _
          λ _. Ensures-modify Connected _ (λ p. record p { is_connected = true }) (λ p. refl)

  Ensures-adopt :
      (version : List ℕ) (checksum : Option (List ℕ))
      → Ensures {S = S} Connected Tuned (adopt_format version checksum)
  unfolding adopt_format
  Ensures-adopt version checksum =
      Ensures-unless Connected Tuned (accepted_version version) _ _ λ accepted. record {
        at = λ s now.
            unfold ◌>>=◌ format_tune in
            (now, format_tune-valid s.parser.fmt version (wants_checksum checksum) accepted);
      }

  Ensures-format : Ensures {S = S} Connected Tuned get_binlog_format
  unfolding get_binlog_format
  Ensures-format =
      Ensures-next Connected Tuned server_version _ (Keeps-server_version Connected) λ version.
        Ensures-next Connected Tuned _ _ (Keeps-query_rows Connected _) λ result.
          Ensures-next Connected Tuned _ _ (Keeps-or_throw result _) λ rows.
            Ensures-next Connected Tuned _ _ (Keeps-or_undefined (first_field 1 rows))
              λ checksum. Ensures-adopt version checksum

  -- A request that has been sent had a position.
  Ensures-request :
      (P : Parser → Type 0)
      → Ensures {S = S} P (λ p. P p × (no_position p ≡ false)) request_binlog_dump
  Ensures-request P = record {
    at = λ s now. elim (Bool-cases (no_position s.parser)) [
      | inl missing ↦ refused s missing
      | inr there ↦
          Leaves-Returns HasPosition (request_binlog_dump s)
            ((Keeps-request HasPosition).at s (now, there))
    ];
  }
    where
      HasPosition : Parser → Type 0
      HasPosition p = P p × (no_position p ≡ false)

      refused :
          (s : State S) → no_position s.parser ≡ true → Returns HasPosition (request_binlog_dump s)
      refused s missing = rw (request-refused s missing) tt

  -- When `prepare` returns, whatever the server has answered, the parser is connected, its format
  -- is valid, and it has the name and the position of a binlog file.
  pub prepare-Ready : (s : State S) → Returns Ready (prepare s)
  unfolding prepare
  prepare-Ready s =
      (Ensures-bind (λ _. Unit) Connected Ready connect _ (Ensures-connect (λ _. Unit))
          λ _. Ensures-bind Connected Tuned Ready get_binlog_format _ Ensures-format λ _.
            Ensures-next Tuned Ready _ _ (Keeps-checksum Tuned) λ _.
              Ensures-next Tuned Ready _ _
                (Keeps-structure Tuned (λ p name n now. now) put_table-Tuned)
                λ _. Ensures-request Tuned).at
        s tt
