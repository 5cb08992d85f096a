-- ===== src/Parser/Session/Outcomes.antt =====
-- What holds of the object however a step ends, one rule for each way to build a step.
use mysqlslave.Base.{Option, none, some, Bool, true, false, if◌then◌else◌}
use mysqlslave.Parser.{Parser, Exception}
use mysqlslave.Parser.Session.{
  State, Outcome, done, failed, undefined, stuck, Session, bind, ◌>>=◌, throw_unless, or_throw,
  or_undefined, call, call_, gets, modify, pure, throw,
}

-- `P` of the object behind a step, whether it returns or throws.
abbrev pub Leaves : {S A : Type 0} → (Parser → Type 0) → Outcome S A → Type 0
Leaves P (done a s) = P s.parser
Leaves P (failed e s) = P s.parser
Leaves P undefined = Unit
Leaves P stuck = Unit

-- A step that keeps `P`.
pub record Keeps {S A : Type 0} (P : Parser → Type 0) (m : Session S A) : Type 0 where
  pub at : (s : State S) → P s.parser → Leaves P (m s)

module _ {S A : Type 0} {P : Parser → Type 0} where
  pub Keeps-pure : (a : A) → Keeps {S = S} P (pure a)
  unfolding pure
  Keeps-pure a = record { at = λ s now. now }

  pub Keeps-gets : (f : Parser → A) → Keeps {S = S} P (gets f)
  unfolding gets
  Keeps-gets f = record { at = λ s now. now }

  pub Keeps-call : (f : S → A × S) → Keeps P (call f)
  unfolding call
  Keeps-call f = record { at = λ s now. now }

  pub Keeps-or_throw : (o : Option A) (e : Exception) → Keeps {S = S} P (or_throw o e)
  unfolding or_throw
  Keeps-or_throw none e = record { at = λ s now. now }
  Keeps-or_throw (some a) e = record { at = λ s now. now }

  pub Keeps-or_undefined : (o : Option A) → Keeps {S = S} P (or_undefined o)
  unfolding or_undefined
  Keeps-or_undefined none = record { at = λ s now. tt }
  Keeps-or_undefined (some a) = record { at = λ s now. now }

  pub Keeps-if :
      (b : Bool) (m k : Session S A) → Keeps P m → Keeps P k → Keeps P (if b then m else k)
  Keeps-if true m k keeps_m keeps_k = keeps_m
  Keeps-if false m k keeps_m keeps_k = keeps_k

module _ {S : Type 0} {P : Parser → Type 0} where
  pub Keeps-throw : (e : Exception) → Keeps {S = S} P (throw e)
  unfolding throw
  Keeps-throw e = record { at = λ s now. now }

  pub Keeps-throw_unless : (b : Bool) (e : Exception) → Keeps {S = S} P (throw_unless b e)
  unfolding throw_unless
  Keeps-throw_unless true e = record { at = λ s now. now }
  Keeps-throw_unless false e = record { at = λ s now. now }

  pub Keeps-modify :
      (f : Parser → Parser) → ((p : Parser) → P p → P (f p)) → Keeps {S = S} P (modify f)
  unfolding modify
  Keeps-modify f stays = record { at = λ s now. stays s.parser now }

  pub Keeps-call_ : (f : S → S) → Keeps P (call_ f)
  unfolding call_
  Keeps-call_ f = record { at = λ s now. now }

module _ {S A B : Type 0} {P : Parser → Type 0} where
  Leaves-bind :
      (o : Outcome S A) (f : A → Session S B)
      → Leaves P o
      → ((a : A) → Keeps P (f a))
      → Leaves P (bind o f)
  Leaves-bind (done a s) f now later = (later a).at s now
  Leaves-bind (failed e s) f now later = now
  Leaves-bind undefined f now later = tt
  Leaves-bind stuck f now later = tt

  pub Keeps-bind :
      (m : Session S A) (f : A → Session S B)
      → Keeps P m
      → ((a : A) → Keeps P (f a))
      → Keeps P (m >>= f)
  unfolding ◌>>=◌
  Keeps-bind m f keeps later = record { at = λ s now. Leaves-bind (m s) f (keeps.at s now) later }

pub ruleset keeps_rules = (
  Keeps-pure, Keeps-gets, Keeps-call, Keeps-call_, Keeps-or_throw, Keeps-or_undefined, Keeps-if,
  Keeps-throw, Keeps-throw_unless, Keeps-modify, Keeps-bind,
)
