-- ===== src/Parser/Session/Spends.antt =====
-- What a step leaves of a number that the world has, one rule for each way to build a step.
use mysqlslave.Base.{ℕ, ◌≤◌, ◌≡◌, refl, arith, Option, none, some, Bool, true, false, if◌then◌else◌}
use mysqlslave.Parser.{Parser, Exception}
use mysqlslave.Parser.Session.{
  State, Outcome, done, failed, undefined, stuck, Session, bind, ◌>>=◌, throw_unless, or_undefined,
  call, call_, gets, modify, pure,
}

-- At most `n` is left behind a step that returns.
abbrev pub Within : {S A : Type 0} → (S → ℕ) → ℕ → Outcome S A → Type 0
Within left n (done a s) = left s.world ≤ n
Within left n (failed e s) = Unit
Within left n undefined = Unit
Within left n stuck = Unit

-- A step behind which no more is left than before.
pub record Spends {S A : Type 0} (left : S → ℕ) (m : Session S A) : Type 0 where
  pub at : (n : ℕ) (s : State S) → left s.world ≤ n → Within left n (m s)

module _ {S A : Type 0} {left : S → ℕ} where
  pub Spends-pure : (a : A) → Spends left (pure a)
  unfolding pure
  Spends-pure a = record { at = λ n s few. few }

  pub Spends-gets : (f : Parser → A) → Spends left (gets f)
  unfolding gets
  Spends-gets f = record { at = λ n s few. few }

  pub Spends-call : (f : S → A × S) → ((w : S) → left (f w).1 ≤ left w) → Spends left (call f)
  unfolding call
  Spends-call f less = record { at = λ n s few. omega (arith, less s.world, few) }

  pub Spends-or_undefined : (o : Option A) → Spends left (or_undefined o)
  unfolding or_undefined
  Spends-or_undefined none = record { at = λ n s few. tt }
  Spends-or_undefined (some a) = record { at = λ n s few. few }

  pub Spends-if :
      (b : Bool) (m k : Session S A)
      → Spends left m
      → Spends left k
      → Spends left (if b then m else k)
  Spends-if true m k spends_m spends_k = spends_m
  Spends-if false m k spends_m spends_k = spends_k

module _ {S : Type 0} {left : S → ℕ} where
  pub Spends-throw_unless : (b : Bool) (e : Exception) → Spends left (throw_unless b e)
  unfolding throw_unless
  Spends-throw_unless true e = record { at = λ n s few. few }
  Spends-throw_unless false e = record { at = λ n s few. tt }

  pub Spends-modify : (f : Parser → Parser) → Spends left (modify f)
  unfolding modify
  Spends-modify f = record { at = λ n s few. few }

  pub Spends-call_ : (f : S → S) → ((w : S) → left (f w) ≤ left w) → Spends left (call_ f)
  unfolding call_
  Spends-call_ f less = record { at = λ n s few. omega (arith, less s.world, few) }

module _ {S A B : Type 0} {left : S → ℕ} where
  Within-bind :
      (n : ℕ) (o : Outcome S A) (f : A → Session S B)
      → Within left n o
      → ((a : A) → Spends left (f a))
      → Within left n (bind o f)
  Within-bind n (done a s) f few later = (later a).at n s few
  Within-bind n (failed e s) f few later = tt
  Within-bind n undefined f few later = tt
  Within-bind n stuck f few later = tt

  pub Spends-bind :
      (m : Session S A) (f : A → Session S B)
      → Spends left m
      → ((a : A) → Spends left (f a))
      → Spends left (m >>= f)
  unfolding ◌>>=◌
  Spends-bind m f spends later = record {
    at = λ n s few. Within-bind n (m s) f (spends.at n s few) later;
  }

module _ {S A B : Type 0} (left : S → ℕ) where
  -- Two ways to go on that agree while at most `n` is left.
  bind-agree :
      (n : ℕ) (o : Outcome S A) (f g : A → Session S B)
      → Within left n o
      → ((a : A) (s : State S) → left s.world ≤ n → f a s ≡ g a s)
      → bind o f ≡ bind o g
  bind-agree n (done a s) f g few same = same a s few
  bind-agree n (failed e s) f g few same = refl
  bind-agree n undefined f g few same = refl
  bind-agree n stuck f g few same = refl

  pub >>=-agree :
      (n : ℕ) (m : Session S A) (f g : A → Session S B) (s : State S)
      → Spends left m
      → left s.world ≤ n
      → ((a : A) (s' : State S) → left s'.world ≤ n → f a s' ≡ g a s')
      → (m >>= f) s ≡ (m >>= g) s
  unfolding ◌>>=◌
  >>=-agree n m f g s spends few same = bind-agree n (m s) f g (spends.at n s few) same

pub ruleset spends_rules = (
  Spends-pure, Spends-gets, Spends-call, Spends-call_, Spends-or_undefined, Spends-if,
  Spends-throw_unless, Spends-modify, Spends-bind,
)
