-- ===== src/Exceptions/Messages.antt =====
-- What `what()` says.
use mysqlslave.Base.{
  ℕ, zero, suc, ◌-◌, ◌≤◌, ◌<◌, ◌≡◌, ◌≢◌, refl, ap, ◌∙◌, arith, none, some, Bool, true, false, not,
  ◌&&◌, subst, Bool-cases, inl, inr, leb, ◌==◌, le→leb, if◌then◌else◌, List, [], ◌∷◌, ◌++◌, All,
  length, take, drop, length-append,
}
use mysqlslave.Base.Texts.{codes}
use mysqlslave.Memory.{c_string}
use mysqlslave.Memory.Strings.{c_string-append, c_string-none}
use mysqlslave.Exceptions.{
  EventClass, format_description, rotate, unhandled, query, table_map, intvar, rows, print_into,
  copy_into, type_code_str, exception, log_event_exception, what,
}

-- A text, which has no NUL.
abbrev pub IsText : List ℕ → Type 0
IsText s = All (λ c. c ≢ 0) s

take-IsText : (n : ℕ) (s : List ℕ) → IsText s → IsText (take n s)
take-IsText zero s valid = tt
take-IsText (suc n) [] valid = tt
take-IsText (suc n) (c ∷ s) valid = (valid.0, take-IsText n s valid.1)

length-take_le : (n : ℕ) (s : List ℕ) → length (take n s) ≤ n
length-take_le zero s = omega arith
length-take_le (suc n) [] = omega arith
length-take_le (suc n) (c ∷ s) = omega (arith, length-take_le n s)

take-all : (n : ℕ) (s : List ℕ) → length s ≤ n → take n s ≡ s
take-all zero [] fits = refl
take-all zero (c ∷ s) fits = absurd (omega arith)
take-all (suc n) [] fits = refl
take-all (suc n) (c ∷ s) fits = ap (λ l. c ∷ l) (take-all n s (omega arith))

-- The NUL behind a text that is shorter than the buffer is inside it.
take-text :
    (n : ℕ) (s rest : List ℕ)
    → length s < n
    → take n (s ++ (0 ∷ rest)) ≡ s ++ (0 ∷ take (n - length s - 1) rest)
take-text zero s rest fits = absurd (omega arith)
take-text (suc n) [] rest fits = ap (λ k. 0 ∷ take k rest) (omega arith)
take-text (suc n) (c ∷ s) rest fits =
    ap (λ l. c ∷ l)
      (take-text n s rest (omega arith) ∙ ap (λ k. s ++ (0 ∷ take k rest)) (omega arith))

take-long : (n : ℕ) (s rest : List ℕ) → n ≤ length s → take n (take n s ++ rest) ≡ take n s
take-long zero s rest long = refl
take-long (suc n) [] rest long = absurd (omega arith)
take-long (suc n) (c ∷ s) rest long = ap (λ l. c ∷ l) (take-long n s rest (omega arith))

what-print_into :
    (s fresh : List ℕ) → IsText s → what (print_into 1024 s fresh) ≡ some (take 1023 s)
unfolding what print_into
what-print_into s fresh valid =
    ap c_string (take-text 1024 (take 1023 s) _ (omega (arith, length-take_le 1023 s)))
    ∙ c_string-append (take 1023 s) _ (take-IsText 1023 s valid)

-- Whatever its buffer holds before, a `CException` made of a text with no NUL says the first 1023
-- bytes of the text.
what-exception :
    (text fresh : List ℕ) → IsText text → what (exception text fresh) ≡ some (take 1023 text)
unfolding exception
what-exception text fresh valid = what-print_into text fresh valid

-- A test for texts, which computes on the literals of the source.
abbrev pub is_text : List ℕ → Bool
is_text [] = true
is_text (c ∷ s) = not (c == 0) && is_text s

pub is_text-IsText : (s : List ℕ) → is_text s ≡ true → IsText s
is_text-IsText [] h = tt
is_text-IsText (c ∷ s) h = elim (Bool-cases (c == 0)) [
  | inl nul ↦ cc
  | inr other ↦ (
    λ e. ground (arith, other, e),
    is_text-IsText s (subst (λ b. (not b && is_text s) ≡ true) other h),
  )
]

IsText-append : (s t : List ℕ) → IsText s → IsText t → IsText (s ++ t)
IsText-append [] t first second = second
IsText-append (c ∷ s) t first second = (first.0, IsText-append s t first.1 second)

-- A text that a name of an event is: no NUL, and few bytes.
record IsName (s : List ℕ) : Type 0 where
  clean : is_text s ≡ true
  short : leb (length s) 29 ≡ true

IsName-choice : (b : Bool) (s t : List ℕ) → IsName s → IsName t → IsName (if b then s else t)
IsName-choice true s t first second = first
IsName-choice false s t first second = second

type_code_str-IsName : (event : EventClass) → IsName (type_code_str event)
unfolding type_code_str
type_code_str-IsName format_description = record { clean = refl; short = refl }
type_code_str-IsName rotate = record { clean = refl; short = refl }
type_code_str-IsName unhandled = record { clean = refl; short = refl }
type_code_str-IsName query = record { clean = refl; short = refl }
type_code_str-IsName table_map = record { clean = refl; short = refl }
type_code_str-IsName (intvar t) =
    IsName-choice (t == 1) _ _ (record { clean = refl; short = refl })
      (IsName-choice (t == 2) _ _ (record { clean = refl; short = refl })
        (record { clean = refl; short = refl }))
type_code_str-IsName (rows t) =
    IsName-choice (t == 23) _ _ (record { clean = refl; short = refl })
      (IsName-choice (t == 25) _ _ (record { clean = refl; short = refl })
        (IsName-choice (t == 24) _ _ (record { clean = refl; short = refl })
          (record { clean = refl; short = refl })))

-- For every class of event and every message of at most 992 bytes with no NUL, an exception about
-- the event says its name, a colon and the message, uncut.
pub what-log_event :
    (event : EventClass) (msg fresh : List ℕ)
    → IsText msg
    → length msg ≤ 992
    → what (log_event_exception (some event) msg fresh)
      ≡ some (type_code_str event ++ (codes ": " ++ msg))
unfolding log_event_exception
what-log_event event msg fresh valid short =
    let name = type_code_str-IsName event in
    let few : length (type_code_str event) ≤ 29 = ground (arith, name.short) in
    let said = type_code_str event ++ (codes ": " ++ msg) in
    let behind : IsText (codes ": " ++ msg) =
      IsText-append (codes ": ") msg (is_text-IsText (codes ": ") refl) valid in
    let size : length said ≤ 1023 = omega (
      arith,
      length-append (type_code_str event) (codes ": " ++ msg),
      length-append (codes ": ") msg,
    ) in
    what-print_into said fresh
      (IsText-append (type_code_str event) _ (is_text-IsText _ (name.clean)) behind)
    ∙ ap some (take-all 1023 said size)

-- A message of 1024 bytes or more, none of them a NUL, leaves an exception about no event without
-- the NUL at its end: `what()` is read past the buffer.
what-no_event :
    (msg fresh : List ℕ)
    → IsText msg
    → 1024 ≤ length msg
    → what (log_event_exception none msg fresh) ≡ none
unfolding log_event_exception what copy_into
what-no_event msg fresh valid long =
    rw (le→leb 1024 (length msg) long, take-long 1024 msg (drop 1024 fresh) long)
      (c_string-none (take 1024 msg) (take-IsText 1024 msg valid))
