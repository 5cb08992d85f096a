-- ===== src/ColumnDesc/Printed.antt =====
-- The variants of an ENUM or SET type are those between the quotes.
use mysqlslave.Base.{ℕ, zero, suc, ◌≤◌, ◌<◌, ◌≡◌, ◌≢◌, refl, ap, ◌∙◌, arith, true}
use mysqlslave.Base.{List, [], ◌∷◌, ◌++◌, some, All, length, length-append}
use mysqlslave.ColumnDesc.{ColumnDesc, split_quote, variants_loop, has_variants, update}

-- A text with no quote in it.
abbrev pub IsPlain : List ℕ → Type 0
IsPlain s = All (λ c. c ≢ 0x27) s

abbrev pub quoted : List ℕ → List ℕ
quoted s = 0x27 ∷ (s ++ (0x27 ∷ []))

-- The names in quotes, each with a comma before it but for the first, and the closing bracket.
abbrev pub rest_of_type : List (List ℕ) → List ℕ
rest_of_type [] = b')' ∷ []
rest_of_type (s ∷ names) = b',' ∷ 0x27 ∷ (s ++ (0x27 ∷ rest_of_type names))

-- The type that SHOW COLUMNS prints: `enum('a','b')`, or `set` likewise. `word` is what stands
-- before the first quote.
pub data Kind : Type 0 where
  enum_type set_type : Kind

abbrev pub word : Kind → List ℕ
word enum_type = b'e' ∷ b'n' ∷ b'u' ∷ b'm' ∷ b'(' ∷ []
word set_type = b's' ∷ b'e' ∷ b't' ∷ b'(' ∷ []

abbrev pub print_type : Kind → List ℕ → List (List ℕ) → List ℕ
print_type kind s names = word kind ++ (0x27 ∷ (s ++ (0x27 ∷ rest_of_type names)))

split_quote-plain : (s t : List ℕ) → IsPlain s → split_quote (s ++ (0x27 ∷ t)) ≡ some (s, t)
unfolding split_quote
split_quote-plain [] t h = refl
split_quote-plain (c ∷ s) t h = ground (arith, split_quote-plain s t h.1)

-- A round of the loop: a text before the quotes, and the name between them.
variants_loop-name :
    (fuel : ℕ) (before s t : List ℕ)
    → IsPlain before
    → IsPlain s
    → variants_loop (suc fuel) (before ++ (0x27 ∷ (s ++ (0x27 ∷ t)))) ≡ s ∷ variants_loop fuel t
unfolding variants_loop
variants_loop-name fuel before s t h k =
    ground (arith, split_quote-plain before (s ++ (0x27 ∷ t)) h, split_quote-plain s t k)

variants_loop-rest :
    (names : List (List ℕ)) (fuel : ℕ)
    → All IsPlain names
    → length (rest_of_type names) ≤ fuel
    → variants_loop fuel (rest_of_type names) ≡ names
variants_loop-rest [] zero h k = absurd (omega arith)
variants_loop-rest [] (suc fuel) h k = unfold variants_loop split_quote in refl
variants_loop-rest (s ∷ names) zero h k = absurd (omega arith)
variants_loop-rest (s ∷ names) (suc fuel) h k =
    variants_loop-name fuel (b',' ∷ []) s (rest_of_type names) (comma, tt) h.0
    ∙ ap (λ r. s ∷ r) (variants_loop-rest names fuel h.1 enough)
  where
    comma : ◌≢◌ {A = ℕ} b',' 0x27
    comma = omega arith

    enough : length (rest_of_type names) ≤ fuel
    enough = omega (arith, length-append s (0x27 ∷ rest_of_type names))

word-IsPlain : (kind : Kind) → IsPlain (word kind)
word-IsPlain enum_type = omega arith
word-IsPlain set_type = omega arith

word-has_variants :
    (kind : Kind) (s : List ℕ) (names : List (List ℕ))
    → has_variants (print_type kind s names) ≡ true
word-has_variants enum_type s names = refl
word-has_variants set_type s names = refl

variants_loop-enough :
    (kind : Kind) (s : List ℕ) (names : List (List ℕ)) (fuel : ℕ)
    → IsPlain s
    → All IsPlain names
    → length (rest_of_type names) < fuel
    → variants_loop fuel (print_type kind s names) ≡ s ∷ names
variants_loop-enough kind s names zero h k enough = absurd (omega arith)
variants_loop-enough kind s names (suc fuel) h k enough =
    variants_loop-name fuel (word kind) s (rest_of_type names) (word-IsPlain kind) h
    ∙ ap (λ r. s ∷ r) (variants_loop-rest names fuel k (omega arith))

length-print_type :
    (kind : Kind) (s : List ℕ) (names : List (List ℕ))
    → length (rest_of_type names) < length (print_type kind s names)
length-print_type kind s names = omega (
  arith,
  length-append (word kind) (0x27 ∷ (s ++ (0x27 ∷ rest_of_type names))),
  length-append s (0x27 ∷ rest_of_type names),
)

-- `update` on the printed type of an ENUM or SET sets the position and finds exactly the variants,
-- in order, if none of them holds a quote.
pub update-print_type :
    (desc : ColumnDesc) (pos : ℕ) (kind : Kind) (s : List ℕ) (names : List (List ℕ))
    → IsPlain s
    → All IsPlain names
    → update desc pos (print_type kind s names) ≡ record { position = pos; variants = s ∷ names }
unfolding update
update-print_type desc pos kind s names h k =
    let found =
      variants_loop-enough kind s names (length (print_type kind s names)) h k
        (length-print_type kind s names) in
    rw (word-has_variants kind s names, found)
