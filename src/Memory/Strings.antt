-- ===== src/Memory/Strings.antt =====
-- C strings: a text with no NUL, with a NUL behind it or without one.
use mysqlslave.Base.{ℕ, ◌≡◌, ◌≢◌, refl, some, none, List, [], ◌∷◌, ◌++◌, All, ne→==}
use mysqlslave.Memory.{c_string}

pub c_string-append : (s rest : List ℕ) → All (λ c. c ≢ 0) s → c_string (s ++ (0 ∷ rest)) ≡ some s
unfolding c_string
c_string-append [] rest valid = refl
c_string-append (c ∷ s) rest valid = rw (ne→== c 0 (valid.0), c_string-append s rest valid.1) refl

pub c_string-none : (s : List ℕ) → All (λ c. c ≢ 0) s → c_string s ≡ none
unfolding c_string
c_string-none [] valid = refl
c_string-none (c ∷ s) valid = rw (ne→== c 0 (valid.0), c_string-none s valid.1) refl
