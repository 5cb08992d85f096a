-- ===== src/Base/Texts.antt =====
-- Texts as the lists of their bytes, and numbers as texts.
use Prim.Native.Nat.{ℕ, zero, suc, ◌+◌, ◌-◌, ◌/◌, ◌%◌}
use Prim.Native.Char.{code}
use Prim.Native.String.{String}
use mathlib.Core.List.{List, [], ◌∷◌, ◌++◌}
use mysqlslave.Base.Tests.{ltb, if◌then◌else◌}

-- The bytes of an ASCII text.
abbrev pub codes : String → List ℕ
codes String.[] = []
codes (String.◌∷◌ c s) = code c ∷ codes s

-- A number in decimal, of at most `n` digits.
abbrev pub decimal : ℕ → ℕ → List ℕ
decimal zero v = []
decimal (suc n) v =
    let above = decimal n (v / 10) in
    if ltb v 10 then (b'0' + v) ∷ [] else above ++ ((b'0' + v % 10) ∷ [])

-- The same in hexadecimal, with small letters.
abbrev pub hexadecimal : ℕ → ℕ → List ℕ
hexadecimal zero v = []
hexadecimal (suc n) v =
    let digit = if ltb (v % 16) 10 then b'0' + v % 16 else b'a' + (v % 16 - 10) in
    let above = hexadecimal n (v / 16) in if ltb v 16 then digit ∷ [] else above ++ (digit ∷ [])
