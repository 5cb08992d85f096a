-- ===== src/Value/Print/Streams.antt =====
-- What printing does to the stream: text at the end, and flags that stay.
use mysqlslave.Base.{ℕ, ◌≡◌, ◌⊎◌, Option, some, Bool, true, false, List, ◌++◌}
use mysqlslave.Memory.{Memory, Headers}
use mysqlslave.Value.Types.{ColumnType}
use mysqlslave.Value.{Value}
use mysqlslave.Value.Real.{Reals}
use mysqlslave.Value.JsonTypes.{JsonValues}
use mysqlslave.Value.Print.{Stream, Formats, put_value}

-- `os'` is `os` with text behind what was there, its width kept or used up, and the flags kept or
-- those that a value of an ENUM or a SET sets.
pub record Goes (os os' : Stream) : Type 0 where
  pub added : List ℕ
  pub behind : os'.out ≡ os.out ++ added
  pub width_used : (os'.width ≡ os.width) ⊎ (os'.width ≡ 0)
  pub flags : ((os'.hex ≡ os.hex) × (os'.fill ≡ os.fill)) ⊎ ((os'.hex ≡ true) × (os'.fill ≡ b'0'))

-- A stream on which numbers are hexadecimal.
abbrev IsHex : Stream → Type 0
IsHex os = (os.hex ≡ true) × (os.fill ≡ b'0') × (os.width ≡ 0)

module _ ⦃h : Headers⦄ ⦃r : Reals⦄ ⦃j : JsonValues⦄ ⦃f : Formats⦄ where
  -- Values that are printed one after the other.
  pub data Prints : Stream → Stream → Type 0 where
    done : {os : Stream} → Prints os os
    next :
        {os os' os'' : Stream} (v : Value) (m : Memory)
        → put_value os v m ≡ some os'
        → Prints os' os''
        → Prints os os''

  abbrev pub is_integer : ColumnType → Bool
  is_integer ColumnType.decimal = true
  is_integer ColumnType.tiny = true
  is_integer ColumnType.short = true
  is_integer ColumnType.long = true
  is_integer ColumnType.longlong = true
  is_integer _ = false

  abbrev pub is_choice : ColumnType → Bool
  is_choice ColumnType.enum = true
  is_choice ColumnType.set = true
  is_choice _ = false
