-- ===== src/LogEvent/FieldLength.antt =====
-- `__net_field_length` of src/mysqlslave/logevent.cpp: a length-encoded integer.
pub mod RoundTrip
use mysqlslave.Base.{ℕ, ◌+◌, Option, some, ◌>>=◌, ltb, ◌==◌, if◌then◌else◌}
use mysqlslave.Memory.{Memory, Headers, load, uint_korr}

-- The number at `p`, and the address behind it.
unfoldable pub net_field_length : ⦃h : Headers⦄ → Memory → ℕ → Option (ℕ × ℕ)
net_field_length ⦃h⦄ m p = do
  b ← load m p
  if ltb b 251
      then some (b, p + 1)
      else if b == 251
      then some (h.null_length, p + 1)
      else if b == 252
      then (uint_korr 2 m (p + 1) >>= λ v. some (v, p + 3))
      else if b == 253
      then (uint_korr 3 m (p + 1) >>= λ v. some (v, p + 4))
      else (uint_korr 4 m (p + 1) >>= λ v. some (v, p + 9))
