-- ===== src/Memory.antt =====
-- The packet in memory. An address is an offset into the packet; `none` is an access outside it,
-- which C++ leaves undefined. `Headers` stands for what the program takes from the headers of the
-- MySQL client (my_global.h, mysql.h): it is not in the repository, so it is a parameter.
pub mod Endian
pub mod Strings
use mysqlslave.Base.{ℕ, zero, suc, ◌+◌, ◌*◌, ◌≡◌, List, [], ◌∷◌, Option, none, some, ◌>>=◌}
use mysqlslave.Base.{get_elem?, drop, ◌==◌, if◌then◌else◌}

abbrev pub Memory : Type 0
Memory = List ℕ

-- The number that bytes stand for, the lowest first.
abbrev pub little_endian : List ℕ → ℕ
little_endian [] = 0
little_endian (b ∷ bs) = b + 256 * little_endian bs

-- `korr` is the family `uint2korr` … `uint8korr` on the bytes that it reads, documented as the
-- little-endian number of two to eight bytes; `null_length` is the constant NULL_LENGTH.
pub record Headers : Type 0 where
  pub korr : List ℕ → ℕ
  pub korr_lem : (bs : List ℕ) → korr bs ≡ little_endian bs
  pub null_length : ℕ

-- The first `n` bytes, if there are so many.
unfoldable pub take_exact : ℕ → Memory → Option (List ℕ)
take_exact zero m = some []
take_exact (suc n) [] = none
take_exact (suc n) (b ∷ m) = take_exact n m >>= λ bs. some (b ∷ bs)

-- `*p`
abbrev pub load : Memory → ℕ → Option ℕ
load m p = get_elem? m p

-- `memcpy(…, p, n)`
abbrev pub load_bytes : ℕ → Memory → ℕ → Option (List ℕ)
load_bytes n m p = take_exact n (drop p m)

-- The bytes before the NUL at which a C string ends, as `strcpy` and `strlen` read them.
unfoldable pub c_string : Memory → Option (List ℕ)
c_string [] = none
c_string (b ∷ m) = let rest = c_string m in if b == 0 then some [] else rest >>= λ s. some (b ∷ s)

-- `uintNkorr(p)` for a width of `n` bytes.
unfoldable pub uint_korr : ⦃h : Headers⦄ → ℕ → Memory → ℕ → Option ℕ
uint_korr ⦃h⦄ n m p = load_bytes n m p >>= λ bs. some (h.korr bs)
