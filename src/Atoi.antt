-- ===== src/Atoi.antt =====
-- daemon/srcs/lib/atoi.c and `uint32_parse` of daemon/srcs/lib/args.c: numbers from strings.
-- A string is the list of its bytes; behind the last one the code reads the terminator, 0. The rest of a
-- string stands for a pointer into it.
pub mod Decimal
pub mod RoundTrip
mod Tests
use Prim.Native.Nat.{bit_and}
use backd.Base.{
  ℕ, ◌+◌, ◌-◌, ◌*◌, ◌%◌, ◌^◌, ◌≡◌, Bool, true, false, ◌&&◌, ◌||◌, Option, none, some, List, [], ◌∷◌,
  ltb, leb, ◌==◌, if◌then◌else◌, Bytes,
}

-- An `int64_t`, by its sign: a number, or the negative of one.
pub data Long : Type 0 where
  positive negative : ℕ → Long

-- What strtol(3) leaves: the rest of the string, the value, and whether `errno` is ERANGE behind it.
pub record Strtol : Type 0 where
  pub rest : Bytes
  pub value : Long
  pub erange : Bool

-- strtol(3) on a string and a base, in a process whose `errno` is not ERANGE. It reads "0" in base 8 as
-- zero.
pub record Libc : Type 0 where
  pub strtol : Bytes → ℕ → Strtol
  pub strtol-zero : strtol (b'0' ∷ []) 8 ≡ record { rest = []; value = positive 0; erange = false }

-- What `atoi32` returns: NULL; or a pointer into the string, with nothing written to the result, or with
-- a 32-bit `int`, as the number of its bits.
pub data Parsed : Type 0 where
  null : Parsed
  unset : Bytes → Parsed
  set : Bytes → ℕ → Parsed

-- `tmp > (int64_t)INT_MAX + negative`
abbrev pub too_large : Bool → Long → Bool
too_large negative' (positive n) = ltb (2 ^ 31 - 1 + (if negative' then 1 else 0)) n
too_large negative' (negative n) = false

-- `tmp = -tmp`, and the `int32_t` that `tmp` is cut to.
abbrev pub opposite : Long → Long
opposite (positive n) = negative n
opposite (negative n) = positive n

abbrev pub to_int32 : Long → ℕ
to_int32 (positive n) = n % 2 ^ 32
to_int32 (negative n) = (2 ^ 32 - n % 2 ^ 32) % 2 ^ 32

-- The end of `atoi32`.
abbrev pub finish_atoi : Bool → Long → Bytes → Parsed
finish_atoi negative' tmp rest = set rest (to_int32 (if negative' then opposite tmp else tmp))

abbrev pub is_digit : ℕ → Bool
is_digit c = leb b'0' c && leb c b'9'

-- `while (*ptr >= '0' && *ptr <= '9') ...`
unfoldable pub decimal_loop : Bool → ℕ → Bytes → Parsed
decimal_loop negative' tmp [] = finish_atoi negative' (positive tmp) []
decimal_loop negative' tmp (c ∷ rest) =
    let tmp' = tmp * 10 + bit_and c 0xcf in
    let more = decimal_loop negative' tmp' rest in
    if is_digit c
    then if too_large negative' (positive tmp') then null else more
    else finish_atoi negative' (positive tmp) (c ∷ rest)

module _ (libc : Libc) where
  -- The branch for a number that starts with a zero: hexadecimal, binary behind its prefix, or octal.
  pub read_prefixed : Bytes → Strtol
  read_prefixed (c ∷ (x ∷ rest)) =
      if x == b'x' || x == b'X'
      then libc.strtol (c ∷ (x ∷ rest)) 16
      else if x == b'b' || x == b'B'
      then libc.strtol rest 2
      else libc.strtol (c ∷ (x ∷ rest)) 8
  read_prefixed ptr = libc.strtol ptr 8

  pub prefixed : Bool → Bytes → Parsed
  unfolding read_prefixed
  prefixed negative' ptr =
      let r : Strtol = read_prefixed ptr in
      if r.erange || too_large negative' r.value then null else finish_atoi negative' r.value r.rest

  -- `atoi32` behind the sign; `str` is the string with it.
  pub unsigned_part : Bytes → Bool → Bytes → Parsed
  unfolding decimal_loop prefixed
  unsigned_part str negative' [] = unset str
  unsigned_part str negative' (c ∷ rest) =
      if is_digit c
      then if c == b'0' then prefixed negative' (c ∷ rest) else decimal_loop negative' 0 (c ∷ rest)
      else unset str

  unfoldable pub atoi32 : Bytes → Parsed
  unfolding unsigned_part
  atoi32 [] = unset []
  atoi32 (c ∷ rest) =
      if c == b'-'
      then unsigned_part (c ∷ rest) true rest
      else unsigned_part (c ∷ rest) false (c ∷ rest)

  -- `uint32_parse`, with what `*dest` was: its result and what `*dest` is then.
  unfoldable pub uint32_parse : Bytes → ℕ → Bool × ℕ
  unfolding atoi32
  uint32_parse expr dest = elim (atoi32 expr) [
    | null ↦ (false, dest)
    | unset rest ↦ (elim rest [ [] ↦ true | _ ↦ false ], dest)
    | set rest n ↦ (elim rest [ [] ↦ true | _ ↦ false ], n)
  ]
