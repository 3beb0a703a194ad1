-- ===== src/Text.antt =====
-- What the sources use of the C library's strings: comparison, `atoi` and decimal output. A string
-- is the list of its bytes before the terminating NUL, and a `char *` is an optional one.
pub mod Compare
pub mod Number
use Prim.Native.Char.{code}
use Prim.Native.String.{String}
use pdns_logger.Base.{
  ℕ, zero, suc, ◌+◌, ◌-◌, ◌*◌, ◌/◌, ◌%◌, ◌^◌, min, Bool, true, false, not, ◌&&◌, ◌||◌, List, [],
  ◌∷◌, ◌++◌, Option, none, some, ◌==◌, ltb, leb, if◌then◌else◌,
}

abbrev pub Text : Type 0
Text = List ℕ

-- The bytes of a literal; all of them are ASCII.
abbrev pub codes : String → Text
codes String.[] = []
codes (String.◌∷◌ c s) = code c ∷ codes s

-- the macro `zstr`
abbrev pub zstr : Option Text → Bool
zstr none = true
zstr (some []) = true
zstr (some (_ ∷ _)) = false

-- `!strncmp(a, b, n)`
unfoldable pub strn_eq : Text → Text → ℕ → Bool
strn_eq a b zero = true
strn_eq [] [] (suc n) = true
strn_eq [] (_ ∷ _) (suc n) = false
strn_eq (_ ∷ _) [] (suc n) = false
strn_eq (x ∷ a) (y ∷ b) (suc n) = x == y && strn_eq a b n

abbrev pub is_space : ℕ → Bool
is_space c = (leb 9 c && leb c 13) || c == 32

abbrev pub is_digit : ℕ → Bool
is_digit c = leb b'0' c && leb c b'9'

-- the digits at the front of a text, read on from `acc`
pub digits_from : ℕ → Text → ℕ
digits_from acc [] = acc
digits_from acc (c ∷ s) =
    let rest = digits_from (acc * 10 + (c - b'0')) s in if is_digit c then rest else acc

-- `strtol` keeps its result within a `long`, and `atoi` cuts that down to an `int`. An `int` is its
-- bit pattern, below 2 ^ 32.
abbrev pub to_int : Bool → ℕ → ℕ
to_int negative n =
    if negative then (2 ^ 32 - min n (2 ^ 63) % 2 ^ 32) % 2 ^ 32 else min n (2 ^ 63 - 1) % 2 ^ 32

pub atoi_sign : Text → ℕ
atoi_sign [] = 0
atoi_sign (c ∷ s) =
    if c == b'-'
    then to_int true (digits_from 0 s)
    else if c == b'+'
    then to_int false (digits_from 0 s)
    else to_int false (digits_from 0 (c ∷ s))

unfoldable pub atoi : Text → ℕ
unfolding digits_from atoi_sign
atoi [] = 0
atoi (c ∷ s) = let rest = atoi s in if is_space c then rest else atoi_sign (c ∷ s)

-- `atoi(value) ? 1 : 0`
abbrev pub flag : Text → Bool
flag value = not (atoi value == 0)

-- `%u` and `%zu`; the fuel is a bound on the number of digits.
pub decimal_digits : ℕ → ℕ → Text → Text
decimal_digits zero n rest = rest
decimal_digits (suc fuel) n rest =
    let more = decimal_digits fuel (n / 10) ((b'0' + n % 10) ∷ rest) in
    if ltb n 10 then (b'0' + n) ∷ rest else more

-- Twenty digits are enough for 64 bits.
unfoldable pub decimal : ℕ → Text
unfolding decimal_digits
decimal n = decimal_digits 20 n []

-- `%d`, of the bit pattern of an `int`
unfoldable pub decimal_int : ℕ → Text
unfolding decimal
decimal_int n = if ltb n (2 ^ 31) then decimal n else b'-' ∷ decimal (2 ^ 32 - n)
