-- ===== src/Prelude/Text.antt =====
-- The parts of Rust's `str` that the server uses, over texts as lists of characters.
use Prim.Native.Char.{Char, code}
use Prim.Native.String.{String}
use Prim.Native.Nat.{ℕ, zero, suc, ◌+◌, ◌-◌, ◌*◌, ◌/◌, ◌%◌, ◌^◌}
use mathlib.Core.Bool.{Bool, true, false, ◌&&◌, ◌||◌}
use mathlib.Core.Option.{Option, none, some}
use mathlib.Core.List.{List, [], ◌∷◌, map, reverse}
use package.zhost.Prelude.Tests.{ltb, leb, if◌then◌else◌}
use package.zhost.Prelude.Equality.{nat_beq, list_beq, nat_eq}
use package.zhost.Prelude.Int.{ℤ, pos, negsuc}

abbrev pub chars : String → List Char
chars String.[] = []
chars (String.◌∷◌ c s) = c ∷ chars s

abbrev pub from_chars : List Char → String
from_chars [] = String.[]
from_chars (c ∷ cs) = String.◌∷◌ c (from_chars cs)

abbrev pub codes : String → List ℕ
codes s = map code (chars s)

abbrev pub char_at_or : Char → ℕ → List Char → Char
char_at_or d i [] = d
char_at_or d zero (c ∷ cs) = c
char_at_or d (suc i) (c ∷ cs) = char_at_or d i cs

abbrev pub is_char : ℕ → Char → Bool
is_char n c = nat_beq (code c) n

-- `char::is_whitespace`.
unfoldable pub is_whitespace : Char → Bool
is_whitespace c =
    let n = code c in
    (leb 9 n && leb n 13)
    || nat_beq n 32
    || nat_beq n 0x85
    || nat_beq n 0xa0
    || nat_beq n 0x1680
    || (leb 0x2000 n && leb n 0x200a)
    || nat_beq n 0x2028
    || nat_beq n 0x2029
    || nat_beq n 0x202f
    || nat_beq n 0x205f
    || nat_beq n 0x3000

unfoldable pub trim_start : List Char → List Char
unfolding is_whitespace
trim_start [] = []
trim_start (c ∷ cs) = let rest = trim_start cs in if is_whitespace c then rest else c ∷ cs

unfoldable pub trim : String → String
unfolding trim_start
trim s = from_chars (reverse (trim_start (reverse (trim_start (chars s)))))

-- `split` at one character: the current piece is kept in reverse.
unfoldable pub split_from : ℕ → List Char → List Char → List String
split_from sep cur [] = from_chars (reverse cur) ∷ []
split_from sep cur (c ∷ cs) =
    let closed = from_chars (reverse cur) ∷ split_from sep [] cs in
    let longer = split_from sep (c ∷ cur) cs in if is_char sep c then closed else longer

unfoldable pub split : ℕ → String → List String
unfolding split_from
split sep s = split_from sep [] (chars s)

-- `split("||")`.
unfoldable pub split_bars_from : List Char → List Char → List String
split_bars_from cur [] = from_chars (reverse cur) ∷ []
split_bars_from cur (c ∷ []) = from_chars (reverse (c ∷ cur)) ∷ []
split_bars_from cur (c ∷ d ∷ cs) =
    let closed = from_chars (reverse cur) ∷ split_bars_from [] cs in
    let longer = split_bars_from (c ∷ cur) (d ∷ cs) in
    if is_char b'|' c && is_char b'|' d then closed else longer

unfoldable pub split_bars : String → List String
unfolding split_bars_from
split_bars s = split_bars_from [] (chars s)

abbrev pub is_digit : ℕ → Bool
is_digit n = leb b'0' n && leb n b'9'

unfoldable pub parse_digits : ℕ → List ℕ → Option ℕ
parse_digits acc [] = some acc
parse_digits acc (d ∷ ds) =
    let rest = parse_digits (acc * 10 + (d - b'0')) ds in if is_digit d then rest else none

unfoldable pub parse_nat : List ℕ → Option ℕ
unfolding parse_digits
parse_nat [] = none
parse_nat (d ∷ ds) = parse_digits 0 (d ∷ ds)

abbrev pos_in_range : Option ℕ → Option ℤ
pos_in_range none = none
pos_in_range (some n) = if ltb n (2 ^ 63) then some (pos n) else none

abbrev neg_in_range : Option ℕ → Option ℤ
neg_in_range none = none
neg_in_range (some zero) = some (pos 0)
neg_in_range (some (suc n)) = if ltb n (2 ^ 63) then some (negsuc n) else none

-- `str::parse::<i64>`, an error as `none`.
unfoldable pub parse_i64_codes : List ℕ → Option ℤ
unfolding parse_nat
parse_i64_codes [] = none
parse_i64_codes (c ∷ cs) =
    if nat_beq c b'-'
    then neg_in_range (parse_nat cs)
    else if nat_beq c b'+'
    then pos_in_range (parse_nat cs)
    else pos_in_range (parse_nat (c ∷ cs))

unfoldable pub parse_i64 : String → Option ℤ
unfolding parse_i64_codes
parse_i64 s = parse_i64_codes (codes s)

abbrev pub digit : ℕ → Char
digit d = char_at_or "0" d (chars "0123456789")

unfoldable pub decimal_from : ℕ → ℕ → List Char → List Char
decimal_from zero n acc = acc
decimal_from (suc fuel) n acc =
    let more = decimal_from fuel (n / 10) (digit (n % 10) ∷ acc) in
    if ltb n 10 then digit n ∷ acc else more

-- `to_string` of an unsigned number; `n + 1` rounds are enough for its digits.
unfoldable pub to_string : ℕ → String
unfolding decimal_from
to_string n = from_chars (decimal_from (suc n) n [])

abbrev pub lower : ℕ → ℕ
lower n = if leb b'A' n && leb n b'Z' then n + 32 else n

unfoldable pub eq_ignore_ascii_case : String → String → Bool
eq_ignore_ascii_case s t = list_beq (map lower (codes s)) (map lower (codes t))

abbrev pub is_nonempty : String → Bool
is_nonempty String.[] = false
is_nonempty (String.◌∷◌ c s) = true
