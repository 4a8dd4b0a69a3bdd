-- ===== src/Prelude/Decimal.antt =====
-- Printing a number and parsing it gives the number.
use Prim.Native.Char.{Char, code}
use Prim.Native.String.{String}
use Prim.Native.Nat.{ℕ, zero, suc, ◌+◌, ◌-◌, ◌*◌, ◌/◌, ◌%◌, ◌^◌, ◌<◌}
use mathlib.Core.Path.{◌≡◌, refl, sym, ◌∙◌}
use mathlib.Core.Logic.{◌≢◌, inl, inr}
use mathlib.Core.Bool.{true, false}
use mathlib.Core.Option.{none, some}
use mathlib.Core.List.{List, [], ◌∷◌, map}
use native.Mathlib.Omega.{arith}
use package.zhost.Prelude.Tests.{ltb, if◌then◌else◌, Bool-cases}
use package.zhost.Prelude.Equality.{nat_beq}
use package.zhost.Prelude.Int.{ℤ, pos, negsuc, ◌≤ℤ◌, i64_max}
use package.zhost.Prelude.Text.{
  chars, from_chars, codes, digit, is_digit, decimal_from, to_string, parse_digits, parse_nat,
  parse_i64, parse_i64_codes,
}
use package.zhost.Prelude.Format.{int_to_string}

pub chars-from_chars : (cs : List Char) → chars (from_chars cs) ≡ cs
chars-from_chars [] = refl
chars-from_chars (c ∷ cs) = cc (chars-from_chars cs)

code-digit : (d : ℕ) → d < 10 → code (digit d) ≡ 48 + d
code-digit zero h = refl
code-digit (suc zero) h = refl
code-digit (suc (suc zero)) h = refl
code-digit (suc (suc (suc zero))) h = refl
code-digit (suc (suc (suc (suc zero)))) h = refl
code-digit (suc (suc (suc (suc (suc zero))))) h = refl
code-digit (suc (suc (suc (suc (suc (suc zero)))))) h = refl
code-digit (suc (suc (suc (suc (suc (suc (suc zero))))))) h = refl
code-digit (suc (suc (suc (suc (suc (suc (suc (suc zero)))))))) h = refl
code-digit (suc (suc (suc (suc (suc (suc (suc (suc (suc zero))))))))) h = refl
code-digit (suc (suc (suc (suc (suc (suc (suc (suc (suc (suc n)))))))))) h = absurd (omega arith)

parse_digits-cons :
    (acc c : ℕ) (ds : List ℕ)
    → parse_digits acc (c ∷ ds)
      ≡ (if is_digit c then parse_digits (acc * 10 + (c - 48)) ds else none)
unfolding parse_digits
parse_digits-cons acc c ds = refl

is_digit-digit : (d : ℕ) → d < 10 → is_digit (48 + d) ≡ true
is_digit-digit d h = ground arith

parse_digits-digit :
    (acc d : ℕ) (ds : List ℕ)
    → d < 10
    → parse_digits acc (code (digit d) ∷ ds) ≡ parse_digits (acc * 10 + d) ds
parse_digits-digit acc d ds h =
    let same : 48 + d - 48 ≡ d = omega arith in
    rw (code-digit d h, parse_digits-cons, is_digit-digit d h, same) refl

-- Enough fuel prints every digit.
parse_digits-decimal_from :
    (fuel n : ℕ) (acc : List Char)
    → n < fuel
    → parse_digits 0 (map code (decimal_from fuel n acc)) ≡ parse_digits n (map code acc)
unfolding decimal_from
parse_digits-decimal_from zero n acc h = absurd (omega arith)
parse_digits-decimal_from (suc fuel) n acc h = elim (Bool-cases (ltb n 10)) [
  | inl small ↦
      let same : 0 * 10 + n ≡ n = omega arith in
      rw (small, parse_digits-digit 0 n (map code acc) (ground arith), same) refl
  | inr large ↦
      let same : n / 10 * 10 + n % 10 ≡ n = omega arith in
      rw
        (
          large,
          parse_digits-decimal_from fuel (n / 10) (digit (n % 10) ∷ acc) (ground arith),
          parse_digits-digit (n / 10) (n % 10) (map code acc) (omega arith),
          same,
        )
        refl
]

parse_digits-to_string : (n : ℕ) → parse_digits 0 (codes (to_string n)) ≡ some n
unfolding to_string parse_digits
parse_digits-to_string n =
    rw (chars-from_chars (decimal_from (suc n) n []))
      (parse_digits-decimal_from (suc n) n [] (omega arith))

is_digit-plain : (c : ℕ) → is_digit c ≡ true → (nat_beq c b'-' ≡ false) × (nat_beq c b'+' ≡ false)
is_digit-plain c h = (ground arith, ground arith)

-- A text of digits is not empty, and its first character is no sign.
parse_i64_codes-digits :
    (cs : List ℕ) (n : ℕ)
    → parse_digits 0 cs ≡ some n
    → cs ≢ []
    → n < 2 ^ 63
    → parse_i64_codes cs ≡ some (pos n)
unfolding parse_i64_codes parse_nat
parse_i64_codes-digits [] n h full small = absurd (full refl)
parse_i64_codes-digits (c ∷ ds) n h full small = elim (Bool-cases (is_digit c)) [
  | inl d ↦ let (minus, plus) = is_digit-plain c d in rw (minus, plus, h) (ground arith)
  | inr other ↦
      let bad : none ≡ some n = sym (rw (parse_digits-cons, other) refl) ∙ h in absurd (cc bad)
]

decimal_from-nonempty : (fuel n : ℕ) (acc : List Char) → n < fuel → decimal_from fuel n acc ≢ []
unfolding decimal_from
decimal_from-nonempty zero n acc h = absurd (omega arith)
decimal_from-nonempty (suc fuel) n acc h = elim (Bool-cases (ltb n 10)) [
  | inl small ↦ rw small (λ e. absurd (cc e))
  | inr large ↦ rw large (decimal_from-nonempty fuel (n / 10) (digit (n % 10) ∷ acc) (ground arith))
]

map-nonempty : (cs : List Char) → cs ≢ [] → map code cs ≢ []
map-nonempty [] h = absurd (h refl)
map-nonempty (c ∷ cs) h = λ e. absurd (cc e)

to_string-nonempty : (n : ℕ) → codes (to_string n) ≢ []
unfolding to_string
to_string-nonempty n =
    rw (chars-from_chars (decimal_from (suc n) n []))
      (map-nonempty _ (decimal_from-nonempty (suc n) n [] (omega arith)))

parse_nat-full : (cs : List ℕ) → cs ≢ [] → parse_nat cs ≡ parse_digits 0 cs
unfolding parse_nat
parse_nat-full [] full = absurd (full refl)
parse_nat-full (c ∷ cs) full = refl

parse_nat-to_string : (n : ℕ) → parse_nat (codes (to_string n)) ≡ some n
parse_nat-to_string n =
    parse_nat-full (codes (to_string n)) (to_string-nonempty n) ∙ parse_digits-to_string n

parse_i64-to_string : (n : ℕ) → n < 2 ^ 63 → parse_i64 (to_string n) ≡ some (pos n)
unfolding parse_i64
parse_i64-to_string n small =
    parse_i64_codes-digits (codes (to_string n)) n (parse_digits-to_string n) (to_string-nonempty n)
      small

parse_i64-negated :
    (n : ℕ) → n < 2 ^ 63 → parse_i64 (String.◌∷◌ "-" (to_string (suc n))) ≡ some (negsuc n)
unfolding parse_i64 parse_i64_codes
parse_i64-negated n small = rw (parse_nat-to_string (suc n)) (ground arith)

-- Every number of the type comes back from its text.
pub parse_i64-int_to_string :
    (a : ℤ) → negsuc (2 ^ 63 - 1) ≤ℤ a → a ≤ℤ i64_max → parse_i64 (int_to_string a) ≡ some a
unfolding int_to_string
parse_i64-int_to_string (pos n) low high = parse_i64-to_string n (ground arith)
parse_i64-int_to_string (negsuc n) low high = parse_i64-negated n (ground arith)
