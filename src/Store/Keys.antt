-- ===== src/Store/Keys.antt =====
-- Keys that the server draws, against those that it accepts.
use Prim.Native.Char.{Char, code, len_utf8}
use Prim.Native.String.{len}
use Prim.Native.String
use mathlib.Core.List.{map}
use zhost.Prelude.{
  ℕ, zero, suc, ◌%◌, ◌≡◌, refl, ◌∙◌, Bool, true, some, arith, List, [], ◌∷◌, any, all, length,
  nat_beq, nat_beq_iff,
}
use zhost.Prelude.Text.{from_chars, char_at_or}
use zhost.Prelude.Decimal.{chars-from_chars}
use zhost.Store.Objects.{alphabet, key_char, generate_key}
use zhost.Http.Validation.{object_alphabet, valid_object_key}

char_at_or-all :
    (p : Char → Bool) (d : Char) (i : ℕ) (cs : List Char)
    → p d ≡ true
    → all p cs ≡ true
    → p (char_at_or d i cs) ≡ true
char_at_or-all p d i [] default each = default
char_at_or-all p d zero (c ∷ cs) default each = ground arith
char_at_or-all p d (suc i) (c ∷ cs) default each = char_at_or-all p d i cs default (ground arith)

abbrev pub is_key_char : Char → Bool
is_key_char c = any (λ a. nat_beq a (code c)) object_alphabet

pub key_char-IsKeyChar : (b : ℕ) → is_key_char (key_char b) ≡ true
key_char-IsKeyChar b = char_at_or-all is_key_char "2" (b % 33) alphabet refl refl

one_byte : (b : ℕ) → len_utf8 (key_char b) ≡ 1
one_byte b =
    (nat_beq_iff (len_utf8 (key_char b)) 1).0
      (char_at_or-all (λ c. nat_beq (len_utf8 c) 1) "2" (b % 33) alphabet refl refl)

drawn : (bytes : List ℕ) → all is_key_char (map key_char bytes) ≡ true
drawn [] = refl
drawn (b ∷ bytes) = ground (arith, key_char-IsKeyChar b, drawn bytes)

all-codes :
    (cs : List Char)
    → all (λ b. any (λ a. nat_beq a b) object_alphabet) (map code cs) ≡ all is_key_char cs
all-codes [] = refl
all-codes (c ∷ cs) = rw (all-codes cs) refl

len-drawn : (bytes : List ℕ) → len (from_chars (map key_char bytes)) ≡ length bytes
len-drawn [] = refl
len-drawn (b ∷ bytes) =
    String.len.cons (key_char b) (from_chars (map key_char bytes))
    ∙ rw (one_byte b, len-drawn bytes) (omega arith)

-- A key that is drawn from eight random bytes is a valid object key.
pub generate_key-IsValid :
    (bytes : List ℕ) → length bytes ≡ 8 → valid_object_key (generate_key (some bytes)) ≡ true
unfolding generate_key valid_object_key
generate_key-IsValid bytes eight =
    rw
      (
        len-drawn bytes,
        eight,
        chars-from_chars (map key_char bytes),
        all-codes (map key_char bytes),
        drawn bytes,
      )
      refl
