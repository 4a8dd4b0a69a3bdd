-- ===== src/Prelude/Format.antt =====
-- The parts of `format!`, `join` and `ToString` that the server uses.
use Prim.Native.Char.{Char}
use Prim.Native.String.{String}
use Prim.Native.Nat.{ℕ, suc}
use mathlib.Core.Bool.{Bool, true, false, ◌&&◌, ◌||◌}
use mathlib.Core.List.{List, [], ◌∷◌, ◌++◌, map, reverse}
use package.zhost.Prelude.Tests.{if◌then◌else◌}
use package.zhost.Prelude.Equality.{nat_beq}
use package.zhost.Prelude.Int.{ℤ, pos, negsuc}
use package.zhost.Prelude.Text.{chars, from_chars, codes, to_string, is_char, lower}

-- The pieces of a `format!`, one after the other.
abbrev pub concat_chars : List String → List Char
concat_chars [] = []
concat_chars (s ∷ ss) = chars s ++ concat_chars ss

unfoldable pub concat : List String → String
concat ss = from_chars (concat_chars ss)

-- `i64::to_string`.
unfoldable pub int_to_string : ℤ → String
int_to_string (pos n) = to_string n
int_to_string (negsuc n) = String.◌∷◌ "-" (to_string (suc n))

abbrev pub intersperse : String → List String → List String
intersperse sep [] = []
intersperse sep (s ∷ []) = s ∷ []
intersperse sep (s ∷ t ∷ ss) = s ∷ sep ∷ intersperse sep (t ∷ ss)

-- `join`.
unfoldable pub join : String → List String → String
unfolding concat
join sep ss = concat (intersperse sep ss)

abbrev pub starts_with : List ℕ → List ℕ → Bool
starts_with [] cs = true
starts_with (p ∷ ps) [] = false
starts_with (p ∷ ps) (c ∷ cs) = nat_beq p c && starts_with ps cs

-- `str::contains` of a text.
abbrev pub contains_codes : List ℕ → List ℕ → Bool
contains_codes p [] = starts_with p []
contains_codes p (c ∷ cs) = starts_with p (c ∷ cs) || contains_codes p cs

abbrev pub drop_char : ℕ → List Char → List Char
drop_char n [] = []
drop_char n (c ∷ cs) = if is_char n c then drop_char n cs else c ∷ cs

-- `trim_end_matches` of one character.
unfoldable pub trim_end_matches : ℕ → String → String
trim_end_matches n s = from_chars (reverse (drop_char n (reverse (chars s))))

-- `to_ascii_lowercase`, as the codes of the text.
abbrev pub lowercase : String → List ℕ
lowercase s = map lower (codes s)
