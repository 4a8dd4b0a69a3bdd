-- ===== src/Store/Escaped.antt =====
-- What the pattern of a search term matches.
use Prim.Native.Char.{Char, code}
use mathlib.Core.List.{map}
use zhost.Prelude.{
  ◌≡◌, inl, inr, refl, String, false, ◌||◌, Option, some, none, List, [], ◌∷◌, if◌then◌else◌,
  and_then, Bool-cases, nat_beq_iff,
}
use zhost.Prelude.Text.{chars, is_char}
use zhost.Prelude.Decimal.{chars-from_chars}
use zhost.Store.Queries.{replace_char, escape_like}

-- What a pattern of PostgreSQL's `like … escape '\'` matches, if it has no wildcard and no escape
-- character at its end: a character behind the escape character stands for itself.
abbrev pub literal_of : List Char → Option (List Char)
literal_of [] = some []
literal_of (c ∷ []) =
    if is_char b'\\' c || is_char b'%' c || is_char b'_' c then none else some (c ∷ [])
literal_of (c ∷ d ∷ cs) =
    let escaped = literal_of cs in
    let plain = literal_of (d ∷ cs) in
    if is_char b'\\' c
    then and_then escaped (λ rest. some (d ∷ rest))
    else if is_char b'%' c || is_char b'_' c
    then none
    else and_then plain (λ rest. some (c ∷ rest))

abbrev escaped : List Char → List Char
escaped cs =
    replace_char b'_' ("\\" ∷ "_" ∷ [])
      (replace_char b'%' ("\\" ∷ "%" ∷ []) (replace_char b'\\' ("\\" ∷ "\\" ∷ []) cs))

-- The three replacements as one, character by character.
abbrev escape_char : Char → List Char → List Char
escape_char c rest =
    if is_char b'\\' c
    then "\\" ∷ "\\" ∷ rest
    else if is_char b'%' c
    then "\\" ∷ "%" ∷ rest
    else if is_char b'_' c
    then "\\" ∷ "_" ∷ rest
    else c ∷ rest

escaped-cons : (c : Char) (cs : List Char) → escaped (c ∷ cs) ≡ escape_char c (escaped cs)
unfolding replace_char
escaped-cons c cs = elim (Bool-cases (is_char b'\\' c)) [
  | inl slash ↦ rw slash refl
  | inr other ↦ elim (Bool-cases (is_char b'%' c)) [
    | inl percent ↦ rw (other, percent) refl
    | inr plain ↦ elim (Bool-cases (is_char b'_' c)) [
      | inl line ↦ rw (other, plain, line) refl
      | inr free ↦ rw (other, plain, free) refl
    ]
  ]
]

literal_of-plain :
    (c : Char) (rest ds : List Char)
    → is_char b'\\' c ≡ false
    → is_char b'%' c ≡ false
    → is_char b'_' c ≡ false
    → literal_of rest ≡ some ds
    → literal_of (c ∷ rest) ≡ some (c ∷ ds)
literal_of-plain c [] ds slash percent line h =
    let q : [] ≡ ds = cc in rw (slash, percent, line, ← q) refl
literal_of-plain c (d ∷ rest) ds slash percent line h = rw (slash, percent, line, h) refl

-- The term, up to the spelling of characters with one code.
abbrev pub Matches : List Char → List Char → Type 0
Matches pattern cs = (ds : List Char) × (literal_of pattern ≡ some ds) × (map code ds ≡ map code cs)

escaped-Matches : (cs : List Char) → Matches (escaped cs) cs
unfolding replace_char
escaped-Matches [] = ([], refl, refl)
escaped-Matches (c ∷ cs) =
    let (ds, literal, same) = escaped-Matches cs in
    rw (escaped-cons c cs) (elim (Bool-cases (is_char b'\\' c)) [
      | inl slash ↦
          rw slash
            ("\\" ∷ ds, rw literal refl, rw (same, (nat_beq_iff (code c) b'\\').0 slash) refl)
      | inr other ↦ elim (Bool-cases (is_char b'%' c)) [
        | inl percent ↦
            rw (other, percent)
              ("%" ∷ ds, rw literal refl, rw (same, (nat_beq_iff (code c) b'%').0 percent) refl)
        | inr plain ↦ elim (Bool-cases (is_char b'_' c)) [
          | inl line ↦
              rw (other, plain, line)
                ("_" ∷ ds, rw literal refl, rw (same, (nat_beq_iff (code c) b'_').0 line) refl)
          | inr free ↦
              rw (other, plain, free)
                (c ∷ ds, literal_of-plain c (escaped cs) ds other plain free literal, rw same refl)
        ]
      ]
    ])

-- The pattern that a search term is escaped to has no wildcard, and stands for the characters of the
-- term, one after the other.
pub escape_like-Matches : (term : String) → Matches (chars (escape_like term)) (chars term)
unfolding escape_like
escape_like-Matches term =
    rw (chars-from_chars (escaped (chars term))) (escaped-Matches (chars term))
