-- ===== src/Handlers/Login/Length.antt =====
-- The length and the alphabet of a session's key.
use Prim.Native.Char.{Char}
use mathlib.Core.List.{reverse}
use zhost.Prelude.{
  ℕ, zero, suc, ◌+◌, ◌^◌, ◌≤◌, ◌<◌, ◌≡◌, refl, inl, inr, true, arith, List, [], ◌∷◌, ◌⊎◌, all,
  length, length-reverse, all-reverse, leb, ltb, if◌then◌else◌, String, Bool-cases, ◌∙◌,
}
use zhost.Prelude.Text.{chars}
use zhost.Prelude.Decimal.{chars-from_chars}
use zhost.Store.Objects.{key_char}
use zhost.Store.Keys.{is_key_char, key_char-IsKeyChar}
use zhost.Handlers.Login.Key.{accept_limit, push_bytes, digest, key_rounds, login_api_key}

-- The bytes of a digest that are not rejected.
abbrev pub accepted : List ℕ → ℕ
accepted [] = 0
accepted (byte ∷ bytes) = if ltb byte accept_limit then suc (accepted bytes) else accepted bytes

abbrev pub KeyPart : List Char → Type 0
KeyPart key = (all is_key_char key ≡ true) × (length key ≤ 24)

push_bytes-KeyPart :
    (bytes : List ℕ) (key : List Char)
    → all is_key_char key ≡ true
    → length key < 24
    → KeyPart (push_bytes bytes key)
unfolding push_bytes
push_bytes-KeyPart [] key valid short = (valid, omega arith)
push_bytes-KeyPart (byte ∷ bytes) key valid short = elim (Bool-cases (ltb byte accept_limit)) [
  | inl taken ↦
      let longer : all is_key_char (key_char byte ∷ key) ≡ true =
        ground (arith, key_char-IsKeyChar byte) in
      elim (Bool-cases (leb 24 (length (key_char byte ∷ key)))) [
        | inl full ↦ rw (taken, full) (longer, ground arith)
        | inr more ↦
            rw (taken, more) (push_bytes-KeyPart bytes (key_char byte ∷ key) longer (ground arith))
      ]
  | inr skipped ↦ elim (Bool-cases (leb 24 (length key))) [
    | inl full ↦ absurd (ground arith)
    | inr more ↦ rw (skipped, more) (push_bytes-KeyPart bytes key valid short)
  ]
]

-- A digest gives all the characters that are missing, or as many as it has accepted bytes.
push_bytes-length :
    (bytes : List ℕ) (key : List Char)
    → length key < 24
    → (length (push_bytes bytes key) ≡ 24)
      ⊎ (length (push_bytes bytes key) ≡ length key + accepted bytes)
unfolding push_bytes
push_bytes-length [] key short = inr (omega arith)
push_bytes-length (byte ∷ bytes) key short = elim (Bool-cases (ltb byte accept_limit)) [
  | inl taken ↦ elim (Bool-cases (leb 24 (length (key_char byte ∷ key)))) [
    | inl full ↦ rw (taken, full) (inl (ground arith))
    | inr more ↦ rw (taken, more) (ground (arith, push_bytes-length bytes (key_char byte ∷ key)))
  ]
  | inr skipped ↦ elim (Bool-cases (leb 24 (length key))) [
    | inl full ↦ absurd (ground arith)
    | inr more ↦ rw (skipped, more) (push_bytes-length bytes key short)
  ]
]

module _ (hmac : String → String → List ℕ → List ℕ) (session_token : String) where
  -- The accepted bytes of the digests of `n` counters.
  abbrev pub available : ℕ → ℕ → ℕ
  available zero counter = 0
  available (suc n) counter =
      accepted (digest hmac session_token counter) + available n (counter + 1)

  key_rounds-KeyPart :
      (fuel counter : ℕ) (key : List Char)
      → KeyPart key
      → KeyPart (key_rounds hmac session_token fuel counter key)
  unfolding key_rounds
  key_rounds-KeyPart zero counter key part = part
  key_rounds-KeyPart (suc fuel) counter key part = elim (Bool-cases (ltb (length key) 24)) [
    | inl short ↦
        let longer =
          push_bytes-KeyPart (digest hmac session_token counter) key part.0 (ground arith) in
        rw (key_rounds, short)
          (key_rounds-KeyPart fuel (counter + 1)
            (push_bytes (digest hmac session_token counter) key) longer)
    | inr full ↦ rw (key_rounds, full) part
  ]

  -- Rounds with enough accepted bytes are enough.
  key_rounds-length :
      (n fuel counter : ℕ) (key : List Char)
      → n ≤ fuel
      → KeyPart key
      → 24 ≤ length key + available n counter
      → length (key_rounds hmac session_token fuel counter key) ≡ 24
  unfolding key_rounds
  key_rounds-length n zero counter key below part enough =
      let nothing : n ≡ 0 = omega arith in ground (arith, nothing)
  key_rounds-length zero (suc fuel) counter key below part enough =
      elim (Bool-cases (ltb (length key) 24)) [
        | inl short ↦ absurd (ground arith)
        | inr full ↦ rw (key_rounds, full) (ground arith)
      ]
  key_rounds-length (suc n) (suc fuel) counter key below part enough =
      elim (Bool-cases (ltb (length key) 24)) [
        | inl short ↦
            let bytes = digest hmac session_token counter in
            let longer = push_bytes-KeyPart bytes key part.0 (ground arith) in
            rw (key_rounds, short)
              (key_rounds-length n fuel (counter + 1) (push_bytes bytes key) (omega arith) longer
                (ground (arith, push_bytes-length bytes key)))
        | inr full ↦ rw (key_rounds, full) (ground arith)
      ]

-- If the digests of the first counters contain 24 bytes that are not rejected, the key of a session
-- has 24 characters, all of the alphabet of keys.
pub login_api_key-KeyPart :
    (hmac : String → String → List ℕ → List ℕ) (session_token : String) (n : ℕ)
    → n ≤ 2 ^ 32
    → 24 ≤ available hmac session_token n 0
    → (length (chars (login_api_key hmac session_token)) ≡ 24)
      × (all is_key_char (chars (login_api_key hmac session_token)) ≡ true)
unfolding login_api_key
login_api_key-KeyPart hmac session_token n below enough =
    let key = key_rounds hmac session_token (2 ^ 32) 0 [] in
    let part = key_rounds-KeyPart hmac session_token (2 ^ 32) 0 [] (refl, omega arith) in
    let size =
      key_rounds-length hmac session_token n (2 ^ 32) 0 [] below (refl, omega arith)
        (omega arith) in
    rw (chars-from_chars (reverse key))
      (length-reverse key ∙ size, all-reverse is_key_char key ∙ part.0)
