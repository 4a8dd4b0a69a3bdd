-- ===== src/Handlers/Login/Key.antt =====
-- xotero/src/handlers/login.rs: `login_api_key`. `hmac` is HMAC-SHA256 of the hmac crate under the
-- key derivation secret, of two texts and some bytes, one after the other.
use Prim.Native.Char.{Char}
use zhost.Prelude.{
  ℕ, ◌+◌, ◌/◌, ◌%◌, ◌^◌, zero, suc, String, true, false, if◌then◌else◌, List, [], ◌∷◌, length, leb,
  ltb,
}
use mathlib.Core.List.{reverse}
use zhost.Prelude.Text.{from_chars}
use zhost.Store.Objects.{key_char}

-- `u32::to_be_bytes`.
abbrev pub to_be_bytes : ℕ → List ℕ
to_be_bytes n = n / 2 ^ 24 % 256 ∷ n / 2 ^ 16 % 256 ∷ n / 2 ^ 8 % 256 ∷ n % 256 ∷ []

abbrev pub accept_limit : ℕ
accept_limit = 231

-- The bytes of one digest, until the key has its 24 characters; `key` is in reverse.
unfoldable pub push_bytes : List ℕ → List Char → List Char
push_bytes [] key = key
push_bytes (byte ∷ bytes) key =
    let longer = if ltb byte accept_limit then key_char byte ∷ key else key in
    let rest = push_bytes bytes longer in if leb 24 (length longer) then longer else rest

module _ (hmac : String → String → List ℕ → List ℕ) (session_token : String) where
  abbrev pub digest : ℕ → List ℕ
  digest counter = hmac "xotero login api key\0" session_token (to_be_bytes counter)

  -- `while key.len() < 24`, with fuel for the counters that are left.
  unfoldable pub key_rounds : ℕ → ℕ → List Char → List Char
  key_rounds zero counter key = key
  key_rounds (suc fuel) counter key = elim (ltb (length key) 24) [
    | true ↦ key_rounds fuel (counter + 1) (push_bytes (digest counter) key)
    | false ↦ key
  ]

  -- The counter is a `u32`.
  unfoldable pub login_api_key : String
  unfolding key_rounds push_bytes
  login_api_key = from_chars (reverse (key_rounds (2 ^ 32) 0 []))
