-- ===== src/Config/Roles.antt =====
-- The roles of the recovery keys.
use zhost.Prelude.{
  ◌≡◌, inl, inr, refl, ◌∙◌, String, Bool, true, false, not, ◌==◌, Option, some, none, arith, List,
  [], ◌∷◌, any, length, string_eq, list_eq, nat_eq, Bool-cases, eq_cases, is_some_and,
}
use zhost.Prelude.Table.{Table, lookup, upsert, lookup-upsert_self, lookup-upsert_ne}
use zhost.Prelude.Text.{split, trim, is_nonempty}
use text.Mathlib.TextEquality.{eq_iff}
use zhost.Domain.{Permissions, recovery}
use zhost.Db.{Digest}
use zhost.Config.{key_permissions}
use zhost.Config.Load.{
  Loaded, refused, loaded, then_load, or_refuse, permissions_beq, role_write, split_once,
  read_token, insert_key, insert_entry, insert_entries, load_keys_from,
}

permissions_beq-eq : (a b : Permissions) → permissions_beq a b ≡ true → a ≡ b
permissions_beq-eq a b h = ground arith

then_load-eq {ℓ κ} :
    {A : Type ℓ} {B : Type κ} {b : B} (l : Loaded A) (next : A → Loaded B)
    → then_load l next ≡ loaded b
    → (a : A) × (l ≡ loaded a) × (next a ≡ loaded b)
then_load-eq (refused why) next h = cc
then_load-eq (loaded a) next h = (a, refl, h)

or_refuse-eq {ℓ} :
    {A : Type ℓ} {a : A} (why : String) (o : Option A) → or_refuse why o ≡ loaded a → o ≡ some a
or_refuse-eq why none h = cc
or_refuse-eq why (some x) h = cc

-- What one entry of the manifest gives.
abbrev pub Gives :
    (String → Digest) → (String → Option String) → String → Table Digest Permissions → Type 0
Gives sha256 read entry keys =
    (role path token : String) × (write : Bool) × (split_once b':' entry ≡ some (role, path))
    × (role_write role ≡ some write)
    × (read_token sha256 read path ≡ loaded token)
    × (lookup (sha256 token) keys ≡ some (recovery write))

module _ (sha256 : String → Digest) (read : String → Option String)
    (sized : (s : String) → length (sha256 s) ≡ 32) where
  -- The table has the new key with its role, and every other key as before.
  abbrev Extends : Table Digest Permissions → Table Digest Permissions → Type 0
  Extends keys keys' =
      (d : Digest) (p : Permissions) → lookup d keys ≡ some p → lookup d keys' ≡ some p

  known :
      (keys : Table Digest Permissions) (s : String)
      → key_permissions keys (sha256 s) ≡ lookup (sha256 s) keys
  unfolding key_permissions
  known keys s = rw (sized s) refl

  upsert-Extends :
      (token : String) (write : Bool) (keys : Table Digest Permissions)
      → is_some_and
          (λ existing. not (permissions_beq existing (recovery write)))
          (key_permissions keys (sha256 token))
        ≡ false
      → Extends keys (upsert (sha256 token) (recovery write) keys)
  upsert-Extends token write keys agrees d p there = elim (eq_cases (sha256 token) d) [
    | inr other ↦ lookup-upsert_ne (sha256 token) d (recovery write) keys other ∙ there
    | inl same ↦
        let found : key_permissions keys (sha256 token) ≡ some p =
          known keys token ∙ rw same there in
        let equal : permissions_beq p (recovery write) ≡ true = ground (arith) in
        let one : p ≡ recovery write = permissions_beq-eq p (recovery write) equal in
        rw (← same, one) (lookup-upsert_self (sha256 token) (recovery write) keys)
  ]

  loaded-eq :
      {a b : Table Digest Permissions}
      → ◌≡◌ {A = Loaded (Table Digest Permissions)} (loaded a) (loaded b)
      → a ≡ b
  loaded-eq h = cc

  insert_key-Extends :
      (token : String) (write : Bool) (keys keys' : Table Digest Permissions)
      → insert_key sha256 read token write keys ≡ loaded keys'
      → (lookup (sha256 token) keys' ≡ some (recovery write)) × Extends keys keys'
  unfolding insert_key
  insert_key-Extends token write keys keys' h = elim (Bool-cases (is_nonempty (trim token))) [
    | inr blank ↦ absurd (ground arith)
    | inl full ↦
        elim (Bool-cases (
          is_some_and (λ existing. not (permissions_beq existing (recovery write)))
            (key_permissions keys (sha256 token)))) [
              | inl conflicts ↦ absurd (ground arith)
              | inr agrees ↦
                  let q : upsert (sha256 token) (recovery write) keys ≡ keys' = ground arith in
                  rw (← q) (
                    lookup-upsert_self (sha256 token) (recovery write) keys,
                    upsert-Extends token write keys agrees,
                  )
            ]
  ]

  insert_entry-Extends :
      (entry : String) (keys keys' : Table Digest Permissions)
      → insert_entry sha256 read entry keys ≡ loaded keys'
      → Gives sha256 read entry keys' × Extends keys keys'
  unfolding insert_entry
  insert_entry-Extends entry keys keys' h =
      let (parts, split, h1) = then_load-eq (or_refuse _ (split_once b':' entry)) _ h in
      let (write, role, h2) = then_load-eq (or_refuse _ (role_write parts.0)) _ h1 in
      let (token, tok, h3) = then_load-eq (read_token sha256 read parts.1) _ h2 in
      let (given, extends) = insert_key-Extends token write keys keys' h3 in
      let gives : Gives sha256 read entry keys' = (
        parts.0,
        parts.1,
        token,
        write,
        or_refuse-eq _ (split_once b':' entry) split,
        or_refuse-eq _ (role_write parts.0) role,
        tok,
        given,
      ) in
      (gives, extends)

  insert_entries-Extends :
      (entries : List String) (keys keys' : Table Digest Permissions)
      → insert_entries sha256 read entries keys ≡ loaded keys'
      → ((entry : String) → any (λ e. e == entry) entries ≡ true → Gives sha256 read entry keys')
        × Extends keys keys'
  unfolding insert_entries
  insert_entries-Extends [] keys keys' h =
      let q : keys ≡ keys' = loaded-eq h in
      (λ entry listed. absurd (ground arith), λ d p there. rw (← q) there)
  insert_entries-Extends (first ∷ entries) keys keys' h =
      let (more, one, rest) = then_load-eq (insert_entry sha256 read first keys) _ h in
      let (gives, extends) = insert_entry-Extends first keys more one in
      let (each, extends') = insert_entries-Extends entries more keys' rest in
      let (role, path, token, write, split, is, tok, given) = gives in
      let kept : Gives sha256 read first keys' =
        (role, path, token, write, split, is, tok, extends' _ _ given) in
      (
        λ entry listed. elim (Bool-cases (first == entry)) [
          | inl same ↦ rw (← (eq_iff first entry).0 same) kept
          | inr other ↦ each entry (ground arith)
        ],
        λ d p there. extends' d p (extends d p there),
      )

-- If a manifest is loaded, every one of its entries has one of the two roles and names a file of one
-- token, and that token's key has exactly the permissions of the role, wherever else the token is
-- named: a token with two roles is refused. Digests have 32 bytes.
pub load_keys_from-Gives :
    (sha256 : String → Digest) (read : String → Option String)
    (env : String → Option (Option String)) (manifest entry : String)
    (keys : Table Digest Permissions)
    → ((s : String) → length (sha256 s) ≡ 32)
    → env "XOTERO_KEYS" ≡ some (some manifest)
    → load_keys_from sha256 read env ≡ loaded keys
    → any (λ e. e == entry) (split b',' manifest) ≡ true
    → Gives sha256 read entry keys
unfolding load_keys_from
load_keys_from-Gives sha256 read env manifest entry keys sized set h listed =
    let run : load_keys_from sha256 read env ≡ insert_entries sha256 read (split b',' manifest) [] =
      rw (load_keys_from, set) refl in
    (insert_entries-Extends sha256 read sized (split b',' manifest) [] keys (rw (← run) h)).0 entry
      listed
