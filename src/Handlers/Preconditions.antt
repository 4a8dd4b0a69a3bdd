-- ===== src/Handlers/Preconditions.antt =====
-- The version that a request expects, and what a refused request leaves.
use zhost.Prelude.{
  ℕ, ◌≡◌, ◌≢◌, ◌⊎◌, inl, inr, refl, Option, none, some, arith, List, [], ◌∷◌, String, Option-cases,
}
use zhost.Prelude.Int.{ℤ}
use zhost.Prelude.Format.{concat}
use zhost.Json.{Value, Fields}
use zhost.Domain.{LibraryAccess}
use zhost.Db.{Db, Result, ok, err}
use zhost.Store.{current_version}
use zhost.Store.Objects.{Supplies, ObjectMutation, done, conflict, file_write_denied, delete_keys}
use zhost.Store.Objects
use zhost.Store.Answers.{Answered, write-Answered, delete_keys-Answered}
use zhost.Http.Headers.{
  HeaderMap, Form, Response, if_unmodified, precondition, version_headers, ResponseBody, empty,
  text, csv_of,
}
use zhost.Http.Headers
use zhost.Handlers.Objects.{
  find_bad_key, answer_write, answer_delete, key_param, write_batch, write, delete,
  allows_stored_file_write,
}

-- The library had the version that the header names, and the answer carries the one that it has.
abbrev pub Advanced : Db → LibraryAccess → HeaderMap → Db × Response → Type 0
Advanced db access headers (db', response) =
    (e : ℤ) × (v : ℤ) × (if_unmodified headers ≡ some e)
    × (current_version db access.library_id ≡ ok e)
    × (current_version db' access.library_id ≡ ok v)
    × (response.headers ≡ version_headers v)

-- The write is carried out: its body is a batch of objects whose keys are valid.
abbrev pub Written :
    (List ℕ → Option (List Value))
    → Db
    → LibraryAccess
    → HeaderMap
    → List ℕ
    → Db × Response
    → Type 0
Written from_slice db access headers body answer =
    (answer.1.status ≡ 200)
    × ((batch : List Value) × (from_slice body ≡ some batch) × (find_bad_key batch ≡ none))
    × Advanced db access headers answer

-- Another answer, and nothing is changed.
abbrev pub Refused : ℕ → Db → Db × Response → Type 0
Refused success db (db', response) = (response.status ≢ success) × (db' ≡ db)

module _ (db : Db) (access : LibraryAccess) (headers : HeaderMap) (e : ℤ)
    (given : if_unmodified headers ≡ some e) where
  answer_write-Advanced :
      (r : Result (Db × ObjectMutation (ℤ × Fields)))
      → ((tx : Db) (out : ObjectMutation (ℤ × Fields))
          → r ≡ ok (tx, out)
          → Answered (λ a. a.0) db access.library_id e tx out)
      → (((answer_write db r).1.status ≡ 200) × Advanced db access headers (answer_write db r))
        ⊎ Refused 200 db (answer_write db r)
  unfolding answer_write Headers.conflict
  answer_write-Advanced (err problem) answered = inr (λ h. absurd (omega arith), refl)
  answer_write-Advanced (ok (tx, done (version, successful))) answered =
      let (before, after) = answered tx (done (version, successful)) refl in
      inl (refl, (e, version, given, before, after, refl))
  answer_write-Advanced (ok (tx, conflict current)) answered =
      let (same, found, old) = answered tx (conflict current) refl in
      inr (λ h. absurd (omega arith), same)
  answer_write-Advanced (ok (tx, file_write_denied)) answered =
      inr (λ h. absurd (omega arith), answered tx file_write_denied refl)

  answer_delete-Advanced :
      (r : Result (Db × ObjectMutation ℤ))
      → ((tx : Db) (out : ObjectMutation ℤ)
          → r ≡ ok (tx, out)
          → Answered (λ v. v) db access.library_id e tx out)
      → (((answer_delete db r).1.status ≡ 204) × Advanced db access headers (answer_delete db r))
        ⊎ Refused 204 db (answer_delete db r)
  unfolding answer_delete Headers.conflict
  answer_delete-Advanced (err problem) answered = inr (λ h. absurd (omega arith), refl)
  answer_delete-Advanced (ok (tx, done version)) answered =
      let (before, after) = answered tx (done version) refl in
      inl (refl, (e, version, given, before, after, refl))
  answer_delete-Advanced (ok (tx, conflict current)) answered =
      let (same, found, old) = answered tx (conflict current) refl in
      inr (λ h. absurd (omega arith), same)
  answer_delete-Advanced (ok (tx, file_write_denied)) answered =
      inr (λ h. absurd (omega arith), answered tx file_write_denied refl)

-- The error paths before the store is called.
refused :
    (success status : ℕ) (db : Db) (answer : Db × Response) (words : ResponseBody)
    → answer ≡ (db, record { status = status; headers = []; body = words })
    → status ≢ success
    → Refused success db answer
refused success status db answer words q other = rw q (other, refl)

abbrev unconditional : String
unconditional = "If-Unmodified-Since-Version required"

-- A write of objects that is answered 200 had a body of objects with valid keys, expected in its
-- header the version that the library had, and is answered with the version that the library has
-- now. With any other answer nothing is changed.
pub write-Written :
    (from_slice : List ℕ → Option (List Value)) (supplies : Supplies) (db : Db)
    (access : LibraryAccess) (kind : String) (headers : HeaderMap) (body : List ℕ)
    → Written from_slice db access headers body
        (write from_slice supplies db access kind headers body)
      ⊎ Refused 200 db (write from_slice supplies db access kind headers body)
unfolding write write_batch precondition
write-Written from_slice supplies db access kind headers body =
    elim (Option-cases (from_slice body)) [
      | inl broken ↦ inr (
          refused 200 400 db (write from_slice supplies db access kind headers body) empty
            (rw (write, broken) refl) (λ h. absurd (omega arith)))
      | inr (batch, parsed) ↦ elim (Option-cases (find_bad_key batch)) [
        | inr (bad, found) ↦ inr (
            refused 200 400 db (write from_slice supplies db access kind headers body)
              (text (concat ("invalid object key: " ∷ bad ∷ [])))
              (rw (write, parsed, write_batch, found) refl) (λ h. absurd (omega arith)))
        | inl clean ↦ elim (Option-cases (if_unmodified headers)) [
          | inl missing ↦ inr (
              refused 200 428 db (write from_slice supplies db access kind headers body)
                (text unconditional)
                (rw (write, parsed, write_batch, clean, precondition, missing) refl)
                (λ h. absurd (omega arith)))
          | inr (e, given) ↦
              let allow = allows_stored_file_write access in
              let r = Objects.write access.library_id kind allow supplies db batch (some e) in
              let q : write from_slice supplies db access kind headers body ≡ answer_write db r =
                rw (write, parsed, write_batch, clean, precondition, given) refl in
              elim (answer_write-Advanced db access headers e given r (λ tx out.
                write-Answered access.library_id kind allow supplies db tx batch e out)) [
                  | inl (success, advanced) ↦ rw q (inl (success, (batch, parsed, clean), advanced))
                  | inr other ↦ rw q (inr other)
                ]
        ]
      ]
    ]

-- A deletion of objects that is answered 204 expected in its header the version that the library
-- had, and is answered with the version that the library has now. With any other answer nothing is
-- changed.
pub delete-Advanced :
    (db : Db) (access : LibraryAccess) (kind : String) (headers : HeaderMap) (params : Form)
    → (((delete db access kind headers params).1.status ≡ 204)
        × Advanced db access headers (delete db access kind headers params))
      ⊎ Refused 204 db (delete db access kind headers params)
unfolding delete precondition
delete-Advanced db access kind headers params = elim (Option-cases (if_unmodified headers)) [
  | inl missing ↦ inr (
      refused 204 428 db (delete db access kind headers params) (text unconditional)
        (rw (delete, precondition, missing) refl) (λ h. absurd (omega arith)))
  | inr (e, given) ↦
      let allow = allows_stored_file_write access in
      let keys = csv_of params (key_param kind) in
      let r = delete_keys access.library_id kind allow db keys (some e) in
      let q : delete db access kind headers params ≡ answer_delete db r =
        rw (delete, precondition, given) refl in
      rw q (
        answer_delete-Advanced db access headers e given r
          (λ tx out. delete_keys-Answered access.library_id kind allow db tx keys e out))
]
