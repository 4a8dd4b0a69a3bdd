-- ===== src/Store/Logins.antt =====
-- Completing and cancelling a login session.
use zhost.Prelude.{
  ℕ, ◌≡◌, ◌⊎◌, inl, inr, refl, some, arith, true, false, not, ◌&&◌, ◌||◌, ◌==◌, String, string_eq,
  list_eq, nat_eq, Bool-cases, Option-cases, is_some,
}
use zhost.Prelude.Int.{ℤ, int_eq}
use zhost.Prelude.Table.{lookup, lookup-upsert_self}
use zhost.Domain.{user_id_new}
use zhost.Db.{Db, Digest, LoginRow, ok}
use zhost.Store.Identity.{find_key}
use zhost.Store.Sessions.{
  LoginSessionChange, done, conflict, complete_login_session, cancel_login_session, mint,
  mapped_user, is_expired,
}

mint-row :
    (db : Db) (now : ℕ) (h : Digest) (r : LoginRow) (key_hash : Digest) (user_id id : ℤ)
    → lookup h (mint db now h r key_hash user_id id).accounts.login_sessions
      ≡ some (record r {
        status = "completed";
        user_id = some user_id;
        api_key_id = some id;
        completed_at = some now;
      })
unfolding mint
mint-row db now h r key_hash user_id id = lookup-upsert_self h _ db.accounts.login_sessions

-- The session has this status and lets no completion and no cancellation through.
abbrev HasStatus : String → Db → Digest → Type 0
HasStatus status db h =
    (r : LoginRow) × (lookup h db.accounts.login_sessions ≡ some r) × (r.status ≡ status)

complete-closed :
    (db : Db) (now : ℕ) (id : ℤ) (h key_hash : Digest) (issuer subject status : String)
    → (status == "pending") ≡ false
    → HasStatus status db h
    → complete_login_session db now id h key_hash issuer subject ≡ ok (db, conflict)
unfolding complete_login_session
complete-closed db now id h key_hash issuer subject status closed (r, there, is) =
    ground (arith, there, is, closed)

cancel-closed :
    (db : Db) (now : ℕ) (h : Digest) (status : String)
    → (status == "pending") ≡ false
    → HasStatus status db h
    → cancel_login_session db now h ≡ (db, conflict)
unfolding cancel_login_session
cancel-closed db now h status closed (r, there, is) = ground (arith, there, is, closed)

-- A completion: refused without any change, or of a pending and live session, for an active user.
complete-cases :
    (db db' : Db) (now : ℕ) (id : ℤ) (h key_hash : Digest) (issuer subject : String)
    (out : LoginSessionChange)
    → complete_login_session db now id h key_hash issuer subject ≡ ok (db', out)
    → ((db' ≡ db) × ((out ≡ done) → ⊥))
      ⊎ ((r : LoginRow) × (user user_id : ℤ) × (lookup h db.accounts.login_sessions ≡ some r)
          × ((r.status == "pending") ≡ true)
          × (is_expired now r ≡ false)
          × (mapped_user db issuer subject ≡ some user)
          × (db' ≡ mint db now h r key_hash user_id id))
unfolding complete_login_session
complete-cases db db' now id h key_hash issuer subject out e =
    elim (Option-cases (lookup h db.accounts.login_sessions)) [
      | inl gone ↦ inl (ground arith, λ x. ground arith)
      | inr (r, there) ↦ elim (Bool-cases (r.status == "pending")) [
        | inr closed ↦ inl (ground arith, λ x. ground arith)
        | inl pending ↦ elim (Bool-cases (is_expired now r)) [
          | inl late ↦ inl (ground arith, λ x. ground arith)
          | inr live ↦ elim (Option-cases (mapped_user db issuer subject)) [
            | inl unknown ↦ inl (ground arith, λ x. ground arith)
            | inr (user, found) ↦ elim (Option-cases (user_id_new user)) [
              | inl invalid ↦ absurd (ground arith)
              | inr (user_id, e') ↦
                  elim (Bool-cases (
                    is_some (lookup id db.accounts.api_keys)
                    || is_some (find_key key_hash db.accounts.api_keys))) [
                      | inl taken ↦ absurd (ground arith)
                      | inr new ↦
                          inr (r, user, user_id.get, there, pending, live, found, ground arith)
                    ]
            ]
          ]
        ]
      ]
    ]

-- A login session that is completed was pending and live, and for a mapped active user; after it
-- no completion mints another key for it and no cancellation gets through: both answer a conflict
-- and change nothing.
pub complete_login_session-once :
    (db db' : Db) (now : ℕ) (id : ℤ) (h key_hash : Digest) (issuer subject : String) (later : ℕ)
    (other : ℤ) (key_hash' : Digest) (issuer' subject' : String)
    → complete_login_session db now id h key_hash issuer subject ≡ ok (db', done)
    → (complete_login_session db' later other h key_hash' issuer' subject' ≡ ok (db', conflict))
      × (cancel_login_session db' later h ≡ (db', conflict))
      × ((r : LoginRow) × (user : ℤ) × (lookup h db.accounts.login_sessions ≡ some r)
          × ((r.status == "pending") ≡ true)
          × (is_expired now r ≡ false)
          × (mapped_user db issuer subject ≡ some user))
complete_login_session-once db db' now id h key_hash issuer subject later other key_hash' issuer'
      subject' e =
    elim (complete-cases db db' now id h key_hash issuer subject done e) [
      | inl (_, refused) ↦ absurd (refused refl)
      | inr (r, user, user_id, there, pending, live, found, same) ↦
          let completed : HasStatus "completed" db' h =
            (rw same (_, mint-row db now h r key_hash user_id id, refl)) in
          (
            complete-closed db' later other h key_hash' issuer' subject' "completed" refl completed,
            cancel-closed db' later h "completed" refl completed,
            (r, user, there, pending, live, found),
          )
    ]

-- After a login session is cancelled no completion mints a key for it.
pub cancel_login_session-closes :
    (db db' : Db) (now later : ℕ) (id : ℤ) (h key_hash : Digest) (issuer subject : String)
    → cancel_login_session db now h ≡ (db', done)
    → complete_login_session db' later id h key_hash issuer subject ≡ ok (db', conflict)
unfolding cancel_login_session
cancel_login_session-closes db db' now later id h key_hash issuer subject e =
    elim (Option-cases (lookup h db.accounts.login_sessions)) [
      | inl gone ↦ absurd (ground arith)
      | inr (r, there) ↦ elim (Bool-cases (r.status == "pending" && not (is_expired now r))) [
        | inr closed ↦ absurd (ground arith)
        | inl alive ↦
            let cancelled : HasStatus "cancelled" db' h = (
              record r { status = "cancelled" },
              ground (
                arith,
                lookup-upsert_self h (record r { status = "cancelled" }) db.accounts.login_sessions,
              ),
              refl,
            ) in
            complete-closed db' later id h key_hash issuer subject "cancelled" refl cancelled
      ]
    ]
