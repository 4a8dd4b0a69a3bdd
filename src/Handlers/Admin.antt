-- ===== src/Handlers/Admin.antt =====
-- Settings of a group that only its administrators may change.
use zhost.Prelude.{
  ℕ, ◌≡◌, ◌≢◌, inl, inr, refl, ◌∙◌, Option, some, arith, true, false, List, [], ◌∷◌, String,
  Option-cases, Bool-cases, is_some, any, unwrap_or, string_eq, pair_eq, ap,
}
use zhost.Prelude.Int.{ℤ, int_eq}
use zhost.Prelude.Table.{lookup, lookup-upsert_ne, lookup-delete_ne}
use zhost.Json.{Value, obj, Fields, end, field}
use zhost.Domain.{LibraryAccess, LibraryId}
use zhost.Db.{Db, Setting, ItemKey, Result, ok, err}
use zhost.Store.{Outcome, done, conflict, at_next_version}
use zhost.Store.Guard.{at_next_version-eq, no_change-same}
use zhost.Store.Settings.{
  put_settings, write_settings, write_entries, remove_setting, remove_settings, delete_settings,
}
use zhost.Http.Headers.{HeaderMap, Form, if_unmodified, precondition, csv_of, Response}
use zhost.Handlers.Metadata.{
  is_admin_only, group_admin_setting_denied, field_names, object_keys, answer_outcome,
  settings_write, settings_delete,
}

abbrev pub setting_at : LibraryId → String → Db → Option Setting
setting_at l name db = lookup (l.get, name) db.setting

module _ (l : LibraryId) (name : String) (reserved : is_admin_only name ≡ true) where
  other_key : (k : String) → is_admin_only k ≡ false → ◌≢◌ {A = ItemKey} (l.get, k) (l.get, name)
  other_key k h = λ e.
      let q : k ≡ name = cc in
      let bad : is_admin_only name ≡ false = rw (← q) h in absurd (ground arith)

  put_settings-reserved :
      (v : ℤ) (entries : Fields) (db : Db)
      → any is_admin_only (field_names entries) ≡ false
      → setting_at l name (put_settings l v entries db) ≡ setting_at l name db
  unfolding put_settings field_names
  put_settings-reserved v end db h = refl
  put_settings-reserved v (field k w entries) db h =
      put_settings-reserved v entries _ (ground arith)
      ∙ lookup-upsert_ne (l.get, k) (l.get, name) _ db.setting (other_key k (ground arith))

  remove_settings-reserved :
      (v : ℤ) (keys : List String) (db : Db)
      → any is_admin_only keys ≡ false
      → setting_at l name (remove_settings l v keys db) ≡ setting_at l name db
  unfolding remove_settings remove_setting
  remove_settings-reserved v [] db h = refl
  remove_settings-reserved v (k ∷ keys) db h =
      remove_settings-reserved v keys _ (ground arith)
      ∙ lookup-delete_ne (l.get, k) (l.get, name) db.setting (other_key k (ground arith))

  -- Behind the version guard.
  at_next_version-reserved :
      (db db' : Db) (expected : Option ℤ) (change : ℤ → Db → Db) (out : Outcome ℤ)
      → ((v : ℤ) (tx : Db) → setting_at l name (change v tx) ≡ setting_at l name tx)
      → at_next_version db l expected change ≡ ok (db', out)
      → setting_at l name db' ≡ setting_at l name db
  at_next_version-reserved db db' expected change out keeps h =
      let (row, found, result) = at_next_version-eq db db' l expected change out h in
      elim result [ inl (stale, same, _) ↦ rw same refl | inr (fresh, q, _) ↦ rw q (keeps _ _) ]

  write_settings-reserved :
      (db db' : Db) (body : Value) (expected : Option ℤ) (out : Outcome ℤ)
      → any is_admin_only (object_keys body) ≡ false
      → write_settings db l body expected ≡ ok (db', out)
      → setting_at l name db' ≡ setting_at l name db
  unfolding write_settings write_entries
  write_settings-reserved db db' (obj (field k w fs)) expected out clean h =
      at_next_version-reserved db db' expected _ out
        (λ v tx. put_settings-reserved v (field k w fs) tx clean) h
  write_settings-reserved db db' body expected out clean h =
      ap (setting_at l name) (no_change-same db db' l expected (λ o. o) out h)

  delete_settings-reserved :
      (db db' : Db) (keys : List String) (expected : Option ℤ) (out : Outcome ℤ)
      → any is_admin_only keys ≡ false
      → delete_settings db l keys expected ≡ ok (db', out)
      → setting_at l name db' ≡ setting_at l name db
  unfolding delete_settings
  delete_settings-reserved db db' [] expected out clean h =
      ap (setting_at l name) (no_change-same db db' l expected (λ o. o) out h)
  delete_settings-reserved db db' (k ∷ keys) expected out clean h =
      at_next_version-reserved db db' expected _ out
        (λ v tx. remove_settings-reserved v (k ∷ keys) tx clean) h

  answer_outcome-reserved :
      (db : Db) (r : Result (Db × Outcome ℤ))
      → ((db' : Db) (out : Outcome ℤ)
          → r ≡ ok (db', out)
          → setting_at l name db' ≡ setting_at l name db)
      → setting_at l name (answer_outcome db r).0 ≡ setting_at l name db
  unfolding answer_outcome
  answer_outcome-reserved db (err problem) keeps = refl
  answer_outcome-reserved db (ok (db', done v)) keeps = keeps db' (done v) refl
  answer_outcome-reserved db (ok (db', conflict c)) keeps = keeps db' (conflict c) refl

  guard_free :
      (access : LibraryAccess) (keys : List String)
      → is_some access.group_id ≡ true
      → access.is_admin ≡ false
      → group_admin_setting_denied access keys ≡ false
      → any is_admin_only keys ≡ false
  unfolding group_admin_setting_denied
  guard_free access keys group member passed = ground arith

module _ (db : Db) (access : LibraryAccess) (headers : HeaderMap) (name : String)
    (group : is_some access.group_id ≡ true) (member : access.is_admin ≡ false)
    (reserved : is_admin_only name ≡ true) where
  abbrev Kept : Db × Response → Type 0
  Kept answer = setting_at access.library_id name answer.0 ≡ setting_at access.library_id name db

  settings_write-Kept :
      (from_slice : List ℕ → Option Value) (body : List ℕ)
      → Kept (settings_write from_slice db access headers body)
  unfolding settings_write precondition
  settings_write-Kept from_slice body = elim (Option-cases (if_unmodified headers)) [
    | inl missing ↦ rw (settings_write, precondition, missing) refl
    | inr (e, given) ↦
        let value = unwrap_or (obj end) (from_slice body) in
        elim (Bool-cases (group_admin_setting_denied access (object_keys value))) [
          | inl refused ↦ rw (settings_write, precondition, given, refused) refl
          | inr passed ↦
              rw (settings_write, precondition, given, passed)
                (answer_outcome-reserved access.library_id name reserved db _ (λ db' out.
                  write_settings-reserved access.library_id name reserved db db' value (some e) out
                    (guard_free access.library_id name reserved access (object_keys value) group
                      member passed)))
        ]
  ]

  settings_delete-Kept : (params : Form) → Kept (settings_delete db access headers params)
  unfolding settings_delete precondition
  settings_delete-Kept params = elim (Option-cases (if_unmodified headers)) [
    | inl missing ↦ rw (settings_delete, precondition, missing) refl
    | inr (e, given) ↦
        let keys = csv_of params "settingKey" in
        elim (Bool-cases (group_admin_setting_denied access keys)) [
          | inl refused ↦ rw (settings_delete, precondition, given, refused) refl
          | inr passed ↦
              rw (settings_delete, precondition, given, passed)
                (answer_outcome-reserved access.library_id name reserved db _ (λ db' out.
                  delete_settings-reserved access.library_id name reserved db db' keys (some e) out
                    (guard_free access.library_id name reserved access keys group member passed)))
        ]
  ]

-- Neither a write nor a deletion of settings in a group by a caller who is not its administrator
-- changes a setting that is reserved for administrators, whatever the answer is.
pub settings-Reserved :
    (from_slice : List ℕ → Option Value) (db : Db) (access : LibraryAccess) (headers : HeaderMap)
    (body : List ℕ) (params : Form) (name : String)
    → is_some access.group_id ≡ true
    → access.is_admin ≡ false
    → is_admin_only name ≡ true
    → (setting_at access.library_id name (settings_write from_slice db access headers body).0
        ≡ setting_at access.library_id name db)
      × (setting_at access.library_id name (settings_delete db access headers params).0
          ≡ setting_at access.library_id name db)
settings-Reserved from_slice db access headers body params name group member reserved = (
  settings_write-Kept db access headers name group member reserved from_slice body,
  settings_delete-Kept db access headers name group member reserved params,
)
