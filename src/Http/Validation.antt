-- ===== src/Http/Validation.antt =====
-- xotero/src/http/validation.rs. A `Result` with the error `()` is an `Option`.
use Prim.Native.String.{len}
use zhost.Prelude.{
  ℕ, String, Bool, false, ◌&&◌, ◌||◌, Option, none, some, ◌==◌, if◌then◌else◌, string_eq, option_eq,
  nat_eq, List, [], ◌∷◌, all, any, retain, leb, is_some_and, and_then, nat_beq,
}
use zhost.Prelude.Int.{ℤ, pos, ltb_ℤ}
use zhost.Prelude.Text.{codes, split, parse_i64, is_nonempty}
use text.Mathlib.Text.{starts_with}
use zhost.Domain.{GroupId, group_id_new}

-- `u8::is_ascii_alphanumeric`, on code points.
abbrev pub is_alphanumeric : ℕ → Bool
is_alphanumeric c =
    (leb b'0' c && leb c b'9') || (leb b'A' c && leb c b'Z') || (leb b'a' c && leb c b'z')

unfoldable pub valid_key : String → Bool
valid_key key = is_nonempty key && leb (len key) 32 && all is_alphanumeric (codes key)

abbrev pub object_alphabet : List ℕ
object_alphabet = codes "23456789ABCDEFGHIJKLMNPQRSTUVWXYZ"

unfoldable pub valid_object_key : String → Bool
valid_object_key key =
    nat_beq (len key) 8 && all (λ b. any (λ a. nat_beq a b) object_alphabet) (codes key)

abbrev pub is_positive_id : String → Bool
is_positive_id raw = is_some_and (λ id. ltb_ℤ (pos 0) id) (parse_i64 raw)

unfoldable pub is_attachment_segments : List String → Bool
is_attachment_segments (root ∷ scope ∷ raw_id ∷ items ∷ key ∷ file ∷ []) =
    root == ""
    && (scope == "users" || scope == "groups")
    && is_positive_id raw_id
    && items == "items"
    && is_nonempty key
    && file == "file"
is_attachment_segments (root ∷ scope ∷ raw_id ∷ items ∷ key ∷ file ∷ view ∷ url ∷ []) =
    root == ""
    && (scope == "users" || scope == "groups")
    && is_positive_id raw_id
    && items == "items"
    && is_nonempty key
    && file == "file"
    && view == "view"
    && url == "url"
is_attachment_segments segments = false

unfoldable pub is_attachment_permission_path : String → Bool
unfolding is_attachment_segments
is_attachment_permission_path path = is_attachment_segments (split b'/' path)

unfoldable pub request_log_path : String → String
request_log_path path =
    if starts_with path "/uploads/"
    then "/uploads/{token}"
    else if starts_with path "/keys/sessions/"
    then "/keys/sessions/{token}"
    else path

abbrev pub segments : String → List String
segments path = retain is_nonempty (split b'/' path)

unfoldable pub is_group_discovery : List String → Bool
is_group_discovery (a ∷ _ ∷ []) = a == "groups"
is_group_discovery (a ∷ _ ∷ c ∷ []) = a == "users" && c == "groups"
is_group_discovery segments = false

unfoldable pub is_group_discovery_path : String → Bool
unfolding is_group_discovery
is_group_discovery_path path = is_group_discovery (segments path)

abbrev some_id : Option ℤ → Option (Option ℤ)
some_id none = none
some_id (some id) = some (some id)

unfoldable pub user_id_of : List String → Option (Option ℤ)
user_id_of (root ∷ users ∷ []) = if root == "" && users == "users" then none else some none
user_id_of (root ∷ users ∷ raw ∷ rest) =
    if root == "" && users == "users" then some_id (parse_i64 raw) else some none
user_id_of segments = some none

-- `none` is `Err(())`.
unfoldable pub path_user_id : String → Option (Option ℤ)
unfolding user_id_of
path_user_id path = user_id_of (split b'/' path)

abbrev some_group : Option GroupId → Option (Option GroupId)
some_group none = none
some_group (some id) = some (some id)

unfoldable pub group_data_id_of : List String → Option (Option GroupId)
group_data_id_of (groups ∷ raw ∷ _ ∷ _) =
    if groups == "groups" then some_group (and_then (parse_i64 raw) group_id_new) else some none
group_data_id_of segments = some none

unfoldable pub path_group_data_id : String → Option (Option GroupId)
unfolding group_data_id_of
path_group_data_id path = group_data_id_of (segments path)
