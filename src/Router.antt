-- ===== src/Router.antt =====
-- xotero/src/app.rs: the routes. Which route takes a request is axum's part.
pub mod Patterns
pub mod Provided
use zhost.Prelude.{ℕ, String, Bool, true, false, ◌&&◌, ◌==◌, string_eq, List, [], ◌∷◌, ◌++◌}
use zhost.Prelude.Text.{is_nonempty}
use zhost.Http.Middleware.{Method, get, head, post, patch, delete}

-- The handlers, with the kind that a closure binds.
pub data Handler : Type 0 where
  key_current create_session check_session cancel_session login_page login_authorize groups
        group_get settings_read settings_write settings_delete items_get items_top items_trash
        collection_items collection_items_top tags_get tags_delete fulltext_versions fulltext_item
        fulltext_write file_get file_post deleted_log upload_put :
      Handler
  read_objects write_objects delete_objects : String → Handler

-- A segment of a route's path; a parameter takes any segment that is not empty.
pub data Segment : Type 0 where
  static : String → Segment
  param : Segment

pub record Route : Type 0 where
  pub pattern : List Segment
  pub methods : List (Method × Handler)

abbrev pub fits : Segment → String → Bool
fits (static s) x = s == x
fits param x = is_nonempty x

abbrev pub matches : List Segment → List String → Bool
matches [] [] = true
matches (s ∷ pattern) (x ∷ xs) = fits s x && matches pattern xs
matches [] (x ∷ xs) = false
matches (s ∷ pattern) [] = false

abbrev pub route : List Segment → List (Method × Handler) → Route
route pattern methods = record { pattern = pattern; methods = methods }

-- The closure `objects`.
abbrev pub object_methods : String → List (Method × Handler)
object_methods kind =
    (get, read_objects kind)
    ∷ (post, write_objects kind)
    ∷ (patch, write_objects kind)
    ∷ (delete, delete_objects kind)
    ∷ []

abbrev pub item_methods : List (Method × Handler)
item_methods =
    (get, items_get)
    ∷ (post, write_objects "item")
    ∷ (patch, write_objects "item")
    ∷ (delete, delete_objects "item")
    ∷ []

abbrev pub settings_methods : List (Method × Handler)
settings_methods = (get, settings_read) ∷ (post, settings_write) ∷ (delete, settings_delete) ∷ []

abbrev pub at_root : List Segment → List (Method × Handler) → Route
at_root pattern methods = route (static "" ∷ pattern) methods

-- The routes of a library, which are the same for users and for groups.
abbrev pub library_routes : String → List Route
library_routes scope =
    at_root (static scope ∷ param ∷ static "settings" ∷ []) settings_methods
    ∷ at_root (static scope ∷ param ∷ static "collections" ∷ []) (object_methods "collection")
    ∷ at_root (static scope ∷ param ∷ static "collections" ∷ param ∷ static "items" ∷ [])
        ((get, collection_items) ∷ [])
    ∷ at_root
        (static scope ∷ param ∷ static "collections" ∷ param ∷ static "items" ∷ static "top" ∷ [])
        ((get, collection_items_top) ∷ [])
    ∷ at_root (static scope ∷ param ∷ static "searches" ∷ []) (object_methods "search")
    ∷ at_root (static scope ∷ param ∷ static "items" ∷ []) item_methods
    ∷ at_root (static scope ∷ param ∷ static "items" ∷ static "top" ∷ []) ((get, items_top) ∷ [])
    ∷ at_root (static scope ∷ param ∷ static "items" ∷ static "trash" ∷ [])
        ((get, items_trash) ∷ [])
    ∷ at_root (static scope ∷ param ∷ static "tags" ∷ [])
        ((get, tags_get) ∷ (delete, tags_delete) ∷ [])
    ∷ at_root (static scope ∷ param ∷ static "fulltext" ∷ [])
        ((get, fulltext_versions) ∷ (post, fulltext_write) ∷ [])
    ∷ at_root (static scope ∷ param ∷ static "items" ∷ param ∷ static "fulltext" ∷ [])
        ((get, fulltext_item) ∷ [])
    ∷ at_root (static scope ∷ param ∷ static "items" ∷ param ∷ static "file" ∷ [])
        ((get, file_get) ∷ (post, file_post) ∷ [])
    ∷ at_root (static scope ∷ param ∷ static "deleted" ∷ []) ((get, deleted_log) ∷ [])
    ∷ []

unfoldable pub router : List Route
router =
    at_root (static "keys" ∷ static "current" ∷ []) ((get, key_current) ∷ [])
      ∷ at_root (static "keys" ∷ static "sessions" ∷ []) ((post, create_session) ∷ [])
      ∷ at_root (static "keys" ∷ static "sessions" ∷ param ∷ [])
          ((get, check_session) ∷ (delete, cancel_session) ∷ [])
      ∷ at_root (static "login" ∷ []) ((get, login_page) ∷ (post, login_authorize) ∷ [])
      ∷ at_root (static "users" ∷ param ∷ static "groups" ∷ []) ((get, groups) ∷ [])
      ∷ at_root (static "groups" ∷ param ∷ []) ((get, group_get) ∷ (head, group_get) ∷ [])
      ∷ at_root (static "uploads" ∷ param ∷ []) ((post, upload_put) ∷ [])
      ∷ library_routes "groups"
    ++ library_routes "users"

-- The handlers that ask for the request's library, and those that take its identity.
abbrev pub uses_access : Handler → Bool
uses_access key_current = false
uses_access create_session = false
uses_access check_session = false
uses_access cancel_session = false
uses_access login_page = false
uses_access login_authorize = false
uses_access groups = false
uses_access group_get = false
uses_access upload_put = false
uses_access h = true

abbrev pub uses_context : Handler → Bool
uses_context key_current = true
uses_context groups = true
uses_context group_get = true
uses_context file_post = true
uses_context h = false
