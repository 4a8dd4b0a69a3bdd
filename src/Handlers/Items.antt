-- ===== src/Handlers/Items.antt =====
-- xotero/src/handlers/objects.rs: the reads of items, by the sync client and by query. `from_str`
-- and `to_string` are those of serde_urlencoded.
use zhost.Prelude.{
  String, Bool, true, false, Option, none, some, ◌==◌, if◌then◌else◌, string_eq, option_eq, List,
  [], ◌∷◌, ◌++◌, and_then, unwrap_or,
}
use zhost.Prelude.Int.{ℤ, pos, ltb_ℤ, add_i64}
use zhost.Prelude.Table.{Table}
use zhost.Prelude.Text.{parse_i64, split}
use zhost.Prelude.Format.{int_to_string, join}
use zhost.Json.{obj}
use zhost.Domain.{LibraryAccess}
use zhost.Config.{Config}
use zhost.Db.{Db, ok, err}
use zhost.Store.{current_version}
use zhost.Store.Versions.{versions, objects}
use zhost.Store.Queries.{Postgres, query_items, item_keys, top_versions}
use zhost.Query
use zhost.Query.{Params, ItemQuery, from_params}
use zhost.Http.Headers.{
  Response, json_response, server_error, request_library, version_headers, current_headers,
  next_link, text,
}
use zhost.Handlers.Objects.{array, with_current}

module _ (sql : Postgres) (from_str : String → Option (List (String × String)))
    (to_string : List (String × String) → Option String) (config : Config) (db : Db)
    (access : LibraryAccess) where
  abbrev pub notes : Bool
  notes = access.permissions.notes

  abbrev pub since_param : Params → ℤ
  since_param params = unwrap_or (pos 0) (and_then (Query.get params "since") parse_i64)

  unfoldable pub item_sync_read : Params → Bool → Option Response
  unfolding version_headers
  item_sync_read params top =
      if Query.get params "format" == some "versions"
      then some (elim (current_version db (request_library access)) [
        | err error ↦ server_error error
        | ok current ↦ json_response (version_headers current) (
            obj (
              if top
              then top_versions sql db (request_library access) (since_param params) notes
              else versions db (request_library access) "item" (since_param params) notes))
      ])
      else and_then (Query.get params "itemKey") (λ csv. some (
          with_current db access
            (array (objects db (request_library access) "item" (split b',' csv) notes))))

  -- `q.start + q.limit < total`, in `i64`.
  abbrev pub has_next : ItemQuery → ℤ → Bool
  has_next q total = ltb_ℤ (add_i64 q.start q.limit) total

  abbrev pub link_headers : String → Option String → ItemQuery → ℤ → Table String String
  link_headers path raw q total =
      if has_next q total
      then ("link", next_link from_str to_string config path raw (add_i64 q.start q.limit)) ∷ []
      else []

  unfoldable pub item_listing : String → Option String → ItemQuery → Response
  item_listing path raw q =
      let (items, total) = query_items sql db (request_library access) q notes in
      elim (current_headers db access) [
        | err error ↦ server_error error
        | ok headers ↦
            json_response
              (headers ++ (("total-results", int_to_string total) ∷ link_headers path raw q total))
              (array items)
      ]

  unfoldable pub item_keys_response : Params → ItemQuery → Option Response
  item_keys_response params q =
      if Query.get params "format" == some "keys"
      then some (elim (current_headers db access) [
        | ok headers ↦ record {
          status = 200;
          headers = headers;
          body = text (join "\n" (item_keys sql db (request_library access) q notes));
        }
        | err error ↦ server_error error
      ])
      else none

  -- The reads that the five handlers share: the keys, or else the page.
  abbrev pub queried : String → Option String → Params → ItemQuery → Response
  queried path raw params q = unwrap_or (item_listing path raw q) (item_keys_response params q)

  unfoldable pub items_get : String → Option String → Response
  unfolding item_sync_read item_listing item_keys_response
  items_get path raw =
      let params = Query.parse from_str raw in
      unwrap_or (queried path raw params (from_params params)) (item_sync_read params false)

  unfoldable pub items_top : String → Option String → Response
  unfolding item_sync_read item_listing item_keys_response
  items_top path raw =
      let params = Query.parse from_str raw in
      unwrap_or (queried path raw params (record (from_params params) { top = true }))
        (item_sync_read params true)

  unfoldable pub items_trash : String → Option String → Response
  unfolding item_listing item_keys_response
  items_trash path raw =
      let params = Query.parse from_str raw in
      queried path raw params (record (from_params params) { only_trashed = true })

  unfoldable pub collection_items : String → String → Option String → Response
  unfolding item_listing item_keys_response
  collection_items key path raw =
      let params = Query.parse from_str raw in
      queried path raw params (record (from_params params) { collection = some key })

  unfoldable pub collection_items_top : String → String → Option String → Response
  unfolding item_listing item_keys_response
  collection_items_top key path raw =
      let params = Query.parse from_str raw in
      queried path raw params (record (from_params params) { collection = some key; top = true })
