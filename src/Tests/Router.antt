-- ===== src/Tests/Router.antt =====
-- A router that takes the first route, on the example.
use zhost.Prelude.{
  ◌≡◌, ◌⊎◌, inl, inr, refl, ap, String, Bool, true, false, Option, none, some, List, [], ◌∷◌, ◌++◌,
  arith, Bool-cases, if◌then◌else◌,
}
use zhost.Prelude.Text.{split, parse_i64}
use zhost.Prelude.Table.{lookup}
use zhost.Domain.{library_id_new, user_id_new, api_key_id_new}
use zhost.Config.{recovery_permissions}
use zhost.Store.Identity.{
  authenticate_api_key, active_key, find_key, active_principal, principal_from_row,
}
use zhost.Http.Middleware.{
  Method, get, head, post, put, patch, delete, proceed, log_and_auth, personal_access, check_owner,
  select_access, check_access, is_bootstrap, is_upload, authenticate_request,
}
use zhost.Http.Validation.{
  path_user_id, path_group_data_id, is_group_discovery_path, is_attachment_permission_path,
  is_group_discovery, is_attachment_segments,
}
use zhost.Router.{Handler, Route, matches, router, items_get}
use zhost.Router.Provided.{RouterLaws, Provided, log_and_auth-Provided}
use zhost.Tests.{hash, config, context, db}

abbrev handles : Method → Method → Bool
handles get get = true
handles get head = true
handles head head = true
handles post post = true
handles put put = true
handles patch patch = true
handles delete delete = true
handles m method = false

handles-method :
    (m method : Method) → handles m method ≡ true → (m ≡ method) ⊎ ((m ≡ get) × (method ≡ head))
handles-method get get e = inl refl
handles-method head head e = inl refl
handles-method post post e = inl refl
handles-method put put e = inl refl
handles-method patch patch e = inl refl
handles-method delete delete e = inl refl
handles-method get head e = inr (refl, refl)
handles-method m method e = absurd (ground arith)

abbrev find_handler : List (Method × Handler) → Method → Option Handler
find_handler [] method = none
find_handler ((m, h) ∷ methods) method =
    if handles m method then some h else find_handler methods method

find_handler_sound :
    (methods : List (Method × Handler)) (method : Method) (h : Handler)
    → find_handler methods method ≡ some h
    → (earlier later : List (Method × Handler)) × (m : Method) × (methods
        ≡ earlier ++ ((m, h) ∷ later))
      × ((m ≡ method) ⊎ ((m ≡ get) × (method ≡ head)))
find_handler_sound [] method h e = absurd (ground arith)
find_handler_sound ((m, g) ∷ methods) method h e = elim (Bool-cases (handles m method)) [
  | inl taken ↦
      let q : g ≡ h = ground arith in
      ([], methods, m, ap (λ x. (m, x) ∷ methods) q, handles-method m method taken)
  | inr other_way ↦
      let (earlier, later, n, same, fit) = find_handler_sound methods method h (ground arith) in
      ((m, g) ∷ earlier, later, n, ap (λ ms. (m, g) ∷ ms) same, fit)
]

abbrev first_route : List Route → Method → String → Option Handler
first_route [] method path = none
first_route (r ∷ routes) method path =
    if matches r.pattern (split b'/' path)
    then find_handler r.methods method
    else first_route routes method path

first_route_sound :
    (routes : List Route) (method : Method) (path : String) (h : Handler)
    → first_route routes method path ≡ some h
    → (before after : List Route) × (r : Route) × (earlier later : List (Method × Handler))
      × (m : Method) × (routes ≡ before ++ (r ∷ after))
      × (r.methods ≡ earlier ++ ((m, h) ∷ later))
      × (matches r.pattern (split b'/' path) ≡ true)
      × ((m ≡ method) ⊎ ((m ≡ get) × (method ≡ head)))
first_route_sound [] method path h e = absurd (ground arith)
first_route_sound (r ∷ routes) method path h e =
    elim (Bool-cases (matches r.pattern (split b'/' path))) [
      | inl taken ↦
          let (earlier, later, m, same, fit) =
            find_handler_sound r.methods method h (ground arith) in
          ([], routes, r, earlier, later, m, refl, same, taken, fit)
      | inr other_way ↦
          let (before, after, s, earlier, later, m, at, same, found, fit) =
            first_route_sound routes method path h (ground arith) in
          (r ∷ before, after, s, earlier, later, m, ap (λ rs. r ∷ rs) at, same, found, fit)
    ]

first_route-RouterLaws : RouterLaws first_route
first_route-RouterLaws = record { sound = first_route_sound }

routed_run : first_route router get "/users/7/items" ≡ some items_get
unfolding router split
routed_run = refl

passed_run :
    log_and_auth hash config db get "/users/7/items" (some "secret")
    ≡ proceed (some (personal_access context)) (some context)
unfolding log_and_auth authenticate_request check_owner select_access check_access is_bootstrap
    is_upload path_user_id path_group_data_id is_group_discovery_path is_group_discovery
    is_attachment_permission_path is_attachment_segments recovery_permissions authenticate_api_key
    active_key find_key active_principal principal_from_row lookup library_id_new user_id_new
    api_key_id_new split parse_i64
passed_run = refl

log_and_auth-Provided_example : Provided items_get (some (personal_access context)) (some context)
log_and_auth-Provided_example =
    log_and_auth-Provided first_route hash config db get "/users/7/items" (some "secret")
      (some (personal_access context)) (some context) items_get first_route-RouterLaws passed_run
      routed_run
