-- ===== src/Router/Provided.antt =====
-- What a handler asks of its request, and what the request has.
use zhost.Prelude.{
  ◌≡◌, ◌⊎◌, inl, inr, refl, Bool, true, false, not, ◌&&◌, ◌||◌, ◌==◌, Option, none, some, is_some,
  String, string_eq, List, [], ◌∷◌, ◌++◌, all, arith, Bool-cases,
}
use zhost.Prelude.Text.{split}
use zhost.Domain.{LibraryAccess, RequestContext}
use zhost.Config.{Config}
use zhost.Db.{Db, Digest}
use zhost.Http.Middleware.{Method, get, head, proceed, log_and_auth, is_bootstrap}
use zhost.Http.Validation.{is_group_discovery_path}
use zhost.Http.Access.{Permitted, log_and_auth-Permitted}
use zhost.Router.Patterns.{
  is_open, open-matches, bootstrap-open, is_rooted, is_discovery, behind_root, rooted-discovery,
  fits_current, current-matches,
}
use zhost.Router.{Handler, Route, matches, router, uses_access, uses_context}

-- What axum documents of a router: a request goes to a handler of a route whose path it has, for its
-- method, and a `HEAD` request also to the handler for `GET`.
pub record RouterLaws (dispatch : List Route → Method → String → Option Handler) : Type 0 where
  pub sound :
      (routes : List Route) (method : Method) (path : String) (h : Handler)
      → dispatch routes method path ≡ some h
      → (before after : List Route) × (r : Route) × (earlier later : List (Method × Handler))
        × (m : Method) × (routes ≡ before ++ (r ∷ after))
        × (r.methods ≡ earlier ++ ((m, h) ∷ later))
        × (matches r.pattern (split b'/' path) ≡ true)
        × ((m ≡ method) ⊎ ((m ≡ get) × (method ≡ head)))

all-middle :
    {A : Type 0} (p : A → Bool) (before : List A) (x : A) (after : List A)
    → all p (before ++ (x ∷ after)) ≡ true
    → p x ≡ true
all-middle p [] x after e = ground arith
all-middle p (y ∷ before) x after e = all-middle p before x after (ground arith)

-- A route whose handlers use the access has no path that gives none, and one whose handlers use the
-- identity has no path that is open.
abbrev is_closed : Route → Bool
is_closed r =
    all (λ mh. not (uses_access mh.1)) r.methods
    || (is_rooted r.pattern
        && not (is_discovery (behind_root r.pattern))
        && not (is_open r.pattern)
        && not (fits_current r.pattern))

abbrev is_known : Route → Bool
is_known r = all (λ mh. not (uses_context mh.1)) r.methods || not (is_open r.pattern)

router-closed : all is_closed router ≡ true
unfolding router
router-closed = refl

router-known : all is_known router ≡ true
unfolding router
router-known = refl

-- What the handler uses is there.
abbrev pub Provided : Handler → Option LibraryAccess → Option RequestContext → Type 0
Provided h access context =
    ((not (uses_access h) || is_some access) ≡ true)
    × ((not (uses_context h) || is_some context) ≡ true)

-- A handler of a route is no exception to what holds of all of them.
handler-free :
    (uses : Handler → Bool) (earlier later : List (Method × Handler)) (m : Method) (h : Handler)
    (methods : List (Method × Handler))
    → methods ≡ earlier ++ ((m, h) ∷ later)
    → all (λ mh. not (uses mh.1)) methods ≡ true
    → uses h ≡ false
handler-free uses earlier later m h methods same e =
    let one : not (uses h) ≡ true =
      all-middle (λ mh. not (uses mh.1)) earlier (m, h) later (rw (← same) e) in
    ground (arith, one)

-- A closed route takes no path that gives no access.
closed-access :
    (r : Route) (method : Method) (path : String)
    → (is_rooted r.pattern
        && not (is_discovery (behind_root r.pattern))
        && not (is_open r.pattern)
        && not (fits_current r.pattern))
      ≡ true
    → matches r.pattern (split b'/' path) ≡ true
    → (is_bootstrap method path ≡ false)
      × (((path == "/keys/current") || is_group_discovery_path path) ≡ false)
unfolding is_group_discovery_path
closed-access r method path closed there =
    let xs = split b'/' path in
    (
      ground (arith, bootstrap-open method path, open-matches r.pattern xs there),
      ground (arith, current-matches r.pattern path, rooted-discovery r.pattern xs),
    )

Permitted-access :
    (method : Method) (path : String) (access : Option LibraryAccess)
    → Permitted method path access
    → ((path == "/keys/current") || is_group_discovery_path path) ≡ false
    → is_some access ≡ true
Permitted-access method path none permitted other = absurd (ground arith)
Permitted-access method path (some a) permitted other = refl

-- If the router takes a request that the middleware lets through, its handler finds the library and
-- the identity that it asks for.
pub log_and_auth-Provided :
    (dispatch : List Route → Method → String → Option Handler) (sha256 : String → Digest)
    (config : Config) (db : Db) (method : Method) (path : String) (token : Option String)
    (access : Option LibraryAccess) (context : Option RequestContext) (h : Handler)
    → RouterLaws dispatch
    → log_and_auth sha256 config db method path token ≡ proceed access context
    → dispatch router method path ≡ some h
    → Provided h access context
log_and_auth-Provided dispatch sha256 config db method path token access context h laws passed
      routed =
    let (before, after, r, earlier, later, m, table, methods, there, _) =
      laws.sound router method path h routed in
    let closed : is_closed r ≡ true =
      all-middle is_closed before r after (rw (← table) router-closed) in
    let known : is_known r ≡ true =
      all-middle is_known before r after (rw (← table) router-known) in
    let free = handler-free uses_access earlier later m h r.methods methods in
    let anonymous = handler-free uses_context earlier later m h r.methods methods in
    let guarded = closed-access r method path in
    let hidden = open-matches r.pattern (split b'/' path) there in
    let asks : (uses_access h ≡ false)
        ⊎ ((is_bootstrap method path ≡ false)
            × (((path == "/keys/current") || is_group_discovery_path path) ≡ false)) =
      elim (Bool-cases (all (λ mh. not (uses_access mh.1)) r.methods)) [
        | inl e ↦ inl (free e)
        | inr e ↦ inr (guarded (ground arith) there)
      ] in
    elim (log_and_auth-Permitted sha256 config db method path token access context passed) [
      | inl (public, no_access, no_context) ↦
          let opened = hidden (bootstrap-open method path public) in
          (ground (arith, asks), ground (arith, anonymous))
      | inr (c, authenticated, same, own, _, permitted) ↦ (
        ground (arith, asks, Permitted-access method path access permitted),
        rw same (ground arith),
      )
    ]
