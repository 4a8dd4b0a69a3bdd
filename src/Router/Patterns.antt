-- ===== src/Router/Patterns.antt =====
-- What the paths that the middleware treats alike say of the patterns of their routes.
use zhost.Prelude.{
  ◌≡◌, refl, sym, ◌∙◌, ap, Bool, true, false, ◌&&◌, ◌||◌, ◌==◌, String, string_eq, List, [], ◌∷◌,
  all, retain, arith,
}
use mathlib.Core.Path.{subst}
use zhost.Prelude.Text.{split, is_nonempty}
use zhost.Http.Middleware.{Method, is_bootstrap, is_upload, upload_segments, session_segments}
use zhost.Http.Validation.{is_group_discovery}
use zhost.Router.{Segment, static, param, fits, matches}

-- Whether a segment of a pattern can be a text.
abbrev may_be : String → Segment → Bool
may_be s (static a) = a == s
may_be s param = true

fits-may_be :
    (s : String) (segment : Segment) (x : String)
    → fits segment x ≡ true
    → (x == s) ≡ true
    → may_be s segment ≡ true
fits-may_be s (static a) x e f =
    let p : a ≡ x = (string_eq.beq_iff a x).0 e in
    let q : x ≡ s = (string_eq.beq_iff x s).0 f in (string_eq.beq_iff a s).1 (p ∙ q)
fits-may_be s param x e f = refl

-- Paths that need no key, and the patterns that can have one.
abbrev open_segments : List String → Bool
open_segments (root ∷ a ∷ []) = a == "login"
open_segments (root ∷ a ∷ b ∷ rest) = a == "uploads" || (a == "keys" && b == "sessions")
open_segments [] = false
open_segments (root ∷ []) = false

abbrev pub is_open : List Segment → Bool
is_open (root ∷ a ∷ []) = may_be "login" a
is_open (root ∷ a ∷ b ∷ rest) = may_be "uploads" a || (may_be "keys" a && may_be "sessions" b)
is_open [] = false
is_open (root ∷ []) = false

pub open-matches :
    (p : List Segment) (xs : List String)
    → matches p xs ≡ true
    → open_segments xs ≡ true
    → is_open p ≡ true
open-matches [] [] e f = absurd (ground arith)
open-matches [] (x ∷ xs) e f = absurd (ground arith)
open-matches (r ∷ p) [] e f = absurd (ground arith)
open-matches (r ∷ p) (x ∷ []) e f = absurd (ground arith)
open-matches (r ∷ []) (x ∷ y ∷ xs) e f = absurd (ground arith)
open-matches (r ∷ a ∷ []) (x ∷ y ∷ []) e f = fits-may_be "login" a y (ground arith) f
open-matches (r ∷ a ∷ b ∷ p) (x ∷ y ∷ []) e f = absurd (ground arith)
open-matches (r ∷ a ∷ []) (x ∷ y ∷ z ∷ xs) e f = absurd (ground arith)
open-matches (r ∷ a ∷ b ∷ p) (x ∷ y ∷ z ∷ xs) e f =
    ground (arith, fits-may_be "uploads" a y, fits-may_be "keys" a y, fits-may_be "sessions" b z)

upload-open : (xs : List String) → upload_segments xs ≡ true → open_segments xs ≡ true
upload-open [] e = absurd (ground arith)
upload-open (r ∷ []) e = absurd (ground arith)
upload-open (r ∷ a ∷ []) e = absurd (ground arith)
upload-open (r ∷ a ∷ b ∷ []) e = ground arith
upload-open (r ∷ a ∷ b ∷ c ∷ xs) e = absurd (ground arith)

session-open : (xs : List String) → session_segments xs ≡ true → open_segments xs ≡ true
session-open [] e = absurd (ground arith)
session-open (r ∷ []) e = absurd (ground arith)
session-open (r ∷ a ∷ []) e = absurd (ground arith)
session-open (r ∷ a ∷ b ∷ []) e = absurd (ground arith)
session-open (r ∷ a ∷ b ∷ c ∷ []) e = ground arith
session-open (r ∷ a ∷ b ∷ c ∷ d ∷ xs) e = absurd (ground arith)

login-open : (path : String) → (path == "/login") ≡ true → open_segments (split b'/' path) ≡ true
unfolding split
login-open path e = let q : path ≡ "/login" = (string_eq.beq_iff path "/login").0 e in rw q refl

sessions-open :
    (path : String) → (path == "/keys/sessions") ≡ true → open_segments (split b'/' path) ≡ true
unfolding split
sessions-open path e =
    let q : path ≡ "/keys/sessions" = (string_eq.beq_iff path "/keys/sessions").0 e in rw q refl

pub bootstrap-open :
    (method : Method) (path : String)
    → is_bootstrap method path ≡ true
    → open_segments (split b'/' path) ≡ true
unfolding is_bootstrap is_upload
bootstrap-open method path e = ground (
  arith,
  upload-open (split b'/' path),
  session-open (split b'/' path),
  login-open path,
  sessions-open path,
)

-- A pattern whose first segment is empty and whose others are not.
abbrev solid : Segment → Bool
solid (static a) = is_nonempty a
solid param = true

abbrev pub is_rooted : List Segment → Bool
is_rooted [] = false
is_rooted (param ∷ p) = false
is_rooted (static a ∷ p) = a == "" && all solid p

fits-solid : (s : Segment) (x : String) → solid s ≡ true → fits s x ≡ true → is_nonempty x ≡ true
fits-solid (static a) x e f = let q : a ≡ x = (string_eq.beq_iff a x).0 f in rw (← q) e
fits-solid param x e f = f

solid-retain :
    (p : List Segment) (xs : List String)
    → all solid p ≡ true
    → matches p xs ≡ true
    → retain is_nonempty xs ≡ xs
solid-retain [] [] e f = refl
solid-retain [] (x ∷ xs) e f = absurd (ground arith)
solid-retain (s ∷ p) [] e f = refl
solid-retain (s ∷ p) (x ∷ xs) e f =
    rw (fits-solid s x (ground arith) (ground arith))
      (ap (λ ys. x ∷ ys) (solid-retain p xs (ground arith) (ground arith)))

-- The patterns that the discovery of groups can have, behind the root.
abbrev pub is_discovery : List Segment → Bool
is_discovery (a ∷ b ∷ []) = may_be "groups" a
is_discovery (a ∷ b ∷ c ∷ []) = may_be "users" a && may_be "groups" c
is_discovery [] = false
is_discovery (a ∷ []) = false
is_discovery (a ∷ b ∷ c ∷ d ∷ p) = false

discovery-matches :
    (p : List Segment) (xs : List String)
    → matches p xs ≡ true
    → is_group_discovery xs ≡ true
    → is_discovery p ≡ true
unfolding is_group_discovery
discovery-matches p [] e f = absurd (ground arith)
discovery-matches p (x ∷ []) e f = absurd (ground arith)
discovery-matches [] (x ∷ y ∷ xs) e f = absurd (ground arith)
discovery-matches (a ∷ []) (x ∷ y ∷ xs) e f = absurd (ground arith)
discovery-matches (a ∷ b ∷ []) (x ∷ y ∷ []) e f = fits-may_be "groups" a x (ground arith) f
discovery-matches (a ∷ b ∷ c ∷ p) (x ∷ y ∷ []) e f = absurd (ground arith)
discovery-matches (a ∷ b ∷ []) (x ∷ y ∷ z ∷ xs) e f = absurd (ground arith)
discovery-matches (a ∷ b ∷ c ∷ []) (x ∷ y ∷ z ∷ []) e f =
    ground (arith, fits-may_be "users" a x, fits-may_be "groups" c z)
discovery-matches (a ∷ b ∷ c ∷ d ∷ p) (x ∷ y ∷ z ∷ []) e f = absurd (ground arith)
discovery-matches (a ∷ b ∷ c ∷ p) (x ∷ y ∷ z ∷ w ∷ xs) e f = absurd (ground arith)

abbrev pub behind_root : List Segment → List Segment
behind_root [] = []
behind_root (s ∷ p) = p

pub rooted-discovery :
    (p : List Segment) (xs : List String)
    → is_rooted p ≡ true
    → matches p xs ≡ true
    → is_group_discovery (retain is_nonempty xs) ≡ true
    → is_discovery (behind_root p) ≡ true
rooted-discovery [] xs rooted e f = absurd (ground arith)
rooted-discovery (param ∷ p) xs rooted e f = absurd (ground arith)
rooted-discovery (static a ∷ p) [] rooted e f = absurd (ground arith)
rooted-discovery (static a ∷ p) (x ∷ xs) rooted e f =
    let empty : a ≡ "" = (string_eq.beq_iff a "").0 (ground arith) in
    let same : a ≡ x = (string_eq.beq_iff a x).0 (ground arith) in
    let none_there : x ≡ "" = sym same ∙ empty in
    let kept : retain is_nonempty (x ∷ xs) ≡ xs =
      rw none_there (solid-retain p xs (ground arith) (ground arith)) in
    discovery-matches p xs (ground arith) (rw (← kept) f)

-- The pattern can have the path of the current key.
abbrev pub fits_current : List Segment → Bool
fits_current p = matches p ("" ∷ "keys" ∷ "current" ∷ [])

pub current-matches :
    (p : List Segment) (path : String)
    → (path == "/keys/current") ≡ true
    → matches p (split b'/' path) ≡ true
    → fits_current p ≡ true
unfolding split
current-matches p path e f =
    let q : path ≡ "/keys/current" = (string_eq.beq_iff path "/keys/current").0 e in
    subst (λ x. matches p (split b'/' x) ≡ true) q f
