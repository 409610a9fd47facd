-- ===== src/Middleware.antt =====
-- frontend/middleware.ts, and the middleware.ts of the admin console in a child module.
pub mod Admin
pub mod Public
pub mod Guard
pub mod Policy
use nexus_mini.Prelude.{
  ℕ, String, Bool, true, false, not, ◌&&◌, ◌||◌, List, [], ◌∷◌, ◌++◌, map, Option, none, some, any,
  ◌==◌, nat_eq, if◌then◌else◌,
}
use nexus_mini.Text.{Text, codes, text_eq, strip_prefix, starts_with}

abbrev pub slash : ℕ
slash = b'/'

-- What the middleware reads of a request. `rsc` is the header of that name.
pub record NextRequest : Type 0 where
  pub pathname : Text
  pub search : Text
  pub session : Bool  -- cookies.has("nexus_session")
  pub rsc : Option Text
  pub headers : List (String × Text)

-- A redirect to a path with a query, or the page with the headers handed on to it and the policy
-- of the response.
pub data NextResponse : Type 0 where
  redirect : Text → Text → NextResponse
  next : List (String × Text) → Option Text → NextResponse

-- The alternatives of `PUBLIC`.
abbrev pub public_names : List Text
public_names =
    codes "login" ∷ codes "signup" ∷ codes "setup" ∷ codes "apps" ∷ codes "developers" ∷ []

-- `(?:\/|$)`
abbrev pub at_boundary : Text → Bool
at_boundary [] = true
at_boundary (c ∷ s) = nat_eq c slash

pub boundary_after : Option Text → Bool
boundary_after none = false
boundary_after (some rest) = at_boundary rest

-- `PUBLIC.test(path)`
unfoldable pub is_public : Text → Bool
unfolding boundary_after
is_public path = any (λ name. boundary_after (strip_prefix (slash ∷ name) path)) public_names

-- `[…].join("; ")`
pub join : Text → List Text → Text
join sep [] = []
join sep (x ∷ []) = x
join sep (x ∷ y ∷ xs) = x ++ (sep ++ join sep (y ∷ xs))

-- `policy`; `dev` is `process.env.NODE_ENV !== "production"`.
unfoldable pub policy : Bool → Text → Text
unfolding join
policy dev nonce = join (codes "; ") (
    codes "default-src 'self'"
    ∷ (codes "script-src 'self' 'nonce-"
        ++ (nonce ++ (codes "' 'strict-dynamic'" ++ (if dev then codes " 'unsafe-eval'" else []))))
    ∷ codes "style-src 'self' 'unsafe-inline'"
    ∷ codes "img-src 'self' data:"
    ∷ codes "font-src 'self'"
    ∷ codes "connect-src 'self'"
    ∷ codes "form-action 'self'"
    ∷ codes "frame-ancestors 'none'"
    ∷ codes "frame-src 'none'"
    ∷ codes "base-uri 'self'"
    ∷ codes "object-src 'none'"
    ∷ (if dev then [] else codes "upgrade-insecure-requests" ∷ []))

-- `headers.set(name, value)`
pub set_header : String → Text → List (String × Text) → List (String × Text)
set_header name value [] = (name, value) ∷ []
set_header name value ((k, v) ∷ rest) =
    if k == name then (name, value) ∷ rest else (k, v) ∷ set_header name value rest

-- `req.headers.get("rsc")` as a condition: the empty text is false.
unfoldable pub is_truthy : Option Text → Bool
is_truthy none = false
is_truthy (some []) = false
is_truthy (some (c ∷ s)) = true

-- `path !== "/" && !PUBLIC.test(path) && !req.cookies.has("nexus_session")`
pub must_login : NextRequest → Bool
must_login req =
    not (text_eq req.pathname (slash ∷ [])) && (not (is_public req.pathname) && not req.session)

-- `middleware`; `encode` is `encodeURIComponent`, `nonce` what `newNonce` drew.
unfoldable pub middleware : (Text → Text) → Bool → Text → NextRequest → NextResponse
unfolding must_login is_truthy set_header policy
middleware encode dev nonce req =
    if must_login req
    then redirect (codes "/login") (codes "?next=" ++ encode (req.pathname ++ req.search))
    else if is_truthy req.rsc
    then next req.headers none
    else next
        (set_header "content-security-policy" (policy dev nonce)
          (set_header "x-nonce" nonce req.headers))
        (some (policy dev nonce))

-- `.*\.`: a dot anywhere.
pub has_dot : Text → Bool
has_dot [] = false
has_dot (c ∷ s) = nat_eq c b'.' || has_dot s

-- What stands behind the first slash, of `matcher`: none of the excluded beginnings.
unfoldable pub passes_lookahead : Text → Bool
unfolding has_dot
passes_lookahead rest =
    not (starts_with rest (codes "api"))
    && (not (starts_with rest (codes "_next/static"))
        && (not (starts_with rest (codes "_next/image")) && not (has_dot rest)))

-- `config.matcher`: the paths for which the framework runs the middleware.
unfoldable pub matcher : Text → Bool
unfolding passes_lookahead
matcher [] = false
matcher (c ∷ rest) = nat_eq c slash && passes_lookahead rest

-- What a request meets: the middleware where the matcher fits, and else the page as it is.
unfoldable pub serve : (Text → Text) → Bool → Text → NextRequest → NextResponse
unfolding matcher middleware
serve encode dev nonce req =
    if matcher req.pathname then middleware encode dev nonce req else next req.headers none
