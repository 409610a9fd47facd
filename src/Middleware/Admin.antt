-- ===== src/Middleware/Admin.antt =====
-- admin/middleware.ts: the same policy, and no public page but the login.
use nexus_mini.Prelude.{Bool, not, ◌&&◌, some, none, if◌then◌else◌, ◌≡◌, false, ◌↔◌, arith, ◌≢◌}
use nexus_mini.Text.{Text, codes, text_eq}
use nexus_mini.Text.Prefix.{text_eq_sound, text_eq_refl}
use nexus_mini.Middleware.{NextRequest, NextResponse, redirect, next, is_truthy, set_header, policy}

abbrev pub must_login : NextRequest → Bool
must_login req = not (text_eq req.pathname (codes "/login")) && not req.session

-- `url.pathname = "/login"` keeps the query of the request.
unfoldable pub middleware : Bool → Text → NextRequest → NextResponse
unfolding is_truthy set_header policy
middleware dev nonce req =
    if must_login req
    then redirect (codes "/login") req.search
    else if is_truthy req.rsc
    then next req.headers none
    else next
        (set_header "content-security-policy" (policy dev nonce)
          (set_header "x-nonce" nonce req.headers))
        (some (policy dev nonce))

-- The admin console sends a request to the login exactly when it has no session and is for another
-- page than the login; the redirect keeps the query.
pub middleware-redirect_iff :
    (dev : Bool) (nonce : Text) (req : NextRequest)
    → (middleware dev nonce req ≡ redirect (codes "/login") req.search)
      ↔ ((req.session ≡ false) × (req.pathname ≢ codes "/login"))
unfolding middleware
middleware-redirect_iff dev nonce req = (
  λ e. (ground arith, λ same. ground (arith, text_eq_refl (codes "/login"))),
  λ h. ground (arith, text_eq_sound req.pathname (codes "/login")),
)
