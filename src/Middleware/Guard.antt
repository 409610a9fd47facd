-- ===== src/Middleware/Guard.antt =====
-- Whom frontend/middleware.ts sends to the login, and whom it does not.
use nexus_mini.Prelude.{
  ◌≡◌, refl, ◌≢◌, ◌↔◌, inl, inr, Bool, true, false, ◌++◌, none, arith, Bool-cases,
}
use nexus_mini.Text.{Text, codes}
use nexus_mini.Text.Prefix.{text_eq_sound, text_eq_refl}
use nexus_mini.Middleware.{
  NextRequest, redirect, next, is_public, must_login, middleware, matcher, serve,
}

-- The three conditions under which a visitor has to log in first.
pub record IsGuestAtGuarded (req : NextRequest) : Type 0 where
  pub guest : req.session ≡ false
  pub not_root : req.pathname ≢ codes "/"
  pub not_public : is_public req.pathname ≡ false

must_login_iff : (req : NextRequest) → (must_login req ≡ true) ↔ IsGuestAtGuarded req
unfolding must_login
must_login_iff req = (
  λ h. record {
    guest = ground arith;
    not_root = λ e. ground (arith, text_eq_refl (codes "/"));
    not_public = ground arith;
  },
  λ g. ground (arith, g.guest, g.not_public, text_eq_sound req.pathname (codes "/")),
)

module _ (encode : Text → Text) (dev : Bool) (nonce : Text) where
  -- On the pages that the matcher covers, a request is sent to the login, with the page and its
  -- query as the parameter `next`, exactly when it has no session and asks for neither the root nor
  -- a public page.
  pub serve-redirect_iff :
      (req : NextRequest)
      → matcher req.pathname ≡ true
      → (serve encode dev nonce req
          ≡ redirect (codes "/login") (codes "?next=" ++ encode (req.pathname ++ req.search)))
        ↔ IsGuestAtGuarded req
  unfolding serve middleware
  serve-redirect_iff req covered = (
    λ e. elim (Bool-cases (must_login req)) [
      | inl yes' ↦ (must_login_iff req).0 yes'
      | inr no' ↦ ground arith
    ],
    λ g. let m = (must_login_iff req).1 g in ground arith,
  )

  -- The login page itself is never redirected, whatever the query, cookies and headers: the
  -- redirect does not lead into a loop.
  pub serve-login_settles :
      (req : NextRequest) (to search : Text)
      → req.pathname ≡ codes "/login"
      → serve encode dev nonce req ≢ redirect to search
  unfolding serve middleware is_public must_login
  serve-login_settles req to search e h =
      let public' : must_login req ≡ false = rw (e, must_login) in ground arith

  -- The matcher leaves out every path that begins with `/api`, the pages whose first word only
  -- begins so among them: they are served to a guest with no redirect and with no policy.
  pub serve-api_prefix :
      (req : NextRequest) (s : Text)
      → req.pathname ≡ codes "/api" ++ s
      → serve encode dev nonce req ≡ next req.headers none
  unfolding serve matcher
  serve-api_prefix req s e =
      let open' : matcher req.pathname ≡ false = rw (e) refl in rw (open', serve)
