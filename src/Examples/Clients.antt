-- ===== src/Examples/Clients.antt =====
-- The page of the SSO clients at concrete inputs.
use nexus_mini.Prelude.{ℕ, ◌≡◌, refl, ◌↔◌, false, List, [], ◌∷◌, some, All}
use nexus_mini.Text.{Text, codes}
use nexus_mini.Text.Space.{trim}
use nexus_mini.Runtime.{ok, fail, other_error, Server, run}
use nexus_mini.Text.Split.{join}
use nexus_mini.SsoClients.{
  Client, Page, initial, Request, Reply, get_clients, del_client, newline, press, edit,
  forget_secret,
}
use nexus_mini.SsoClients.ClientDialog.{lines, scopes_of, has_scope, toggled}
use nexus_mini.SsoClients.Lines.{IsLine, lines-join_iff}
use nexus_mini.SsoClients.Scopes.{IsScope, has_scope-toggled}
use nexus_mini.SsoClients.Once.{
  IsHidden, quiets, pressed, loads, closed, removes, secret_shown_once,
}

abbrev addresses : List Text
addresses = codes "https://a.mn/cb" ∷ codes "https://b.mn/x,y" ∷ []

lines-join_iff_example : (lines (join newline addresses) ≡ addresses) ↔ All IsLine addresses
lines-join_iff_example = lines-join_iff addresses

-- The address with the comma becomes two.
lines-join_test :
    lines (join newline addresses)
    ≡ codes "https://a.mn/cb" ∷ codes "https://b.mn/x" ∷ codes "y" ∷ []
unfolding lines join trim
lines-join_test = refl

profile-IsScope : IsScope (codes "profile")
profile-IsScope = ((refl, (refl, (refl, (refl, (refl, (refl, (refl, tt))))))), λ h. cc)

has_scope-toggled_example :
    has_scope (codes "email") (scopes_of (toggled (codes "profile") (codes "openid profile email")))
    ≡ has_scope (codes "email") (scopes_of (codes "openid profile email"))
has_scope-toggled_example =
    has_scope-toggled (codes "profile") (codes "email") (codes "openid profile email")
      profile-IsScope

abbrev client : Client
client = record {
  id = "1";
  client_id = "c1";
  name = "ERP";
  is_public = false;
  redirect_uris = [];
  post_logout_uris = [];
  scopes = codes "openid";
  created_at = "";
}

abbrev listing : Server Request Reply ℕ
listing w get_clients = (ok (client ∷ [], "https://sso"), w)
listing w (del_client id) = (fail (other_error "down"), w)

abbrev with_secret : Page
with_secret = record initial { secret = some (record { client_id = "c1"; client_secret = "s" }) }

secret_shown_once_example :
    let r = run listing (press (λ s. s) forget_secret) 0 with_secret in
    IsHidden
      (quiets listing
        (λ s. s)
        (loads ∷ pressed (edit client) ∷ closed ∷ removes (some client) ∷ [])
        r.world
        r.state).1
secret_shown_once_example =
    secret_shown_once listing (λ s. s)
      (loads ∷ pressed (edit client) ∷ closed ∷ removes (some client) ∷ []) 0 with_secret
