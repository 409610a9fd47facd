-- ===== src/SsoClients/ClientDialog.antt =====
-- `ClientDialog` of frontend/app/(portal)/sso-clients/page.tsx.
use nexus_mini.Prelude.{
  ℕ, String, Bool, true, false, not, ◌||◌, List, [], ◌∷◌, ◌++◌, map, Option, none, some, ◌==◌, any,
  filter, nat_eq, if◌then◌else◌,
}
use nexus_mini.Text.{Text, codes, text_eq}
use nexus_mini.Text.Space.{trim}
use nexus_mini.Text.Split.{split, join, filled}
use nexus_mini.Runtime.{Proc, effect, ◌>>◌}
use nexus_mini.Ui.{checked, is_required, View, text, field, area, checkbox, button, when, each}
use nexus_mini.Form.{Dialog, FormAction, set_form, save, given, error_alert, footer}
use nexus_mini.SsoClients.{ClientForm, Secret, newline}

-- The addresses are separated by `/\n|,/`.
abbrev pub is_line_end : ℕ → Bool
is_line_end c = nat_eq c newline || nat_eq c b','

-- `lines`
unfoldable pub lines : Text → List Text
unfolding split filled
lines s = filled (map trim (split is_line_end s))

-- `ALL_SCOPES`
abbrev pub all_scopes : List String
all_scopes = "openid" ∷ "profile" ∷ "email" ∷ "tenant" ∷ "roles" ∷ "offline_access" ∷ []

abbrev pub is_blank : ℕ → Bool
is_blank c = nat_eq c 32

-- `form.scopes.split(" ").filter(Boolean)`
unfoldable pub scopes_of : Text → List Text
unfolding split filled
scopes_of s = filled (split is_blank s)

-- `scopes.includes(s)`
abbrev pub has_scope : Text → List Text → Bool
has_scope s scopes = any (λ x. text_eq x s) scopes

-- What a click on a scope makes of the text with the scopes.
unfoldable pub toggled : Text → Text → Text
unfolding scopes_of join
toggled s scopes = join 32 (
    if has_scope s (scopes_of scopes)
    then filter (λ x. not (text_eq x s)) (scopes_of scopes)
    else scopes_of scopes ++ (s ∷ []))

-- `body`
pub record Body : Type 0 where
  pub name : String
  pub is_public : Bool
  pub redirect_uris : List Text
  pub post_logout_uris : List Text
  pub scopes : Text

unfoldable pub body_of : ClientForm → Body
unfolding lines
body_of form = record {
  name = form.name;
  is_public = form.is_public;
  redirect_uris = lines form.redirect_uris;
  post_logout_uris = lines form.post_logout_uris;
  scopes = form.scopes;
}

pub data Request : Type 0 where
  put_client : String → Body → Request
  post_client : Body → Request

-- The answer to a new client; a public one has an empty secret or none.
pub record Created : Type 0 where
  pub client_id : String
  pub client_secret : Option String

abbrev pub Reply : Request → Type 0
Reply (put_client id body) = Unit {0}
Reply (post_client body) = Created

pub data Effect : Type 0 where
  toast : String → Effect
  on_saved : Option Secret → Effect

abbrev pub Handler : Type 0
Handler = Proc Request Reply Effect (Dialog ClientForm) (Unit {0})

-- `r.client_secret ? r : null`
unfoldable pub secret_of : Created → Option Secret
secret_of r = elim r.client_secret [
  | none ↦ none
  | some s ↦ if s == "" then none else some (record { client_id = r.client_id; client_secret = s })
]

module _ (t : String → String) where
  abbrev saving : Option String → ClientForm → Handler
  saving (some id) form =
      save (t "Алдаа гарлаа") (put_client id (body_of form))
        λ u. effect (toast (t "Хадгалагдлаа")) >> effect (on_saved none)
  saving none form =
      save (t "Алдаа гарлаа") (post_client (body_of form))
        λ r. effect (toast (t "Клиент үүслээ")) >> effect (on_saved (secret_of r))

  -- `submit`, over the form that is shown.
  unfoldable pub submit : ClientForm → Handler
  unfolding body_of secret_of save
  submit form = saving (given form.id) form

  abbrev scope_button : ClientForm → String → View (FormAction ClientForm)
  scope_button form s =
      button s false (set_form (record form { scopes = toggled (codes s) form.scopes })) ∷ []

  abbrev is_new : Option String → Bool
  is_new none = true
  is_new (some id) = false

  unfoldable pub view : Dialog ClientForm → View (FormAction ClientForm)
  unfolding toggled
  view d =
      text (if is_new (given d.form.id) then t "Клиент нэмэх" else t "Клиент засах")
        ∷ error_alert d.err
      ++ (checked (is_required ∷ [])
              (field (t "Нэр") d.form.name (λ v. set_form (record d.form { name = v })))
            ∷ when (is_new (given d.form.id)) (
                checkbox (t "Public клиент (SPA/mobile — secret-гүй, PKCE)") d.form.is_public
                  (λ v. set_form (record d.form { is_public = v }))
                ∷ [])
          ++ (area (t "Redirect URI-ууд (мөр тус бүр)") d.form.redirect_uris
                  (λ v. set_form (record d.form { redirect_uris = v }))
                ∷ area (t "Logout-ын дараах URI-ууд") d.form.post_logout_uris
                    (λ v. set_form (record d.form { post_logout_uris = v }))
                ∷ text "Scope"
                ∷ each (scope_button d.form) all_scopes
              ++ footer (t "Болих") (t "Хадгалах") d.busy))
