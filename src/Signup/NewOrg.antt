-- ===== src/Signup/NewOrg.antt =====
-- frontend/app/org/new/page.tsx: a new organisation of a user who is logged in.
use nexus_mini.Prelude.{String, Bool, true, false, [], ◌∷◌, ◌++◌, if◌then◌else◌}
use nexus_mini.Text.{Text}
use nexus_mini.Slug.{slugify}
use nexus_mini.Runtime.{
  Fault, Answer, ok, fail, Proc, ask, update, effect, ◌>>=◌, ◌>>◌, msg, has_status,
}
use nexus_mini.Ui.{checked, is_required, View, text, area, button}
use nexus_mini.Form.{error_alert}

pub record Org : Type 0 where
  pub name : Text
  pub slug : Text

pub record Page : Type 0 where
  pub org : Org
  pub slug_touched : Bool
  pub err : String
  pub busy : Bool

abbrev pub initial : Page
initial = record {
  org = record { name = []; slug = [] };
  slug_touched = false;
  err = "";
  busy = false;
}

module _ (lower : Text → Text) where
  unfoldable pub name_typed : Text → Page → Page
  name_typed v s = record s {
    org = record { name = v; slug = if s.slug_touched then s.org.slug else slugify lower v };
  }

  unfoldable pub slug_typed : Text → Page → Page
  slug_typed v s = record s { slug_touched = true; org = record (s.org) { slug = slugify lower v } }

pub data Request : Type 0 where
  post_tenants : Org → Request
  post_tenant : String → Request

-- The new organisation's id.
abbrev pub Reply : Request → Type 0
Reply (post_tenants org) = String
Reply (post_tenant id) = Unit {0}

pub data Effect : Type 0 where
  router_replace : String → Effect

abbrev pub Handler : Type 0
Handler = Proc Request Reply Effect Page (Unit {0})

pub data Action : Type 0 where
  type_name type_slug : Text → Action
  send : Action

module _ (t : String → String) where
  -- The `catch` of `submit`.
  pub refused : Fault → Handler
  refused e =
      (if has_status 401 e
        then effect (router_replace "/login")
        else update (λ s. record s { err = msg e (t "Алдаа гарлаа") }))
      >> update (λ s. record s { busy = false })

  pub entered : Answer (Unit {0}) → Handler
  unfolding refused
  entered (ok u) = effect (router_replace "/store")
  entered (fail e) = refused e

  pub created : Answer String → Handler
  unfolding entered
  created (ok id) = do r ← ask (post_tenant id); entered r
  created (fail e) = refused e

  unfoldable pub submit : Org → Handler
  unfolding created
  submit org = do
    update (λ s. record s { err = "" })
    update (λ s. record s { busy = true })
    r ← ask (post_tenants org)
    created r

  unfoldable pub view : Page → View Action
  view s =
      text (t "Байгууллага үүсгэх")
        ∷ text (t "Ажлын талбараа үүсгээд store-оос модулиа сонгоно")
        ∷ error_alert s.err
      ++ (checked (is_required ∷ []) (area (t "Байгууллагын нэр") s.org.name type_name)
          ∷ checked (is_required ∷ []) (area (t "Богино нэр (slug)") s.org.slug type_slug)
          ∷ button (t "Үүсгэх") s.busy send
          ∷ [])
