-- ===== src/Consent.antt =====
-- frontend/app/(portal)/oauth/consent/page.tsx: the consent to the login into another system. The
-- query of the address is a sequence of units.
pub mod Deciding
use nexus_mini.Prelude.{
  String, Bool, true, false, List, [], ◌∷◌, ◌++◌, Option, none, some, ◌==◌, if◌then◌else◌,
}
use nexus_mini.Text.{Text, codes, strip_prefix}
use nexus_mini.Runtime.{Fault, Answer, ok, fail, Proc, ask, update, effect, ◌>>=◌, ◌>>◌, ret, msg}
use nexus_mini.Ui.{View, Element, text, code, spinner, button, each}
use nexus_mini.Form.{error_alert}

pub record Info : Type 0 where
  pub client_name : String
  pub tenant_name : String
  pub scopes : List String
  pub redirect_host : String

-- `SCOPE_LABEL`
abbrev pub scope_labels : List (String × String)
scope_labels =
    ("openid", "Таныг таних (ID)")
    ∷ ("profile", "Нэр")
    ∷ ("email", "Имэйл хаяг")
    ∷ ("tenant", "Байгууллагын мэдээлэл")
    ∷ ("roles", "Байгууллага дахь role-ууд")
    ∷ ("offline_access", "Таныг байхгүй үед ч хандах (refresh token)")
    ∷ []

-- `SCOPE_LABEL[s] ?? s`
abbrev pub label_in : List (String × String) → String → String
label_in [] s = s
label_in ((k, v) ∷ rest) s = let other = label_in rest s in if k == s then v else other

pub record Page : Type 0 where
  pub query : Text
  pub info : Option Info
  pub err : String
  pub busy : Bool

abbrev pub initial : Page
initial = record { query = []; info = none; err = ""; busy = false }

pub data Request : Type 0 where
  get_consent : Text → Request
  post_consent : Bool → Text → Request

-- The answer to a decision is the address to go to.
abbrev pub Reply : Request → Type 0
Reply (get_consent query) = Info
Reply (post_consent approve query) = String

pub data Effect : Type 0 where
  location_assign : String → Effect

abbrev pub Handler : Type 0
Handler = Proc Request Reply Effect Page (Unit {0})

-- `search.replace(/^\?/, "")`
abbrev pub or_whole : Option Text → Text → Text
or_whole none s = s
or_whole (some rest) s = rest

unfoldable pub query_of : Text → Text
query_of search = or_whole (strip_prefix (codes "?") search) search

abbrev pub informed : Answer Info → Page → Page
informed (ok d) s = record s { info = some d }
informed (fail e) s = record s { err = msg e "Хүсэлт буруу" }

-- The effect, on a page that stays open; its argument is `window.location.search`.
unfoldable pub mount : Text → Handler
unfolding query_of
mount search = do
  update (λ s. record s { query = query_of search })
  r ← ask (get_consent (query_of search))
  update (informed r)

pub data Action : Type 0 where
  approve refuse : Action

abbrev pub is_approval : Action → Bool
is_approval approve = true
is_approval refuse = false

module _ (t : String → String) where
  -- `decide`, over the query of the page.
  unfoldable pub decide : Bool → Text → Handler
  decide approved query = do
    update (λ s. record s { busy = true })
    r ← ask (post_consent approved query)
    elim r [
      | ok redirect ↦ effect (location_assign redirect)
      | fail e ↦ do
        update (λ s. record s { err = msg e (t "Алдаа гарлаа") })
        update (λ s. record s { busy = false })
    ]

  abbrev pub scope_line : String → View Action
  scope_line s = text (t (label_in scope_labels s)) ∷ code s ∷ []

  abbrev pub deciding : String → String → Bool → View Action
  deciding name email busy =
      text (t "Та")
      ∷ text name
      ∷ text email
      ∷ button (t "Татгалзах") busy refuse
      ∷ button (t "Зөвшөөрөх") busy approve
      ∷ []

  pub shown : String → String → Bool → Info → View Action
  shown name email busy info =
      text info.client_name
        ∷ text info.redirect_host
        ∷ text (t "систем таны")
        ∷ text info.tenant_name
        ∷ text (t "байгууллагын бүртгэлээр нэвтэрч, дараах мэдээллийг авахыг хүсэж байна:")
        ∷ each scope_line info.scopes
      ++ deciding name email busy

  abbrev pub body : String → String → Page → Option Info → View Action
  body name email s none = if s.err == "" then spinner (t "Уншиж байна…") ∷ [] else []
  body name email s (some info) = shown name email s.busy info

  -- `name` and `email` are the visitor's.
  unfoldable pub view : String → String → Page → View Action
  unfolding shown
  view name email s = text (t "Хандалт зөвшөөрөх") ∷ error_alert s.err ++ body name email s s.info
