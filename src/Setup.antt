-- ===== src/Setup.antt =====
-- frontend/app/setup/page.tsx: the first administrator of a fresh installation. The token of the
-- address and the slug, which the page trims and lowers, are sequences of units.
pub mod Screens
use nexus_mini.Prelude.{
  String, Bool, true, false, List, [], ◌∷◌, ◌++◌, Option, none, some, ◌==◌, is_empty, if◌then◌else◌,
}
use nexus_mini.Text.{Text}
use nexus_mini.Text.Space.{trim}
use nexus_mini.Login.{SetupStatus}
use nexus_mini.Runtime.{
  Fault, Answer, ok, fail, Proc, ask, update, ◌>>=◌, ◌>>◌, ret, msg, has_status,
}
use nexus_mini.Ui.{
  checked, email_type, is_required, max_length, min_length, pattern_of, View, Element, text, alert,
  field, area, button,
}
use nexus_mini.Form.{error_alert}

-- `Done`; the empty text is no error.
pub record Done : Type 0 where
  pub user_id : String
  pub tenant_id : Option String
  pub tenant_error : String

pub record Admin : Type 0 where
  pub email : String
  pub name : String
  pub password : String

pub record Organisation : Type 0 where
  pub name : String
  pub slug : Text

pub record Page : Type 0 where
  pub status : Option SetupStatus
  pub token : Text
  pub typed : Text
  pub address_read : Bool
  pub admin : Admin  -- email, name and password
  pub again : String
  pub org : Organisation  -- orgName and orgSlug
  pub err : String
  pub busy : Bool
  pub done : Option Done

abbrev pub initial : Page
initial = record {
  status = none;
  token = [];
  typed = [];
  address_read = false;
  admin = record { email = ""; name = ""; password = "" };
  again = "";
  org = record { name = ""; slug = [] };
  err = "";
  busy = false;
  done = none;
}

-- The last argument of `post_setup` is the header `X-Setup-Token`.
pub data Request : Type 0 where
  get_setup_status : Request
  post_setup : Admin → Organisation → Text → Request

abbrev pub Reply : Request → Type 0
Reply get_setup_status = SetupStatus
Reply (post_setup admin org token) = Done

pub data Effect : Type 0 where

abbrev pub Handler : Type 0
Handler = Proc Request Reply Effect Page (Unit {0})

-- `setupStatus` of frontend/lib/setup.ts.
abbrev pub status_of : Answer SetupStatus → SetupStatus
status_of (ok s) = s
status_of (fail e) = record { required = false; armed = false }

abbrev pub or_empty : Option Text → Text
or_empty none = []
or_empty (some s) = s

-- The effect; its argument is the parameter `token` of the address.
unfoldable pub mount : Option Text → Handler
mount param = do
  update (λ s. record s { token = or_empty param })
  update (λ s. record s { address_read = true })
  r ← ask get_setup_status
  update (λ s. record s { status = some (status_of r) })

pub data Action : Type 0 where
  set_email set_name set_password set_again set_org_name : String → Action
  set_org_slug set_typed : Text → Action
  go_on send : Action

module _ (t : String → String) where
  -- The `catch` of `submit`.
  pub refused : Fault → Handler
  refused e =
      (if has_status 404 e
        then update (λ s. record s { token = [] })
          >> update (λ s. record s {
            err = t "Энэ холбоос хүчингүй болсон — API-ийн логоос шинэ холбоосыг ав.";
          })
        else update (λ s. record s { err = msg e (t "Алдаа гарлаа") }))
      >> update (λ s. record s { busy = false })

  pub answered : Answer Done → Handler
  unfolding refused
  answered (ok out) = update (λ s. record s { done = some out })
  answered (fail e) = refused e

  -- `submit`, over the page that is shown.
  unfoldable pub submit : Page → Handler
  unfolding answered
  submit p =
      update (λ s. record s { err = "" })
      >> (if p.admin.password == p.again
          then update (λ s. record s { busy = true })
            >> (ask (post_setup p.admin p.org p.token) >>= answered)
          else update (λ s. record s { err = t "Шинэ нууц үг хоёр талд таарахгүй байна" }))

-- What is typed, and the button under the token; `lower` is `toLowerCase`.
unfoldable pub typed_in : (Text → Text) → Action → Page → Page
typed_in lower (set_email v) s = record s { admin = record (s.admin) { email = v } }
typed_in lower (set_name v) s = record s { admin = record (s.admin) { name = v } }
typed_in lower (set_password v) s = record s { admin = record (s.admin) { password = v } }
typed_in lower (set_again v) s = record s { again = v }
typed_in lower (set_org_name v) s = record s { org = record (s.org) { name = v } }
typed_in lower (set_org_slug v) s = record s { org = record (s.org) { slug = lower v } }
typed_in lower (set_typed v) s = record s { typed = v }
typed_in lower go_on s = record s { token = trim s.typed }
typed_in lower send s = s

-- Which of its screens the page shows.
pub data Screen : Type 0 where
  blank : Screen
  finished : Done → Screen
  configured not_armed ask_token setup_form : Screen

abbrev pub screen_of_status : SetupStatus → Text → Screen
screen_of_status st token =
    if st.required
    then if st.armed then if is_empty token then ask_token else setup_form else not_armed
    else configured

abbrev pub screen_of_done : Option Done → SetupStatus → Text → Screen
screen_of_done (some d) st token = finished d
screen_of_done none st token = screen_of_status st token

abbrev pub screen_of : Bool → Option SetupStatus → Option Done → Text → Screen
screen_of read none out token = blank
screen_of read (some st) out token = if read then screen_of_done out st token else blank

unfoldable pub screen : Page → Screen
screen s = screen_of s.address_read s.status s.done s.token

module _ (t : String → String) where
  abbrev finished_view : String → Done → View Action
  finished_view email d =
      text (t "Бэлэн боллоо")
      ∷ text email
      ∷ text (t "Платформын админ үүслээ. Одоо нэвтэрч аппаа store-оос суулга.")
      ∷ (if d.tenant_error == ""
          then []
          else alert "warning" (t "Байгууллага үүсгэж чадсангүй:")
            ∷ alert "warning" d.tenant_error
            ∷ alert "warning" (t "нэвтэрсний дараа үүсгэнэ.")
            ∷ [])

  abbrev drawn : Screen → Page → View Action
  drawn blank s = text (t "Анхны тохиргоо") ∷ []
  drawn (finished d) s = finished_view s.admin.email d
  drawn configured s =
      text (t "Анхны тохиргоо") ∷ text (t "Энэ суулгац аль хэдийн тохируулагдсан.") ∷ []
  drawn not_armed s =
      text (t "Анхны тохиргоо")
      ∷ alert "warning" (
          t
            "Шидтэн зэвсэглээгүй: API-г дахин асаагаад логоос setup холбоосыг ав, эсвэл nexus-mini.env-д ADMIN_* бичээд make migrate ажиллуул.")
      ∷ []
  drawn ask_token s =
      text (t "Анхны тохиргоо") ∷ text (t "API-ийн логт хэвлэгдсэн токен") ∷ error_alert s.err
      ++ (checked (is_required ∷ []) (area (t "Setup токен") s.typed set_typed)
          ∷ button (t "Үргэлжлүүлэх") false go_on
          ∷ [])
  drawn setup_form s =
      text (t "Анхны тохиргоо")
        ∷ text (t "Платформын анхны админ ба (заавал биш) анхны байгууллага")
        ∷ error_alert s.err
      ++ (checked (email_type ∷ is_required ∷ []) (field (t "Имэйл") s.admin.email set_email)
          ∷ checked (is_required ∷ max_length 120 ∷ []) (field (t "Нэр") s.admin.name set_name)
          ∷ checked (is_required ∷ min_length 8 ∷ [])
              (field (t "Нууц үг") s.admin.password set_password)
          ∷ checked (is_required ∷ []) (field (t "Шинэ нууц үг (давтах)") s.again set_again)
          ∷ checked (max_length 160 ∷ []) (field (t "Байгууллагын нэр") s.org.name set_org_name)
          ∷ checked (pattern_of "[a-z0-9][a-z0-9\\\\-]{1,62}" ∷ [])
              (area (t "Байгууллагын slug") s.org.slug set_org_slug)
          ∷ button (t "Тохируулах") s.busy send
          ∷ [])

  unfoldable pub view : Page → View Action
  unfolding screen
  view s = drawn (screen s) s
