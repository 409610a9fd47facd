-- ===== src/Settings.antt =====
-- frontend/app/(portal)/settings/page.tsx: what an organisation says of itself.
pub mod Saving
use nexus_mini.Prelude.{
  ℕ, String, Bool, true, false, not, List, [], ◌∷◌, ◌++◌, Option, none, some, ◌==◌, if◌then◌else◌,
}
use nexus_mini.Runtime.{Fault, Answer, ok, fail, Proc, ask, update, effect, ◌>>=◌, ◌>>◌, ret, msg}
use nexus_mini.Ui.{
  checked, max_length, View, Element, text, alert, spinner, field, readonly_field, button, each,
}
use nexus_mini.Form.{error_alert}

pub record Profile : Type 0 where
  pub slug : String
  pub name : String
  pub legal_name : String
  pub registration_number : String
  pub tax_number : String
  pub address : String
  pub phone : String
  pub email : String
  pub website : String

-- The keys of `FIELDS`, with `p[f.key]` and `{ ...p, [f.key]: v }`.
pub data Key : Type 0 where
  name legal_name registration_number tax_number address phone email website : Key

unfoldable pub get_key : Key → Profile → String
get_key name p = p.name
get_key legal_name p = p.legal_name
get_key registration_number p = p.registration_number
get_key tax_number p = p.tax_number
get_key address p = p.address
get_key phone p = p.phone
get_key email p = p.email
get_key website p = p.website

unfoldable pub set_key : Key → String → Profile → Profile
set_key name v p = record p { name = v }
set_key legal_name v p = record p { legal_name = v }
set_key registration_number v p = record p { registration_number = v }
set_key tax_number v p = record p { tax_number = v }
set_key address v p = record p { address = v }
set_key phone v p = record p { phone = v }
set_key email v p = record p { email = v }
set_key website v p = record p { website = v }

-- The key, the label and the longest text.
pub record Field : Type 0 where
  pub key : Key
  pub label : String
  pub max : ℕ

-- `FIELDS`
abbrev pub fields : List Field
fields =
    record { key = name; label = "Байгууллагын нэр"; max = 120 }
    ∷ record { key = legal_name; label = "Хуулийн нэр"; max = 200 }
    ∷ record { key = registration_number; label = "Регистрийн дугаар"; max = 32 }
    ∷ record { key = tax_number; label = "ТТД"; max = 32 }
    ∷ record { key = address; label = "Хаяг"; max = 500 }
    ∷ record { key = phone; label = "Утас"; max = 32 }
    ∷ record { key = email; label = "Имэйл"; max = 255 }
    ∷ record { key = website; label = "Вэб сайт"; max = 255 }
    ∷ []

pub record Page : Type 0 where
  pub profile : Option Profile
  pub load_err : String
  pub err : String
  pub busy : Bool

abbrev pub initial : Page
initial = record { profile = none; load_err = ""; err = ""; busy = false }

pub data Request : Type 0 where
  get_profile : Request
  put_profile : Profile → Request

abbrev pub Reply : Request → Type 0
Reply get_profile = Profile
Reply (put_profile p) = Unit {0}

pub data Effect : Type 0 where
  toast : String → Effect
  refresh : Effect

abbrev pub Handler : Type 0
Handler = Proc Request Reply Effect Page (Unit {0})

pub data Action : Type 0 where
  change : Profile → Action
  save : Action

module _ (t : String → String) where
  abbrev pub loaded : Answer Profile → Page → Page
  loaded (ok p) s = record s { profile = some p }
  loaded (fail e) s = record s { load_err = msg e (t "Алдаа гарлаа") }

  -- The effect, on a page that stays open.
  unfoldable pub mount : Handler
  mount = do r ← ask get_profile; update (loaded r)

  abbrev pub answered : Answer (Unit {0}) → Handler
  answered (ok u) = effect (toast (t "Хадгалагдлаа")) >> effect refresh
  answered (fail e) = update (λ s. record s { err = msg e (t "Алдаа гарлаа") })

  -- `save`, over the profile that is shown; the busy state ends in its `finally`.
  unfoldable pub save_profile : Option Profile → Handler
  save_profile none = ret tt
  save_profile (some p) = do
    update (λ s. record s { err = "" })
    update (λ s. record s { busy = true })
    r ← ask (put_profile p)
    answered r
    update (λ s. record s { busy = false })

  abbrev pub input : Bool → Profile → Field → View Action
  input can_edit p f =
      (if can_edit
        then checked (max_length f.max ∷ [])
            (field (t f.label) (get_key f.key p) (λ v. change (set_key f.key v p)))
        else readonly_field (t f.label) (get_key f.key p))
      ∷ []

  abbrev pub form : Bool → Bool → String → Profile → View Action
  form can_edit busy err p =
      error_alert err
      ++ (readonly_field "Slug" p.slug ∷ each (input can_edit p) fields
          ++ (if can_edit
              then button (t "Хадгалах") busy save
              else text (t "Засах эрхгүй — зөвхөн харах"))
            ∷ [])

  abbrev pub form_or_spinner : Bool → Page → Option Profile → View Action
  form_or_spinner can_edit s none = spinner (t "Уншиж байна…") ∷ []
  form_or_spinner can_edit s (some p) = form can_edit s.busy s.err p

  -- `can_edit` is the permission `core.settings.manage`.
  unfoldable pub view : Bool → Page → View Action
  unfolding get_key set_key
  view can_edit s =
      if s.load_err == ""
      then form_or_spinner can_edit s s.profile
      else alert "danger" s.load_err ∷ []
