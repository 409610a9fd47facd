-- ===== src/Signup.antt =====
-- frontend/app/signup/page.tsx: a new organisation with its first user. The two texts that `slugify`
-- reads and makes are sequences of units; `lower` is `toLowerCase`.
pub mod NewOrg
pub mod Slugs
use nexus_mini.Prelude.{String, Bool, true, false, List, [], ◌∷◌, ◌++◌, if◌then◌else◌}
use nexus_mini.Text.{Text}
use nexus_mini.Slug.{slugify}
use nexus_mini.Runtime.{Proc, effect, ◌>>=◌, ◌>>◌}
use nexus_mini.Ui.{
  checked, email_type, is_required, min_length, View, Element, text, field, area, button,
}
use nexus_mini.Form.{Dialog, save, error_alert}

pub record SignupForm : Type 0 where
  pub name : String
  pub email : String
  pub password : String
  pub tenant_name : Text
  pub tenant_slug : Text

-- The form and `slugTouched`.
pub record Signup : Type 0 where
  pub form : SignupForm
  pub slug_touched : Bool

abbrev pub initial : Signup
initial = record {
  form = record { name = ""; email = ""; password = ""; tenant_name = []; tenant_slug = [] };
  slug_touched = false;
}

-- What is typed into the form.
pub data Typing : Type 0 where
  type_name type_email type_password : String → Typing
  type_tenant_name type_tenant_slug : Text → Typing

module _ (lower : Text → Text) where
  unfoldable pub typed : Typing → Signup → Signup
  typed (type_name v) s = record s { form = record (s.form) { name = v } }
  typed (type_email v) s = record s { form = record (s.form) { email = v } }
  typed (type_password v) s = record s { form = record (s.form) { password = v } }
  typed (type_tenant_name v) s = record s {
    form = record (s.form) {
      tenant_name = v;
      tenant_slug = if s.slug_touched then s.form.tenant_slug else slugify lower v;
    };
  }
  typed (type_tenant_slug v) s = record s {
    slug_touched = true;
    form = record (s.form) { tenant_slug = slugify lower v };
  }

  unfoldable pub typings : List Typing → Signup → Signup
  unfolding typed
  typings [] s = s
  typings (e ∷ es) s = typings es (typed e s)

pub data Request : Type 0 where
  post_signup : SignupForm → Request

abbrev pub Reply : Request → Type 0
Reply (post_signup form) = Unit {0}

pub data Effect : Type 0 where
  router_replace : String → Effect

pub data Action : Type 0 where
  type_in : Typing → Action
  send : Action

module _ (t : String → String) where
  unfoldable pub submit : Signup → Proc Request Reply Effect (Dialog Signup) (Unit {0})
  unfolding save
  submit s = save (t "Алдаа гарлаа") (post_signup s.form) λ u. effect (router_replace "/store")

  unfoldable pub view : Dialog Signup → View Action
  view d =
      text (t "Байгууллагаа бүртгүүлэх")
        ∷ text (t "Бүртгүүлмэгц app store-оос модулиа сонгоно")
        ∷ error_alert d.err
      ++ (checked (is_required ∷ [])
            (field (t "Таны нэр") d.form.form.name (λ v. type_in (type_name v)))
          ∷ checked (email_type ∷ is_required ∷ [])
              (field (t "Имэйл") d.form.form.email (λ v. type_in (type_email v)))
          ∷ checked (is_required ∷ min_length 8 ∷ [])
              (field (t "Нууц үг") d.form.form.password (λ v. type_in (type_password v)))
          ∷ checked (is_required ∷ []) (
              area (t "Байгууллагын нэр") d.form.form.tenant_name
                (λ v. type_in (type_tenant_name v)))
          ∷ checked (is_required ∷ []) (
              area (t "Богино нэр (slug)") d.form.form.tenant_slug
                (λ v. type_in (type_tenant_slug v)))
          ∷ button (t "Бүртгүүлэх") d.busy send
          ∷ [])
