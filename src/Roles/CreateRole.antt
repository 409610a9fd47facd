-- ===== src/Roles/CreateRole.antt =====
-- `CreateRoleDialog` of frontend/app/(portal)/roles/page.tsx.
use Prim.Native.String.{◌++◌ as ◌<>◌}
use nexus_mini.Prelude.{String, List, [], ◌∷◌, ◌++◌, map, ◌==◌, if◌then◌else◌}
use nexus_mini.Runtime.{Proc, effect, ◌>>◌}
use nexus_mini.Ui.{checked, is_required, View, text, field, select}
use nexus_mini.Form.{Dialog, FormAction, set_form, save, error_alert, footer}
use nexus_mini.Roles.{Role}

-- `NO_IMPLIES`, the value of the entry for no role to inherit from.
abbrev pub no_implies : String
no_implies = "__none__"

pub record RoleForm : Type 0 where
  pub code : String
  pub name : String
  pub implies : String

abbrev pub empty_form : RoleForm
empty_form = record { code = ""; name = ""; implies = "" }

pub data Request : Type 0 where
  post_role : RoleForm → Request

abbrev pub Reply : Request → Type 0
Reply (post_role form) = Unit {0}

pub data Effect : Type 0 where
  toast : String → Effect
  on_created : Effect

unfoldable pub chosen : String → String
chosen v = if v == no_implies then "" else v

module _ (t : String → String) where
  unfoldable pub submit : RoleForm → Proc Request Reply Effect (Dialog RoleForm) (Unit {0})
  unfolding save
  submit form =
      save (t "Алдаа гарлаа") (post_role form)
        λ r. effect (toast (t "Role үүслээ")) >> effect on_created

  -- The value of an entry is the role's code; its text is the name with the code behind it.
  abbrev pub entry : Role → String × String
  entry r = (r.code, r.name <> (" (" <> (r.code <> ")")))

  unfoldable pub view : List Role → Dialog RoleForm → View (FormAction RoleForm)
  unfolding chosen
  view roles d =
      text (t "Role нэмэх") ∷ error_alert d.err
      ++ (checked (is_required ∷ [])
            (field (t "Код") d.form.code (λ v. set_form (record d.form { code = v })))
          ∷ checked (is_required ∷ [])
              (field (t "Нэр") d.form.name (λ v. set_form (record d.form { name = v })))
          ∷ select (t "Өвлөх role (сонголттой)")
              (if d.form.implies == "" then no_implies else d.form.implies)
              ((no_implies, t "— өвлөхгүй —") ∷ map entry roles)
              (λ v. set_form (record d.form { implies = chosen v }))
          ∷ footer (t "Болих") (t "Үүсгэх") d.busy)
