-- ===== src/Departments/DeptDialog.antt =====
-- `DeptDialog` of backend/apps/organisation/ui/pages/departments/page.tsx.
pub mod Choice
use nexus_mini.Prelude.{
  ℕ, zero, suc, ◌*◌, String, Bool, true, false, not, List, [], ◌∷◌, ◌++◌, map, Option, none, some,
  ◌==◌, filter, if◌then◌else◌,
}
use nexus_mini.Runtime.{Proc, effect, ◌>>◌, ◌>>=◌}
use nexus_mini.Ui.{checked, is_required, View, Element, text, field, select, checkbox, when}
use nexus_mini.Form.{Dialog, FormAction, set_form, save, given, or_null, error_alert, footer}
use nexus_mini.Departments.{Dept, Entry}
use nexus_mini.Departments.Register.{Person, DeptForm}

-- `NONE`, the value of the entry for no parent and no manager.
abbrev pub none_value : String
none_value = "__none__"

-- `body`
pub record Body : Type 0 where
  pub code : String
  pub name : String
  pub parent_id : Option String
  pub manager_membership_id : Option String
  pub active : Bool

unfoldable pub body_of : DeptForm → Body
body_of form = record {
  code = form.code;
  name = form.name;
  parent_id = or_null form.parent_id;
  manager_membership_id = or_null form.manager_membership_id;
  active = form.active;
}

pub data Request : Type 0 where
  put_department : String → Body → Request
  post_department : Body → Request

abbrev pub Reply : Request → Type 0
Reply (put_department id body) = Unit {0}
Reply (post_department body) = Unit {0}

pub data Effect : Type 0 where
  toast : String → Effect
  on_saved : Effect

abbrev request_of : Option String → Body → Request
request_of none body = post_department body
request_of (some id) body = put_department id body

-- What the select shows for a value of the form, and what a choice puts into it.
unfoldable pub shown : String → String
shown v = if v == "" then none_value else v

unfoldable pub chosen : String → String
chosen v = if v == none_value then "" else v

-- `x.d.id !== form.id`
abbrev pub is_other : Option String → Entry → Bool
is_other none x = true
is_other (some id) x = not (x.dept.id == id)

module _ (t : String → String) where
  unfoldable pub submit : DeptForm → Proc Request Reply Effect (Dialog DeptForm) (Unit {0})
  unfolding body_of save
  submit form =
      save (t "Алдаа гарлаа") (request_of (given form.id) (body_of form))
        λ r. effect (toast (t "Хадгалагдлаа")) >> effect on_saved

  -- A department of the select, by its value and its text without the indent.
  abbrev entry : Entry → String × String
  entry x = (x.dept.id, x.dept.name)

  -- The entries of the select for the parent.
  unfoldable pub parents : Option String → List Entry → List (String × String)
  parents id tree =
      (none_value, t "— байхгүй (дээд түвшин) —") ∷ map entry (filter (is_other id) tree)

  abbrev person : Person → String × String
  person p = (p.membership_id, p.name)

  abbrev title : Option String → String
  title none = t "Нэгж нэмэх"
  title (some id) = t "Нэгж засах"

  abbrev is_old : Option String → Bool
  is_old none = false
  is_old (some id) = true

  unfoldable pub view : List Entry → List Person → Dialog DeptForm → View (FormAction DeptForm)
  unfolding parents shown chosen
  view tree people d =
      text (title (given d.form.id)) ∷ error_alert d.err
      ++ (checked (is_required ∷ [])
              (field (t "Нэр") d.form.name (λ v. set_form (record d.form { name = v })))
            ∷ checked (is_required ∷ [])
                (field (t "Код") d.form.code (λ v. set_form (record d.form { code = v })))
            ∷ select (t "Дээд нэгж") (shown d.form.parent_id) (parents d.form.id tree)
                (λ v. set_form (record d.form { parent_id = chosen v }))
            ∷ select (t "Менежер") (shown d.form.manager_membership_id)
                ((none_value, "—") ∷ map person people)
                (λ v. set_form (record d.form { manager_membership_id = chosen v }))
            ∷ when (is_old (given d.form.id)) (
                checkbox (t "Идэвхтэй") d.form.active (λ v. set_form (record d.form { active = v }))
                ∷ [])
          ++ footer (t "Болих") (t "Хадгалах") d.busy)
