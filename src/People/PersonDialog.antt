-- ===== src/People/PersonDialog.antt =====
-- `PersonDialog` of backend/apps/organisation/ui/pages/people/page.tsx.
use nexus_mini.Prelude.{String, List, [], ◌∷◌, ◌++◌, map, Option, ◌==◌, if◌then◌else◌}
use nexus_mini.Runtime.{Proc, effect, ◌>>◌}
use nexus_mini.Ui.{checked, max_length, View, text, field, select}
use nexus_mini.Form.{Dialog, FormAction, set_form, save, or_null, error_alert, footer}
use nexus_mini.People.{Dept, PersonForm}

-- `NO_DEPT`, the value of the entry for no department.
abbrev pub no_dept : String
no_dept = "__none__"

pub record Body : Type 0 where
  pub department_id : Option String
  pub job_title : String

unfoldable pub body_of : PersonForm → Body
body_of form = record { department_id = or_null form.department_id; job_title = form.job_title }

pub data Request : Type 0 where
  put_person : String → Body → Request

abbrev pub Reply : Request → Type 0
Reply (put_person id body) = Unit {0}

pub data Effect : Type 0 where
  toast : String → Effect
  on_saved : Effect

unfoldable pub chosen : String → String
chosen v = if v == no_dept then "" else v

module _ (t : String → String) where
  unfoldable pub submit : PersonForm → Proc Request Reply Effect (Dialog PersonForm) (Unit {0})
  unfolding body_of save
  submit form =
      save (t "Алдаа гарлаа") (put_person form.membership_id (body_of form))
        λ r. effect (toast (t "Хадгалагдлаа")) >> effect on_saved

  abbrev entry : Dept → String × String
  entry d = (d.id, d.name)

  unfoldable pub view : List Dept → Dialog PersonForm → View (FormAction PersonForm)
  unfolding chosen
  view depts d =
      text d.form.name ∷ error_alert d.err
      ++ (select (t "Хэлтэс") (if d.form.department_id == "" then no_dept else d.form.department_id)
            ((no_dept, "—") ∷ map entry depts)
            (λ v. set_form (record d.form { department_id = chosen v }))
          ∷ checked (max_length 120 ∷ []) (
              field (t "Албан тушаал") d.form.job_title
                (λ v. set_form (record d.form { job_title = v })))
          ∷ footer (t "Болих") (t "Хадгалах") d.busy)
