-- ===== src/Departments/Register.antt =====
-- The page of backend/apps/organisation/ui/pages/departments/page.tsx around the tree.
pub mod Offered
use nexus_mini.Prelude.{
  String, Bool, true, false, not, List, [], ◌∷◌, ◌++◌, Option, none, some, ◌==◌, if◌then◌else◌,
}
use nexus_mini.Runtime.{Fault, Answer, ok, fail, Proc, ret, ask, update, effect, ◌>>=◌, ◌>>◌, msg}
use nexus_mini.Ui.{
  View, Element, text, code, number, badge, alert, spinner, empty_state, button, when, each,
}
use nexus_mini.Form.{or_blank}
use nexus_mini.Departments.{Dept, Entry, flatten}

pub record Person : Type 0 where
  pub membership_id : String
  pub name : String

-- `Form`; the empty text is no parent and no manager.
pub record DeptForm : Type 0 where
  pub id : Option String
  pub code : String
  pub name : String
  pub parent_id : String
  pub manager_membership_id : String
  pub active : Bool

abbrev pub empty_form : DeptForm
empty_form = record {
  id = none;
  code = "";
  name = "";
  parent_id = "";
  manager_membership_id = "";
  active = true;
}

-- The form that the pencil of a row opens.
unfoldable pub form_of : Dept → DeptForm
form_of d = record {
  id = some d.id;
  code = d.code;
  name = d.name;
  parent_id = or_blank d.parent_id;
  manager_membership_id = or_blank d.manager_membership_id;
  active = d.active;
}

pub record Page : Type 0 where
  pub depts : Option (List Dept)
  pub people : List Person
  pub load_err : String
  pub form : Option DeptForm
  pub removing : Option Dept

abbrev pub initial : Page
initial = record { depts = none; people = []; load_err = ""; form = none; removing = none }

-- `load` sends both GETs at once. An error of the second is an empty list, so that the first alone
-- decides how the loading ends, and the order in which they are answered changes nothing.
pub data Request : Type 0 where
  get_departments get_people : Request
  del_department : String → Request

abbrev pub Reply : Request → Type 0
Reply get_departments = List Dept
Reply get_people = List Person
Reply (del_department id) = Unit {0}

pub data Effect : Type 0 where
  toast : String → Effect

abbrev pub Handler : Type 0 → Type 0
Handler A = Proc Request Reply Effect Page A

abbrev pub people_or_none : Answer (List Person) → List Person
people_or_none (ok people) = people
people_or_none (fail e) = []

abbrev pub loaded : Answer (List Dept) → List Person → Page → Page
loaded (ok depts) people s = record s { depts = some depts; people = people; load_err = "" }
loaded (fail e) people s = record s { load_err = msg e "Алдаа гарлаа"; depts = some [] }

unfoldable pub load : Handler (Unit {0})
load = do d ← ask get_departments; p ← ask get_people; update (loaded d (people_or_none p))

-- `onSaved` of the dialog.
unfoldable pub on_saved : Handler (Unit {0})
unfolding load
on_saved = update (λ s. record s { form = none }) >> load

pub data Action : Type 0 where
  add : Action
  edit remove : Dept → Action

module _ (t : String → String) where
  abbrev pub removed : Answer (Unit {0}) → Handler (Answer (Unit {0}))
  removed (ok u) = do effect (toast (t "Устгагдлаа")); load; ret (ok tt)
  removed (fail e) = ret (fail e)

  -- `onConfirm` of the removal; an error is left to the dialog.
  unfoldable pub confirm_removal : Option Dept → Handler (Answer (Unit {0}))
  unfolding load
  confirm_removal none = ret (ok tt)
  confirm_removal (some d) = do r ← ask (del_department d.id); removed r

  abbrev pub edit_buttons : Dept → View Action
  edit_buttons d = button (t "засах") false (edit d) ∷ button (t "устгах") false (remove d) ∷ []

  -- A row of the tree; its depth is the indent of the name. `manage` is the permission
  -- `organisation.manage`.
  pub row : Bool → Entry → View Action
  row manage e =
      text e.dept.name ∷ when (not e.dept.active) (badge "neutral" (t "идэвхгүй") ∷ [])
      ++ (code e.dept.code
          ∷ text (if e.dept.manager_name == "" then "—" else e.dept.manager_name)
          ∷ number e.dept.people
          ∷ when manage (edit_buttons e.dept))

  pub table : Bool → Option (List Dept) → View Action
  unfolding row flatten
  table manage none = spinner (t "Уншиж байна…") ∷ []
  table manage (some []) = empty_state (t "Нэгж байхгүй") (t "Эхний хэлтэс/нэгжээ үүсгээрэй") ∷ []
  table manage (some (d ∷ ds)) =
      text (t "Нэгж")
      ∷ text (t "Код")
      ∷ text (t "Менежер")
      ∷ text (t "Ажилтан")
      ∷ each (row manage) (flatten (d ∷ ds))

  unfoldable pub view : Bool → Page → View Action
  unfolding table
  view manage s =
      when manage (button (t "Нэгж нэмэх") false add ∷ [])
      ++ (if s.load_err == "" then table manage s.depts else alert "danger" (t s.load_err) ∷ [])
