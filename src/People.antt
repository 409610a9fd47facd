-- ===== src/People.antt =====
-- backend/apps/organisation/ui/pages/people/page.tsx: the department and the job of each member.
pub mod PersonDialog
pub mod Editing
use nexus_mini.Prelude.{
  String, Bool, true, false, List, [], ◌∷◌, ◌++◌, Option, none, some, filter, ◌==◌, if◌then◌else◌,
}
use nexus_mini.Runtime.{Fault, Answer, ok, fail, Proc, ret, ask, update, ◌>>=◌, ◌>>◌, msg}
use nexus_mini.Ui.{View, Element, text, alert, spinner, empty_state, button, when, each}
use nexus_mini.Form.{or_blank}

pub record Person : Type 0 where
  pub membership_id : String
  pub user_id : String
  pub name : String
  pub department_id : Option String
  pub department_name : String
  pub job_title : String

pub record Dept : Type 0 where
  pub id : String
  pub name : String
  pub active : Bool

pub record PersonForm : Type 0 where
  pub membership_id : String
  pub name : String
  pub department_id : String
  pub job_title : String

unfoldable pub form_of : Person → PersonForm
form_of p = record {
  membership_id = p.membership_id;
  name = p.name;
  department_id = or_blank p.department_id;
  job_title = p.job_title;
}

pub record Page : Type 0 where
  pub people : Option (List Person)
  pub depts : List Dept
  pub load_err : String
  pub form : Option PersonForm

abbrev pub initial : Page
initial = record { people = none; depts = []; load_err = ""; form = none }

-- `get_people_and_departments` is the `Promise.all` of the two GETs: both lists, or the first error.
pub data Request : Type 0 where
  get_people_and_departments : Request

abbrev pub Reply : Request → Type 0
Reply get_people_and_departments = List Person × List Dept

pub data Effect : Type 0 where

abbrev pub Handler : Type 0
Handler = Proc Request Reply Effect Page (Unit {0})

abbrev pub is_active : Dept → Bool
is_active d = d.active

abbrev pub loaded : Answer (List Person × List Dept) → Page → Page
loaded (ok (people, depts)) s = record s {
  people = some people;
  depts = filter is_active depts;
  load_err = "";
}
loaded (fail e) s = record s { load_err = msg e "Алдаа гарлаа"; people = some [] }

unfoldable pub load : Handler
load = do r ← ask get_people_and_departments; update (loaded r)

-- `onSaved` of the dialog.
unfoldable pub on_saved : Handler
unfolding load
on_saved = update (λ s. record s { form = none }) >> load

pub data Action : Type 0 where
  edit : Person → Action

-- A click on a row's pencil.
unfoldable pub press : Action → Page → Page
unfolding form_of
press (edit p) s = record s { form = some (form_of p) }

abbrev pub or_dash : String → String
or_dash s = if s == "" then "—" else s

module _ (t : String → String) where
  -- `manage` is the permission `organisation.manage`.
  pub row : Bool → Person → View Action
  row manage p =
      text p.name
      ∷ text (or_dash p.department_name)
      ∷ text (or_dash p.job_title)
      ∷ when manage (button (t "засах") false (edit p) ∷ [])

  pub table : Bool → Option (List Person) → View Action
  unfolding row
  table manage none = spinner (t "Уншиж байна…") ∷ []
  table manage (some []) = empty_state (t "Гишүүн байхгүй") "" ∷ []
  table manage (some (p ∷ ps)) =
      text (t "Нэр") ∷ text (t "Хэлтэс") ∷ text (t "Албан тушаал") ∷ each (row manage) (p ∷ ps)

  unfoldable pub view : Bool → Page → View Action
  unfolding table
  view manage s =
      if s.load_err == "" then table manage s.people else alert "danger" (t s.load_err) ∷ []
