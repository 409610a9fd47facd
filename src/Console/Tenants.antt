-- ===== src/Console/Tenants.antt =====
-- admin/app/(panel)/tenants/page.tsx: the organisations of the platform. `date` is `formatDate`.
pub mod StateDialog
pub mod MembersDialog
pub mod Changes
use nexus_mini.Prelude.{
  ℕ, String, Bool, true, false, not, ◌&&◌, List, [], ◌∷◌, ◌++◌, Option, none, some, is_empty,
  if◌then◌else◌,
}
use nexus_mini.Runtime.{Fault}
use nexus_mini.Store.{message_of}
use nexus_mini.Resource.{ResourceState, Drawn, skeleton, error_with_retry, empty, children, draw}
use nexus_mini.Ui.{
  View, Element, text, code, number, badge, spinner, alert, empty_state, button, when, each,
}
use nexus_mini.Form.{given}

pub record Row : Type 0 where
  pub id : String
  pub slug : String
  pub name : String
  pub created_at : String
  pub suspended : Bool
  pub reason : String
  pub read_only : Bool
  pub deletion_at : Option String
  pub members : ℕ
  pub apps : ℕ

pub record Page : Type 0 where
  pub members_of : Option Row
  pub state_of : Option Row

abbrev pub initial : Page
initial = record { members_of = none; state_of = none }

pub data Action : Type 0 where
  set_members_of set_state_of : Row → Action
  reload : Action

pub data Effect : Type 0 where
  reload_tenants : Effect

-- A click, and `onSaved` of the dialog of a state, with the list's reload.
unfoldable pub press : Action → Page → Page
press (set_members_of r) s = record s { members_of = some r }
press (set_state_of r) s = record s { state_of = some r }
press reload s = s

unfoldable pub on_saved : Page → Page × List Effect
on_saved s = (record s { state_of = none }, reload_tenants ∷ [])

module _ (t : String → String) (date : String → String) where
  abbrev pub deletion_badge : Option String → View Action
  deletion_badge none = []
  deletion_badge (some at') = badge "danger" (t "устгал") ∷ text (date at') ∷ []

  -- The badges behind the name.
  unfoldable pub badges : Row → View Action
  badges r =
      when r.suspended (badge "danger" (t "түдгэлзүүлсэн") ∷ [])
      ++ (when (r.read_only && not r.suspended) (badge "warning" (t "зөвхөн унших") ∷ [])
          ++ deletion_badge (given r.deletion_at))

  pub row : Row → View Action
  unfolding badges
  row r =
      text r.name ∷ badges r
      ++ (code r.slug
          ∷ number r.members
          ∷ number r.apps
          ∷ text (date r.created_at)
          ∷ button (t "Гишүүд") false (set_members_of r)
          ∷ button (t "Төлөв") false (set_state_of r)
          ∷ [])

  abbrev table : List Row → View Action
  table rows =
      text (t "Нэр")
      ∷ text "Slug"
      ∷ text (t "Гишүүд")
      ∷ text (t "Аппууд")
      ∷ text (t "Үүссэн")
      ∷ each row rows

  abbrev drawn : Drawn (List Row) → View Action
  drawn skeleton = []
  drawn (error_with_retry e) =
      alert "danger" (message_of e) ∷ button (t "Дахин оролдох") false reload ∷ []
  drawn empty =
      empty_state (t "Байгууллага алга") (t "Платформ дээр хараахан байгууллага үүсээгүй байна.")
      ∷ []
  drawn (children rows) = table rows

  unfoldable pub view : ResourceState (List Row) → View Action
  unfolding row draw
  view res = text (t "Байгууллагууд") ∷ drawn (draw (some is_empty) res)
