-- ===== src/Devices.antt =====
-- backend/apps/devices/ui/pages/page.tsx: the register of devices, its search and its dialog.
pub mod Search
pub mod Table
pub mod DeviceDialog
use nexus_mini.Prelude.{
  ℕ, suc, String, Bool, true, false, not, ◌&&◌, ◌||◌, List, [], ◌∷◌, ◌++◌, Option, none, some, ◌==◌,
  if◌then◌else◌,
}
use nexus_mini.Runtime.{Fault, Answer, ok, fail, Proc, ret, ask, update, effect, ◌>>=◌, ◌>>◌, msg}
use nexus_mini.Ui.{
  View, Element, text, code, badge, alert, spinner, empty_state, button, field, when, each,
}

pub data Status : Type 0 where
  active repair lost retired : Status

pub record Device : Type 0 where
  pub id : String
  pub name : String
  pub kind : String
  pub serial : String
  pub status : Status
  pub note : String
  pub created_by : String
  pub owner_name : String
  pub created_at : String

-- `STATUS`
abbrev pub status_label : Status → String
status_label active = "Ашиглагдаж байгаа"
status_label repair = "Засварт"
status_label lost = "Алдагдсан"
status_label retired = "Хассан"

abbrev pub status_tone : Status → String
status_tone active = "success"
status_tone repair = "warning"
status_tone lost = "danger"
status_tone retired = "neutral"

pub record DeviceForm : Type 0 where
  pub id : Option String
  pub name : String
  pub kind : String
  pub serial : String
  pub status : Status
  pub note : String

abbrev pub empty_form : DeviceForm
empty_form = record { id = none; name = ""; kind = ""; serial = ""; status = active; note = "" }

unfoldable pub form_of : Device → DeviceForm
form_of d = record {
  id = some d.id;
  name = d.name;
  kind = d.kind;
  serial = d.serial;
  status = d.status;
  note = d.note;
}

pub data Scope : Type 0 where
  all own : Scope

pub record Page : Type 0 where
  pub devices : Option (List Device)
  pub load_err : String
  pub q : String
  pub form : Option DeviceForm
  pub removing : Option Device

abbrev pub initial : Page
initial = record { devices = none; load_err = ""; q = ""; form = none; removing = none }

-- What an answer to the search makes of the page, by the `try` and the `catch` of `load`.
unfoldable pub loaded : Answer (List Device) → Page → Page
loaded (ok devices) s = record s { devices = some devices; load_err = "" }
loaded (fail e) s = record s { devices = some []; load_err = msg e "Алдаа гарлаа" }

pub data Request : Type 0 where
  get_devices : String → Request
  del_device : String → Request

abbrev pub Reply : Request → Type 0
Reply (get_devices query) = List Device
Reply (del_device id) = Unit {0}

pub data Effect : Type 0 where
  toast : String → Effect

abbrev pub Handler : Type 0 → Type 0
Handler A = Proc Request Reply Effect Page A

unfoldable pub load : String → Handler (Unit {0})
unfolding loaded
load query = do r ← ask (get_devices query); update (loaded r)

module _ (t : String → String) where
  abbrev pub removed : String → Answer (Unit {0}) → Handler (Answer (Unit {0}))
  removed q (ok u) = do effect (toast (t "Устгагдлаа")); load q; ret (ok tt)
  removed q (fail e) = ret (fail e)

  -- `onConfirm` of the removal, over the search and the device of the page; an error is left to the
  -- dialog.
  unfoldable pub confirm_removal : String → Option Device → Handler (Answer (Unit {0}))
  unfolding load
  confirm_removal q none = ret (ok tt)
  confirm_removal q (some d) = do r ← ask (del_device d.id); removed q r

pub data Action : Type 0 where
  search_for : String → Action
  add : Action
  edit remove : Device → Action

-- `canEdit`; `manage` is `me.permissions["devices.manage"]`.
pub can_edit : Option Scope → String → Device → Bool
can_edit none user_id d = false
can_edit (some all) user_id d = true
can_edit (some own) user_id d = d.created_by == user_id

abbrev pub is_given : Option Scope → Bool
is_given none = false
is_given (some x) = true

module _ (t : String → String) (manage : Option Scope) (user_id : String) where
  abbrev pub edit_buttons : Device → View Action
  edit_buttons d = button (t "засах") false (edit d) ∷ button (t "устгах") false (remove d) ∷ []

  pub row : Device → View Action
  row d =
      text d.name ∷ when (not (d.note == "")) (text d.note ∷ [])
      ++ (text (if d.kind == "" then "—" else d.kind)
          ∷ code d.serial
          ∷ badge (status_tone d.status) (t (status_label d.status))
          ∷ text d.owner_name
          ∷ when (can_edit manage user_id d) (edit_buttons d))

  pub table : String → Option (List Device) → View Action
  unfolding row
  table q none = spinner (t "Уншиж байна…") ∷ []
  table q (some []) =
      empty_state (if q == "" then t "Бүртгэл хоосон" else t "Илэрц алга")
        (if q == "" then t "Эхний төхөөрөмжөө бүртгээрэй" else "")
      ∷ []
  table q (some (d ∷ ds)) =
      text (t "Нэр")
      ∷ text (t "Төрөл")
      ∷ text (t "Сериал")
      ∷ text (t "Статус")
      ∷ text (t "Бүртгэсэн")
      ∷ each row (d ∷ ds)

  -- What empties the search, drawn inside its field (`onClear`).
  abbrev pub clear_button : Bool → View Action
  clear_button shown = when shown (button "×" false (search_for "") ∷ [])

  -- The page without its two dialogs. `clears` says for which texts the design system draws the
  -- clearing of a field that is `clearable`.
  unfoldable pub view : (String → Bool) → Page → View Action
  unfolding table
  view clears s =
      field (t "Хайх…") s.q search_for ∷ clear_button (clears s.q)
      ++ when (is_given manage) (button (t "Бүртгэх") false add ∷ [])
      ++ (if s.load_err == "" then table s.q s.devices else alert "danger" (t s.load_err) ∷ [])
