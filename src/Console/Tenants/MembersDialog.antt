-- ===== src/Console/Tenants/MembersDialog.antt =====
-- `MembersDialog` of admin/app/(panel)/tenants/page.tsx: the members of an organisation, and the login
-- in the name of one of them.
pub mod Impersonation
use nexus_mini.Prelude.{
  String, Bool, true, false, not, List, [], ◌∷◌, ◌++◌, Option, none, some, is_empty, ◌==◌,
  if◌then◌else◌,
}
use nexus_mini.Runtime.{Fault, Answer, ok, fail, Proc, ask, update, effect, ◌>>=◌, ◌>>◌, ret, msg}
use nexus_mini.Ui.{View, Element, text, spinner, empty_state, button, when, each}
use nexus_mini.Form.{error_alert}
use nexus_mini.Console.Tenants.{Row}

pub record Member : Type 0 where
  pub id : String
  pub name : String
  pub email : String
  pub platform_admin : Bool
  pub roles : List String

pub record Members : Type 0 where
  pub members : Option (List Member)
  pub err : String
  pub target : Option Member

abbrev pub initial : Members
initial = record { members = none; err = ""; target = none }

pub record Handover : Type 0 where
  pub url : String
  pub token : String

pub data Request : Type 0 where
  get_members : String → Request
  post_impersonate : String → String → Request  -- the organisation and the user

abbrev pub Reply : Request → Type 0
Reply (get_members id) = List Member
Reply (post_impersonate tenant user) = Handover

-- `submit_form` posts a hidden field `token` to an address in a new tab.
pub data Effect : Type 0 where
  submit_form : String → String → Effect
  toast : String → Effect

abbrev pub Handler : Type 0 → Type 0
Handler A = Proc Request Reply Effect Members A

pub data Action : Type 0 where
  set_target : Member → Action
  close : Action

unfoldable pub press : Action → Members → Members
press (set_target m) s = record s { target = some m }
press close s = s

module _ (t : String → String) (row : Row) where
  abbrev received : Answer (List Member) → Members → Members
  received (ok members) s = record s { members = some members }
  received (fail e) s = record s { err = msg e (t "Алдаа гарлаа") }

  -- What the answer to the effect's request makes of the dialog; `alive` is false once it is closed.
  unfoldable pub receive : Bool → Answer (List Member) → Members → Members
  receive alive a s = if alive then received a s else s

  -- `impersonate`
  unfoldable pub impersonate : Member → Handler (Answer (Unit {0}))
  impersonate m = do
    r ← ask (post_impersonate row.id m.id)
    elim r [
      | ok h ↦ do
        effect (submit_form h.url h.token)
        effect (toast (t "Handover холбоос нээгдлээ (60 секунд хүчинтэй)"))
        ret (ok tt)
      | fail e ↦ ret (fail e)
    ]

  -- `onConfirm`; an error is left to the dialog.
  unfoldable pub confirm : Option Member → Handler (Answer (Unit {0}))
  unfolding impersonate
  confirm none = ret (ok tt)
  confirm (some m) = impersonate m

  -- `m.roles.join(", ") || "—"`, one text for each role.
  abbrev pub role_texts : List String → View Action
  role_texts [] = text "—" ∷ []
  role_texts (r ∷ rs) = each (λ x. text x ∷ []) (r ∷ rs)

  pub line : Member → View Action
  line m =
      text m.name ∷ text m.email ∷ role_texts m.roles
      ++ when (not m.platform_admin) (button (t "Нэрийн өмнөөс нэвтрэх") false (set_target m) ∷ [])

  pub table : String → Option (List Member) → View Action
  unfolding line
  table err none = if err == "" then spinner (t "Уншиж байна…") ∷ [] else []
  table err (some []) = empty_state (t "Гишүүн байхгүй") "" ∷ []
  table err (some (m ∷ ms)) = text (t "Нэр") ∷ text (t "Имэйл") ∷ text "Role" ∷ each line (m ∷ ms)

  unfoldable pub view : Members → View Action
  unfolding table
  view s =
      text row.name ∷ error_alert s.err
      ++ (table s.err s.members ++ (button (t "Хаах") false close ∷ []))
