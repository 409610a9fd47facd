-- ===== src/Members.antt =====
-- frontend/app/(portal)/members/page.tsx: the members of an organisation and their roles.
pub mod Changes
pub mod Table
pub mod Adding
use nexus_mini.Prelude.{
  String, Bool, true, false, not, ◌&&◌, List, [], ◌∷◌, ◌++◌, map, Option, none, some, ◌==◌, any,
  filter, is_empty, if◌then◌else◌,
}
use nexus_mini.Runtime.{Fault, Answer, ok, fail, Proc, ret, ask, update, effect, ◌>>=◌, ◌>>◌, msg}
use nexus_mini.Ui.{View, Element, text, alert, spinner, empty_state, button, when, each}
use nexus_mini.Roles.{Role}

pub record Member : Type 0 where
  pub membership_id : String
  pub user_id : String
  pub name : String
  pub email : String
  pub roles : List String

pub record Page : Type 0 where
  pub members : Option (List Member)
  pub roles : List Role
  pub load_err : String
  pub adding : Bool
  pub removing : Option Member

abbrev pub initial : Page
initial = record { members = none; roles = []; load_err = ""; adding = false; removing = none }

-- `get_members_and_roles` is the `Promise.all` of the two GETs: both lists, or the first error. The
-- roles are asked for only by who may manage them.
pub data Request : Type 0 where
  get_members_and_roles get_members : Request
  put_roles : String → List String → Request
  del_member : String → Request

abbrev pub Reply : Request → Type 0
Reply get_members_and_roles = List Member × List Role
Reply get_members = List Member
Reply (put_roles id roles) = Unit {0}
Reply (del_member id) = Unit {0}

pub data Effect : Type 0 where
  toast : String → String → Effect  -- title, variant

abbrev pub Handler : Type 0 → Type 0
Handler A = Proc Request Reply Effect Page A

-- `roles.includes(code)`
abbrev pub includes : String → List String → Bool
includes code' roles = any (λ r. r == code') roles

-- `roleCodes`
unfoldable pub role_codes : List Role → List String
role_codes roles =
    if is_empty roles then "admin" ∷ "manager" ∷ "user" ∷ [] else map (λ r. r.code) roles

-- `next` of `setMemberRoles`
unfoldable pub next_roles : List String → String → Bool → List String
next_roles roles code' on =
    if on then roles ++ (code' ∷ []) else filter (λ r. not (r == code')) roles

module _ (t : String → String) where
  abbrev show_members : List Member → List Role → Handler (Unit {0})
  show_members members roles = do
    update (λ s. record s { members = some members })
    update (λ s. record s { roles = roles })

  abbrev load_failed : Fault → Handler (Unit {0})
  load_failed e = update (λ s. record s { load_err = msg e (t "Алдаа гарлаа") })

  -- `load`; `can` is `me.permissions["core.roles.manage"]`.
  unfoldable pub load : Bool → Handler (Unit {0})
  load true = do
    r ← ask get_members_and_roles
    elim r [ ok (members, roles) ↦ show_members members roles | fail e ↦ load_failed e ]
  load false = do
    r ← ask get_members
    elim r [ ok members ↦ show_members members [] | fail e ↦ load_failed e ]

  -- The toast after a change of roles.
  abbrev pub told : Answer (Unit {0}) → Effect
  told (ok u) = toast (t "Role шинэчлэгдлээ") "success"
  told (fail e) = toast (msg e (t "Алдаа гарлаа")) "danger"

  -- `setMemberRoles`
  unfoldable pub set_member_roles : Bool → Member → String → Bool → Handler (Unit {0})
  unfolding load next_roles
  set_member_roles can m code' on = do
    r ← ask (put_roles m.membership_id (next_roles m.roles code' on))
    effect (told r)
    load can

  -- `onConfirm` of the removal, over the member that the state then has; an error is left to the
  -- dialog.
  unfoldable pub confirm_removal : Bool → Option Member → Handler (Answer (Unit {0}))
  unfolding load
  confirm_removal can none = ret (ok tt)
  confirm_removal can (some m) = do
    r ← ask (del_member m.membership_id)
    elim r [
      | ok u ↦ do effect (toast (t "Гишүүн хасагдлаа") "success"); load can; ret (ok tt)
      | fail e ↦ ret (fail e)
    ]

-- What a click on the page asks for.
pub data Action : Type 0 where
  start_adding : Action
  toggle_role : Member → String → Bool → Action
  start_removing : Member → Action

module _ (t : String → String) (user_id : String) where
  -- `RoleToggles` of a member's row; one's own are disabled.
  abbrev pub toggle : Member → String → View Action
  toggle m code' =
      button code' (m.user_id == user_id) (toggle_role m code' (not (includes code' m.roles))) ∷ []

  abbrev pub removal : Member → View Action
  removal m = when (not (m.user_id == user_id)) (button (t "Хасах") false (start_removing m) ∷ [])

  pub row : List String → Member → View Action
  row codes m = text m.name ∷ text m.email ∷ each (toggle m) codes ++ removal m

  pub table : List String → List Member → View Action
  unfolding row
  table codes [] = empty_state (t "Гишүүн алга") "" ∷ []
  table codes (m ∷ rest) =
      text (t "Нэр") ∷ text (t "Имэйл") ∷ text "Role" ∷ each (row codes) (m ∷ rest)

  pub body : List Role → Option (List Member) → View Action
  unfolding table role_codes
  body roles none = spinner (t "Уншиж байна…") ∷ []
  body roles (some members) = table (role_codes roles) members

  -- The page under its title, without the dialogs.
  unfoldable pub view : Page → View Action
  unfolding body
  view s =
      button (t "Гишүүн нэмэх") false start_adding
      ∷ (if s.load_err == "" then body s.roles s.members else alert "danger" s.load_err ∷ [])
