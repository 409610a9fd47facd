-- ===== src/Roles.antt =====
-- frontend/app/(portal)/roles/page.tsx: the matrix of roles and permissions.
pub mod Grants
pub mod Matrix
pub mod CreateRole
use Prim.Native.Char.{code as unit_of}
use Prim.Native.String
use nexus_mini.Prelude.{
  ℕ, String, ◌≡◌, Bool, true, false, not, ◌&&◌, List, [], ◌∷◌, ◌++◌, Option, none, some, ◌==◌,
  eq_iff, nat_eq, if◌then◌else◌, is_empty,
}
use nexus_mini.GroupBy.{Key, fill}
use nexus_mini.Runtime.{Fault, Answer, ok, fail, Proc, ret, ask, update, effect, ◌>>=◌, ◌>>◌, msg}
use nexus_mini.Ui.{View, Element, text, code, alert, spinner, button, field, when, each}

pub data Scope : Type 0 where
  all own : Scope

-- `Record<string, "all" | "own">`
abbrev pub Grants : Type 0
Grants = List (String × Scope)

pub record Role : Type 0 where
  pub id : String
  pub code : String
  pub name : String
  pub implies : String
  pub active : Bool
  pub grants : Grants

pub record Permission : Type 0 where
  pub code : String
  pub module_id : String
  pub name : String
  pub description : String
  pub own_scope : Bool

-- `grants[code]`
unfoldable pub lookup : String → Grants → Option Scope
lookup code' [] = none
lookup code' ((k, v) ∷ rest) = let other = lookup code' rest in if k == code' then some v else other

-- `grants[code] = scope`
pub set_grant : String → Scope → Grants → Grants
set_grant code' v [] = (code', v) ∷ []
set_grant code' v ((k, w) ∷ rest) =
    let other = set_grant code' v rest in if k == code' then (k, v) ∷ rest else (k, w) ∷ other

-- `delete grants[code]`; a key stands at one place of an object at most, so all are dropped.
pub delete_grant : String → Grants → Grants
delete_grant code' [] = []
delete_grant code' ((k, w) ∷ rest) =
    let other = delete_grant code' rest in if k == code' then other else (k, w) ∷ other

-- The next state of a cell: — → all → own (where the permission has it) → —.
pub next_scope : Bool → Option Scope → Option Scope
next_scope own_scope none = some all
next_scope own_scope (some all) = if own_scope then some own else none
next_scope own_scope (some own) = none

abbrev pub put_scope : String → Option Scope → Grants → Grants
put_scope code' (some v) grants = set_grant code' v grants
put_scope code' none grants = delete_grant code' grants

-- The grants that a click on the cell asks the server for.
unfoldable pub cycled : Role → Permission → Grants
unfolding lookup set_grant delete_grant next_scope
cycled role p = put_scope p.code (next_scope p.own_scope (lookup p.code role.grants)) role.grants

-- `p.code.split('.')[0]`
pub before_dot : String → String
before_dot String.[] = String.[]
before_dot (String.◌∷◌ c s) =
    let rest = before_dot s in if nat_eq (unit_of c) b'.' then String.[] else String.◌∷◌ c rest

pub group_of : Permission → String
unfolding before_dot
group_of p = if p.module_id == "core" then "core" else before_dot p.code

abbrev pub string_key : Key String
string_key = record { same = ◌==◌; same_iff = eq_iff }

-- `groups`
unfoldable pub groups : List Permission → List (String × List Permission)
unfolding group_of
groups perms = fill string_key group_of [] perms

pub record Page : Type 0 where
  pub roles : Option (List Role)
  pub perms : List Permission
  pub err : String
  pub creating : Bool

abbrev pub initial : Page
initial = record { roles = none; perms = []; err = ""; creating = false }

-- `load_all` is the `Promise.all` of the two GETs: both lists, or the first error.
pub data Request : Type 0 where
  load_all : Request
  put_grants : String → Grants → Request

abbrev pub Reply : Request → Type 0
Reply load_all = List Role × List Permission
Reply (put_grants id grants) = Unit {0}

pub data Effect : Type 0 where
  toast : String → Effect

abbrev pub Handler : Type 0
Handler = Proc Request Reply Effect Page (Unit {0})

module _ (t : String → String) where
  unfoldable pub load : Handler
  load = do
    r ← ask load_all
    elim r [
      | ok (roles, perms) ↦ do
        update (λ s. record s { roles = some roles })
        update (λ s. record s { perms = perms })
      | fail e ↦ do
        update (λ s. record s { err = msg e (t "Алдаа гарлаа") })
        update (λ s. record s { roles = some [] })
    ]

  -- `cycle`: a click on a cell. The role of the code `admin` is left alone.
  unfoldable pub cycle : Role → Permission → Handler
  unfolding load cycled
  cycle role p = if role.code == "admin" then ret tt else do
    r ← ask (put_grants role.id (cycled role p))
    elim r [
      | ok u ↦ do effect (toast (t "Оноолт хадгалагдлаа")); load
      | fail e ↦ update (λ s. record s { err = msg e (t "Алдаа гарлаа") })
    ]

-- What a click on the page asks for.
pub data Action : Type 0 where
  start_creating dismiss_error : Action
  cycle_cell : Role → Permission → Action

module _ (t : String → String) where
  -- `v === 'all' ? t('Бүгд') : v === 'own' ? t('Өөрийн') : '—'`
  pub cell_label : Option Scope → String
  cell_label none = "—"
  cell_label (some all) = t "Бүгд"
  cell_label (some own) = t "Өөрийн"

  -- The cell of a role and a permission; the admin's shows `all` and takes no click.
  pub cell : Permission → Role → View Action
  unfolding cell_label lookup
  cell p r =
      let v = if r.code == "admin" then some all else lookup p.code r.grants in
      button (cell_label v) (r.code == "admin") (cycle_cell r p) ∷ []

  pub group_rows : List Role → (String × List Permission) → View Action
  unfolding cell
  group_rows roles (group, list) =
      text (if group == "core" then t "Платформ" else group)
      ∷ each (λ p. text p.name ∷ code p.code ∷ each (cell p) roles) list

  abbrev header : Role → View Action
  header r =
      text r.name ∷ code r.code ∷ when (not (r.implies == "")) (text (" ⊃ ") ∷ text r.implies ∷ [])

  pub matrix : Option (List Role) → List Permission → View Action
  unfolding group_rows groups
  matrix none perms = spinner (t "Уншиж байна…") ∷ []
  matrix (some roles) perms =
      text "Permission" ∷ each header roles ++ each (group_rows roles) (groups perms)

  -- The page under its title, without the dialog.
  unfoldable pub view : Page → View Action
  unfolding matrix
  view s =
      button (t "Role нэмэх") false start_creating
        ∷ when (not (s.err == "")) (alert "danger" s.err ∷ button "×" false dismiss_error ∷ [])
      ++ matrix s.roles s.perms
