-- ===== src/Shell.antt =====
-- frontend/components/shell.tsx: how the portal starts, and what it shows until a page can be shown.
pub mod Menu
pub mod Loading
pub mod Navigation
pub mod Blocked
pub mod Frame
use nexus_mini.Prelude.{
  ℕ, zero, suc, String, ◌≡◌, Bool, true, false, not, ◌&&◌, List, [], ◌∷◌, Option, none, some, ◌==◌,
  if◌then◌else◌,
}
use nexus_mini.Text.{Text}
use nexus_mini.Runtime.{
  Fault, Answer, ok, fail, Proc, ret, ask, update, effect, ◌>>=◌, ◌>>◌, has_status,
}

pub record User : Type 0 where
  pub id : String
  pub name : String
  pub email : String
  pub platform_admin : Bool

pub record Tenant : Type 0 where
  pub id : String
  pub slug : String
  pub name : String

pub record TenantState : Type 0 where
  pub suspended : Bool
  pub reason : String
  pub read_only : Bool
  pub deletion_at : Option String

pub data Scope : Type 0 where
  all own : Scope

-- `Me` of frontend/lib/api.ts; an optional field that is absent is false or the empty text.
pub record Me : Type 0 where
  pub user : User
  pub impersonated_by : String
  pub must_change_password : Bool
  pub tenant_state : Option TenantState
  pub tenant_id : String
  pub tenants : List Tenant
  pub permissions : List (String × Scope)

pub record MenuItem : Type 0 where
  pub id : String
  pub label : String
  pub path : Text
  pub icon : String
  pub order : ℕ

pub record MenuApp : Type 0 where
  pub app_id : String
  pub short_id : String
  pub name : String
  pub items : List MenuItem

pub record ShellData : Type 0 where
  pub me : Me
  pub menu : List MenuApp
  pub blocked : Bool
  pub must_change : Bool

pub record Page : Type 0 where
  pub shell : Option ShellData
  pub failed : Bool

abbrev pub initial : Page
initial = record { shell = none; failed = false }

-- The menu's list may be missing in its answer (`menu.apps || []`).
pub data Request : Type 0 where
  get_me get_menu : Request
  post_tenant : String → Request

abbrev pub Reply : Request → Type 0
Reply get_me = Me
Reply get_menu = Option (List MenuApp)
Reply (post_tenant id) = Unit {0}

pub data Effect : Type 0 where
  router_replace : String → Effect

-- `load` gives true when it has come to its end, and false when the fuel was too little.
abbrev pub Handler : Type 0
Handler = Proc Request Reply Effect Page Bool

abbrev pub apps_or_none : Option (List MenuApp) → List MenuApp
apps_or_none none = []
apps_or_none (some apps) = apps

pub set_data : ShellData → Handler
set_data d = do update (λ s. record s { shell = some d }); ret true

-- The outer `catch`.
pub give_up : Fault → Handler
give_up e =
    if has_status 401 e
    then effect (router_replace "/login") >>= (λ u. ret true)
    else update (λ s. record s { failed = true }) >>= (λ u. ret true)

-- The answer to the menu's request: a 403 is a closed organisation, whose screen is shown in place
-- of the pages.
pub on_menu : Me → Answer (Option (List MenuApp)) → Handler
unfolding set_data give_up
on_menu me (ok apps) =
    set_data (record { me = me; menu = apps_or_none apps; blocked = false; must_change = false })
on_menu me (fail e) =
    if has_status 403 e
    then set_data (record { me = me; menu = []; blocked = true; must_change = false })
    else give_up e

-- From `let menu` on.
pub load_menu : Me → Handler
unfolding on_menu
load_menu me = do r ← ask get_menu; on_menu me r

pub on_tenant : Handler → Answer (Unit {0}) → Handler
unfolding give_up
on_tenant again (ok u) = again
on_tenant again (fail e) = give_up e

-- `if (!me.tenant_id)`: the first organisation is chosen, and the loading starts again.
pub choose_tenant : List Tenant → Handler → Handler
unfolding on_tenant
choose_tenant [] again = effect (router_replace "/org/new") >>= (λ u. ret true)
choose_tenant (x ∷ rest) again = do r ← ask (post_tenant x.id); on_tenant again r

pub on_me : Handler → Answer Me → Handler
unfolding set_data load_menu choose_tenant give_up
on_me again (ok me) =
    if me.must_change_password
    then set_data (record { me = me; menu = []; blocked = false; must_change = true })
    else if me.tenant_id == ""
    then choose_tenant me.tenants again
    else load_menu me
on_me again (fail e) = give_up e

-- `load`; the fuel counts how often it may start.
unfoldable pub load : ℕ → Handler
unfolding on_me
load zero = ret false
load (suc fuel) = do r ← ask get_me; on_me (load fuel) r

-- What `Shell` draws.
pub data Screen : Type 0 where
  error_screen loading_screen : Screen
  password_gate : Me → Screen
  blocked_screen : Me → Screen
  workspace : ShellData → Screen

abbrev pub screen_of_data : Option ShellData → Screen
screen_of_data none = loading_screen
screen_of_data (some d) =
    if d.must_change
    then password_gate d.me
    else if d.blocked
    then blocked_screen d.me
    else workspace d

unfoldable pub screen : Page → Screen
screen s = if s.failed then error_screen else screen_of_data s.shell
