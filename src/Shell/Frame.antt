-- ===== src/Shell/Frame.antt =====
-- The workspace around a page (frontend/components/shell.tsx): the rail with its panel, the drawer, the
-- command palette and the switch between organisations; and the menu of the visitor
-- (frontend/components/usermenu.tsx).
pub mod Switching
pub mod Drawn
use nexus_mini.Prelude.{
  String, Bool, true, false, not, List, [], ◌∷◌, ◌++◌, Option, none, some, ◌==◌, find,
  if◌then◌else◌,
}
use nexus_mini.Text.{Text}
use nexus_mini.Runtime.{Answer, ok, fail, Proc, ret, ask, effect, ◌>>=◌, ◌>>◌}
use nexus_mini.Shell.{Me, Tenant}
use nexus_mini.Shell.Menu.{Module, NavSection, NavItem, platform_key}

-- The panel's module, the module of the page that its effect saw last, and what is open.
pub record Frame : Type 0 where
  pub panel_key : String
  pub active_key : String
  pub drawer : Bool
  pub palette : Bool

unfoldable pub opened : String → Frame
opened active = record { panel_key = active; active_key = active; drawer = false; palette = false }

-- A click in the rail or the tabs, the button of the drawer, a window that becomes wide, another path
-- with the key of its module, and the palette.
pub data FrameEvent : Type 0 where
  set_panel : String → FrameEvent
  set_drawer set_palette : Bool → FrameEvent
  becomes_wide : FrameEvent
  navigates : String → FrameEvent

unfoldable pub happen : Frame → FrameEvent → Frame
happen f (set_panel key) = record f { panel_key = key }
happen f (set_drawer b) = record f { drawer = b }
happen f (set_palette b) = record f { palette = b }
happen f becomes_wide = record f { drawer = false }
happen f (navigates key) =
    if key == f.active_key
    then record f { drawer = false }
    else record f { drawer = false; panel_key = key; active_key = key }

abbrev pub or_active : Option Module → Module → Module
or_active none active = active
or_active (some m) active = m

-- `panelModule`
unfoldable pub panel_module : List Module → Module → String → Module
panel_module modules active key = or_active (find (λ m. m.key == key) modules) active

-- A group of the palette: its heading, and the items with the module and section that are searched.
pub record PaletteGroup : Type 0 where
  pub heading : String
  pub items : List NavItem

abbrev group_of : Module → NavSection → PaletteGroup
group_of m s = record {
  heading = if m.key == platform_key then s.label else m.name;
  items = s.items;
}

abbrev groups_of : Module → List NavSection → List PaletteGroup
groups_of m [] = []
groups_of m (s ∷ ss) = group_of m s ∷ groups_of m ss

unfoldable pub palette_groups : List Module → List PaletteGroup
palette_groups [] = []
palette_groups (m ∷ ms) = groups_of m m.sections ++ palette_groups ms

pub data Request : Type 0 where
  post_tenant : String → Request
  post_logout : Request

abbrev pub Reply : Request → Type 0
Reply (post_tenant id) = Unit {0}
Reply post_logout = Unit {0}

pub data Effect : Type 0 where
  on_switched : Effect
  router_push router_replace : String → Effect
  push_path : Text → Effect

abbrev pub Handler : Type 0 → Type 0
Handler A = Proc Request Reply Effect Frame A

-- `select` of the switcher; a refusal is caught by nobody.
unfoldable pub switch_tenant : Me → String → Handler (Answer (Unit {0}))
switch_tenant me id =
    if id == me.tenant_id then ret (ok tt) else (ask (post_tenant id) >>= answered)
  where
    answered : Answer (Unit {0}) → Handler (Answer (Unit {0}))
    answered (ok u) = effect on_switched >> ret (ok tt)
    answered (fail e) = ret (fail e)

abbrev first_tenant : List Tenant → Option Tenant
first_tenant [] = none
first_tenant (x ∷ xs) = some x

abbrev or_first : Option Tenant → List Tenant → Option Tenant
or_first none tenants = first_tenant tenants
or_first (some x) tenants = some x

-- `current`
unfoldable pub current_tenant : Me → Option Tenant
current_tenant me = or_first (find (λ x. x.id == me.tenant_id) me.tenants) me.tenants

-- `logout` of the visitor's menu: whatever the answer, the visitor goes to the login.
unfoldable pub logout : Handler (Unit {0})
logout = ask post_logout >>= λ r. effect (router_replace "/login")
