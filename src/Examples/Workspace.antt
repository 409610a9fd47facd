-- ===== src/Examples/Workspace.antt =====
-- The portal's start and its menu at concrete inputs.
use nexus_mini.Prelude.{String, ◌≡◌, refl, ◌≢◌, Bool, true, false, [], ◌∷◌, none, In, inl, inr}
use nexus_mini.Text.{codes}
use nexus_mini.Runtime.{api_error, ok, fail, Server, asked, run}
use nexus_mini.Examples.Literals.{literals_ne}
use nexus_mini.Shell.{
  Me, MenuApp, Request, Reply, get_me, get_menu, post_tenant, initial, load, screen, blocked_screen,
  all,
}
use nexus_mini.Shell.Menu.{Module, NavItem, app_module, active_module, active_item, items_of, is_on}
use nexus_mini.Shell.Loading.{Ends, TakesTenant, load-Ends}
use nexus_mini.Shell.Blocked.{load-blocked_screen}
use nexus_mini.Shell.Navigation.{IsInMenu, active_module_found}

abbrev visitor : String → Bool → Me
visitor tenant must = record {
  user = record { id = "u"; name = "U"; email = "u@x.y"; platform_admin = false };
  impersonated_by = "";
  must_change_password = must;
  tenant_state = none;
  tenant_id = tenant;
  tenants =
      record { id = "t1"; slug = "one"; name = "One" }
      ∷ record { id = "t2"; slug = "two"; name = "Two" }
      ∷ [];
  permissions = ("core.audit.read", all) ∷ [];
}

-- A server whose state is the visitor's chosen organisation.
abbrev choosing : Server Request Reply String
choosing w get_me = (ok (visitor w false), w)
choosing w get_menu = (ok none, w)
choosing w (post_tenant id) = (ok tt, "t1")

choosing-TakesTenant : TakesTenant choosing
choosing-TakesTenant w id e = literals_ne "t1" "" refl

load-Ends_example : Ends choosing (load 2) "" initial
load-Ends_example = load-Ends choosing choosing-TakesTenant 0 "" initial

-- A server of a closed organisation, and of a visitor with a temporary password.
abbrev closed : Server Request Reply (Unit {0})
closed w get_me = (ok (visitor "t1" false), w)
closed w get_menu = (fail (api_error 403 ""), w)
closed w (post_tenant id) = (ok tt, w)

abbrev temporary : Server Request Reply (Unit {0})
temporary w get_me = (ok (visitor "t1" true), w)
temporary w get_menu = (ok none, w)
temporary w (post_tenant id) = (ok tt, w)

t1_ne : (visitor "t1" false).tenant_id ≢ ""
t1_ne = literals_ne "t1" "" refl

load-blocked_screen_example :
    let r = run closed (load 1) tt initial in
    (screen r.state ≡ blocked_screen (visitor "t1" false))
    × (r.log ≡ asked get_me ∷ asked get_menu ∷ [])
load-blocked_screen_example =
    load-blocked_screen closed 0 tt tt tt (visitor "t1" false) (api_error 403 "") refl refl refl
      t1_ne refl

abbrev same : String → String
same s = s

abbrev audit_item : NavItem
audit_item = record { path = codes "/audit"; label = "Audit лог"; icon = "scroll" }

-- A module with one page, and the path of a device under it.
abbrev devices : MenuApp
devices = record {
  app_id = "devices";
  short_id = "devices";
  name = "Devices";
  items =
      record { id = "i"; label = "Devices"; path = codes "/devices"; icon = ""; order = 1 } ∷ [];
}

abbrev devices_item : NavItem
devices_item = record { path = codes "/devices"; label = "Devices"; icon = "" }

devices-IsInMenu : IsInMenu (codes "/devices/7") (app_module devices)
unfolding app_module items_of is_on
devices-IsInMenu = record { item = devices_item; listed = inl refl; on = refl }

abbrev home : Module
home = record { key = "platform"; name = "Нүүр"; icon = "home"; sections = [] }

active_module_found_example :
    let active = active_module (codes "/devices/7") home (app_module devices ∷ []) in
    In active (home ∷ app_module devices ∷ [])
    × IsInMenu (codes "/devices/7") active
    × (active_item (codes "/devices/7") active ≢ none)
active_module_found_example =
    active_module_found (codes "/devices/7") home (app_module devices ∷ []) (app_module devices)
      (inr (inl refl)) devices-IsInMenu
