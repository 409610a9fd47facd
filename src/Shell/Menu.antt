-- ===== src/Shell/Menu.antt =====
-- The rail, the panel and the breadcrumbs of the workspace (frontend/components/shell.tsx).
use nexus_mini.Prelude.{
  String, Bool, true, false, ◌||◌, List, [], ◌∷◌, ◌++◌, map, Option, none, some, ◌==◌, any, find,
  filter, is_empty, if◌then◌else◌,
}
use nexus_mini.Text.{Text, codes, text_eq, starts_with}
use nexus_mini.Shell.{MenuApp, MenuItem, Scope}

pub record NavItem : Type 0 where
  pub path : Text
  pub label : String
  pub icon : String

pub record NavSection : Type 0 where
  pub label : String
  pub items : List NavItem

pub record Module : Type 0 where
  pub key : String
  pub name : String
  pub icon : String
  pub sections : List NavSection

abbrev pub platform_key : String
platform_key = "platform"

-- `pathname === p || pathname.startsWith(p + "/")`
unfoldable pub is_on : Text → Text → Bool
is_on pathname p = text_eq pathname p || starts_with pathname (p ++ codes "/")

-- `perms[code]` as a condition.
pub has_permission : String → List (String × Scope) → Bool
has_permission code' [] = false
has_permission code' ((k, v) ∷ rest) = k == code' || has_permission code' rest

-- `need`, as a list.
abbrev pub needs : List (Text × String)
needs =
    (codes "/members", "core.members.manage")
    ∷ (codes "/roles", "core.roles.manage")
    ∷ (codes "/audit", "core.audit.read")
    ∷ (codes "/sso-clients", "core.sso.manage")
    ∷ []

pub needed : List (Text × String) → Text → Option String
needed [] path = none
needed ((p, code') ∷ rest) path =
    let other = needed rest path in if text_eq p path then some code' else other

abbrev pub meets : Option String → List (String × Scope) → Bool
meets none perms = true
meets (some code') perms = has_permission code' perms

abbrev pub nav_item : MenuItem → NavItem
nav_item i = record { path = i.path; label = i.label; icon = i.icon }

abbrev first_icon : List MenuItem → String
first_icon [] = "package"
first_icon (i ∷ rest) = if i.icon == "" then "package" else i.icon

unfoldable pub app_module : MenuApp → Module
app_module m = record {
  key = m.app_id;
  name = m.name;
  icon = first_icon m.items;
  sections = record { label = m.name; items = map nav_item m.items } ∷ [];
}

module _ (t : String → String) where
  pub admin_items : List NavItem
  admin_items =
      record { path = codes "/members"; label = t "Гишүүд"; icon = "users" }
      ∷ record { path = codes "/roles"; label = t "Эрхийн тохиргоо"; icon = "key" }
      ∷ record { path = codes "/audit"; label = t "Audit лог"; icon = "scroll" }
      ∷ record { path = codes "/sso-clients"; label = t "SSO клиентүүд"; icon = "key" }
      ∷ record { path = codes "/settings"; label = t "Байгууллагын тохиргоо"; icon = "settings" }
      ∷ []

  -- `admin`
  unfoldable pub allowed_items : List (String × Scope) → List NavItem
  unfolding admin_items needed has_permission
  allowed_items perms = filter (λ i. meets (needed needs i.path) perms) admin_items

  unfoldable pub admin_section : List NavItem → List NavSection
  admin_section admin =
      if is_empty admin then [] else record { label = t "Удирдлага"; items = admin } ∷ []

  unfoldable pub platform : List (String × Scope) → Module
  unfolding admin_section allowed_items
  platform perms = record {
    key = platform_key;
    name = t "Нүүр";
    icon = "home";
    sections =
        record {
          label = t "Цэс";
          items =
              record { path = codes "/dashboard"; label = t "Дашбоард"; icon = "dashboard" }
              ∷ record { path = codes "/store"; label = t "Апп дэлгүүр"; icon = "store" }
              ∷ [];
        }
        ∷ admin_section (allowed_items perms);
  }

  -- `modules`
  unfoldable pub modules : List (String × Scope) → List MenuApp → List Module
  unfolding platform app_module
  modules perms menu = platform perms ∷ map app_module menu

-- `m.sections.flatMap((s) => s.items)`
unfoldable pub items_of : List NavSection → List NavItem
items_of [] = []
items_of (s ∷ rest) = s.items ++ items_of rest

unfoldable pub has_active : Text → Module → Bool
unfolding is_on
has_active pathname m = any (λ s. any (λ i. is_on pathname i.path) s.items) m.sections

abbrev pub or_module : Option Module → Module → Module
or_module none d = d
or_module (some m) d = m

-- `modules.find(…) ?? modules[0]`; the list begins with the platform.
unfoldable pub active_module : Text → Module → List Module → Module
unfolding has_active
active_module pathname first rest = or_module (find (has_active pathname) (first ∷ rest)) first

unfoldable pub active_item : Text → Module → Option NavItem
unfolding items_of is_on
active_item pathname m = find (λ i. is_on pathname i.path) (items_of m.sections)

-- A breadcrumb: its label, and where it leads.
pub record Crumb : Type 0 where
  pub label : String
  pub href : Option Text

-- `activeModule.sections[0].items[0].path`, or nothing where one of the two is missing.
abbrev pub first_item : List NavItem → Option Text
first_item [] = none
first_item (i ∷ rest) = some i.path

abbrev pub first_path : List NavSection → Option Text
first_path [] = none
first_path (s ∷ rest) = first_item s.items

-- `crumbs`; null where the page is the dashboard or in no menu.
pub crumbs_at : (String → String) → Text → Module → Option NavItem → Option (List Crumb)
crumbs_at t pathname m none = none
crumbs_at t pathname m (some item) =
    if text_eq pathname (codes "/dashboard")
    then none
    else some (
        record { label = t "Нүүр"; href = some (codes "/dashboard") }
        ∷ ((if m.key == platform_key
              then []
              else record { label = m.name; href = first_path m.sections } ∷ [])
            ++ record { label = item.label; href = none } ∷ []))
