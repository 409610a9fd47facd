-- ===== src/Shell/Frame/Drawn.antt =====
-- What the frame of the workspace draws around a page (frontend/components/shell.tsx), and the menu of the
-- visitor (frontend/components/usermenu.tsx).
use nexus_mini.Prelude.{String, Bool, false, List, [], ◌∷◌, ◌++◌, Option, none, some, ◌==◌}
use nexus_mini.Text.{Text}
use nexus_mini.Ui.{View, text, button, link, select, badge, when, each}
use nexus_mini.I18n.{Locale, locale_code}
use nexus_mini.Shell.{Me, Tenant}
use nexus_mini.Shell.Menu.{Module, NavSection, NavItem, is_on}
use nexus_mini.Shell.Frame.{FrameEvent, set_panel, current_tenant}

pub data Action : Type 0 where
  on_frame : FrameEvent → Action
  choose_tenant set_locale set_theme : String → Action
  add_tenant log_out : Action

module _ (t : String → String) (pathname : Text) where
  -- The mark of an entry that is the page's own.
  abbrev marked : Bool → View Action
  marked on = when on (badge "accent" "active" ∷ [])

  pub nav_item_view : NavItem → View Action
  unfolding is_on
  nav_item_view i = link i.label i.path ∷ marked (is_on pathname i.path)

  pub section_view : NavSection → View Action
  unfolding nav_item_view
  section_view s = text s.label ∷ each nav_item_view s.items

  -- `navList`
  unfoldable pub nav_list : Module → View Action
  unfolding section_view
  nav_list m = each section_view m.sections

  -- A button of the rail, or of the tabs in the drawer.
  abbrev module_button : String → Module → View Action
  module_button value m = button m.name false (on_frame (set_panel m.key)) ∷ marked (m.key == value)

  -- `AppRail` and `ModuleTabs`
  unfoldable pub rail : List Module → String → View Action
  rail modules value = each (module_button value) modules

  abbrev tenant_line : Me → Tenant → View Action
  tenant_line me x = button x.name false (choose_tenant x.id) ∷ marked (x.id == me.tenant_id)

  abbrev tenant_name : Option Tenant → View Action
  tenant_name none = []
  tenant_name (some x) = text x.name ∷ []

  -- `TenantSwitcher`
  unfoldable pub switcher : Me → View Action
  unfolding current_tenant
  switcher me =
      tenant_name (current_tenant me)
      ++ (text (t "Байгууллага") ∷ each (tenant_line me) me.tenants
          ++ (button (t "Байгууллага нэмэх") false add_tenant ∷ []))

  -- `UserMenu`; `theme` is the mode's name.
  unfoldable pub user_menu : Me → Locale → String → List (String × String) → View Action
  user_menu me locale theme locales =
      text me.user.name
      ∷ text me.user.email
      ∷ select (t "Хэл") (locale_code locale) locales set_locale
      ∷ select (t "Загвар") theme
          (("light", t "Цайвар") ∷ ("dark", t "Бараан") ∷ ("system", t "Систем") ∷ []) set_theme
      ∷ button (t "Гарах") false log_out
      ∷ []
