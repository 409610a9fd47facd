-- ===== src/Theme.antt =====
-- frontend/lib/theme.ts, with the script of frontend/app/layout.tsx that runs before the page is
-- painted. (admin/lib/theme.ts is the same file.)
pub mod Persistence
use nexus_mini.Prelude.{
  String, Bool, true, false, not, ◌&&◌, ◌||◌, Option, none, some, ◌==◌, if◌then◌else◌,
}

pub data ThemeMode : Type 0 where
  light dark system : ThemeMode

-- `mode === 'dark' || (mode === 'system' && matchMedia(…).matches)`
abbrev pub is_dark : Bool → ThemeMode → Bool
is_dark prefers_dark light = false
is_dark prefers_dark dark = true
is_dark prefers_dark system = prefers_dark

-- The browser: the item `nexus_theme`, the class `dark` on the document's root, and what the system
-- prefers.
pub record Browser : Type 0 where
  pub stored : Option String
  pub dark_class : Bool
  pub prefers_dark : Bool

-- `applyTheme`
pub apply_theme : ThemeMode → Browser → Browser
apply_theme mode b = record b { dark_class = is_dark b.prefers_dark mode }

abbrev pub mode_of_item : ThemeMode → Option String → ThemeMode
mode_of_item current none = current
mode_of_item current (some s) =
    if s == "light" then light else if s == "dark" then dark else current

-- The effect of `useThemeMode`, from the state's `system`.
unfoldable pub saved_mode : Browser → ThemeMode
saved_mode b = mode_of_item system b.stored

abbrev pub item_of_mode : ThemeMode → Option String
item_of_mode system = none
item_of_mode light = some "light"
item_of_mode dark = some "dark"

-- `set`: the new state of the hook and the browser.
unfoldable pub set_mode : ThemeMode → Browser → ThemeMode × Browser
unfolding apply_theme
set_mode m b = (m, apply_theme m (record b { stored = item_of_mode m }))

abbrev pub prepaint_dark : Option String → Bool → Bool
prepaint_dark none prefers = prefers
prepaint_dark (some s) prefers = (s == "dark") || (not (s == "light") && prefers)

-- `themeScript` on a fresh document, whose root has no class yet.
unfoldable pub prepaint : Browser → Browser
prepaint b = record b { dark_class = prepaint_dark b.stored b.prefers_dark }
