-- ===== src/I18n.antt =====
-- frontend/lib/i18n.tsx, and admin/lib/i18n.tsx, which has a dictionary of its own and no modules'.
pub mod Entries
pub mod Public
pub mod PortalFirst
pub mod PortalSecond
pub mod Modules
pub mod Guide
pub mod Console
pub mod Lookup
use nexus_mini.Prelude.{
  String, Bool, true, false, List, [], ◌∷◌, ◌++◌, Option, none, some, any, ◌==◌, if◌then◌else◌,
}
use Entries.{Dict, get}
use Public.{en_public}
use PortalFirst.{en_portal_first}
use PortalSecond.{en_portal_second}
use Modules.{en_modules}
use Guide.{en_guide}
use Console.{en_console}

pub data Locale : Type 0 where
  mn en : Locale

-- The codes of `locales`.
abbrev pub locale_code : Locale → String
locale_code mn = "mn"
locale_code en = "en"

abbrev pub locales : List Locale
locales = mn ∷ en ∷ []

abbrev pub find_locale : List Locale → String → Locale
find_locale [] l = mn
find_locale (x ∷ xs) l = let other = find_locale xs l in if locale_code x == l then x else other

-- `getLocale`; `in_browser` is `typeof window !== "undefined"`, `stored` the item `nexus_locale`.
unfoldable pub get_locale : Bool → Option String → Locale
get_locale in_browser none = mn
get_locale in_browser (some l) = if in_browser then find_locale locales l else mn

-- `setLocale`: the item that is stored, and that the window is loaded again.
unfoldable pub set_locale : Locale → Option String × Bool
set_locale l = (some (locale_code l), true)

-- `en`: the entries of the five files in their order.
unfoldable pub en_core : Dict
en_core = en_public ++ (en_portal_first ++ (en_portal_second ++ (en_modules ++ en_guide)))

-- `dicts`; `modules` is `modules.en ?? {}` of the generated file lib/i18n.modules.ts.
unfoldable pub dicts : Dict → Locale → Dict
dicts modules mn = []
dicts modules en = modules ++ en_core

-- `dicts` of admin/lib/i18n.tsx.
unfoldable pub console_dicts : Locale → Dict
console_dicts mn = []
console_dicts en = en_console

abbrev pub or_text : Option String → String → String
or_text (some v) s = v
or_text none s = s

-- `t` of `useT`, over the dictionaries.
unfoldable pub t : (Locale → Dict) → Locale → String → String
t dicts' mn s = s
t dicts' en s = or_text (get s (dicts' en)) s
