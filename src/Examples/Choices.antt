-- ===== src/Examples/Choices.antt =====
-- The translations and the theme at concrete inputs.
use nexus_mini.Prelude.{◌≡◌, refl, inl, Bool, true, false, [], ◌∷◌, none, some, In}
use nexus_mini.I18n.{en, en_core, dicts, t}
use nexus_mini.I18n.Entries.{Dict, get}
use nexus_mini.I18n.Lookup.{t_core}
use nexus_mini.Theme.{dark, Browser, set_mode, saved_mode, prepaint, is_dark}
use nexus_mini.Theme.Persistence.{set_mode_persists}

-- A module's dictionary, with an entry that the core has too.
abbrev module_dict : Dict
module_dict = ("Апп алга", "Nothing here") ∷ ("Төхөөрөмжийн лавлах", "Device registry") ∷ []

apps-In_core : In ("Апп алга", "No apps") en_core
unfolding en_core
apps-In_core = inl refl

t_core_example : t (dicts module_dict) en "Апп алга" ≡ "No apps"
t_core_example = t_core module_dict "Апп алга" "No apps" apps-In_core

not_in_core : get "Төхөөрөмжийн лавлах" en_core ≡ none
unfolding get en_core
not_in_core = refl

-- A visitor of a system that prefers dark, who has stored a value of no page.
abbrev browser : Browser
browser = record { stored = some "sepia"; dark_class = false; prefers_dark = true }

set_mode_persists_example :
    let now = (set_mode dark browser).1 in
    let later = prepaint (record now { dark_class = Bool.false; prefers_dark = Bool.false }) in
    (now.dark_class ≡ true)
    × (saved_mode later ≡ dark)
    × (later.dark_class ≡ true)
    × ((prepaint browser).dark_class ≡ is_dark true (saved_mode browser))
set_mode_persists_example = set_mode_persists dark browser false
