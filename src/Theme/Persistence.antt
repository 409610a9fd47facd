-- ===== src/Theme/Persistence.antt =====
-- The theme after a choice, and on a later visit (frontend/lib/theme.ts, frontend/app/layout.tsx).
use nexus_mini.Prelude.{
  ◌≡◌, refl, Bool, Bool-cases, inl, inr, Option, none, some, String, ◌==◌, eq_iff,
}
use nexus_mini.Theme.{
  ThemeMode, light, dark, system, Browser, set_mode, saved_mode, prepaint, prepaint_dark,
  mode_of_item, is_dark,
}

prepaint-saved_mode :
    (b : Browser) → (prepaint b).dark_class ≡ is_dark b.prefers_dark (saved_mode b)
unfolding prepaint saved_mode
prepaint-saved_mode b = go b.stored
  where
    go :
        (o : Option String)
        → prepaint_dark o b.prefers_dark ≡ is_dark b.prefers_dark (mode_of_item system o)
    go none = refl
    go (some s) = elim (Bool-cases (s == "light")) [
      | inl e ↦ let same : s ≡ "light" = (eq_iff s "light").0 e in rw same refl
      | inr e ↦ elim (Bool-cases (s == "dark")) [ inl d ↦ rw (e, d) refl | inr d ↦ rw (e, d) refl ]
    ]

-- After a choice the document has the class that the choice asks for; a later visit, the system's
-- preference being then whatever it is, reads the same choice back, and its script paints just what
-- the choice asks for under that preference. And whatever is stored, also a value that no page stores,
-- the class that the script paints is the one that the mode read from the store asks for: the page
-- does not flash.
pub set_mode_persists :
    (m : ThemeMode) (b : Browser) (prefers : Bool)
    → let now = (set_mode m b).1 in
      let later = prepaint (record now { dark_class = Bool.false; prefers_dark = prefers }) in
      (now.dark_class ≡ is_dark b.prefers_dark m)
      × (saved_mode later ≡ m)
      × (later.dark_class ≡ is_dark prefers m)
      × ((prepaint b).dark_class ≡ is_dark b.prefers_dark (saved_mode b))
unfolding set_mode saved_mode prepaint
set_mode_persists light b prefers = (refl, refl, refl, prepaint-saved_mode b)
set_mode_persists dark b prefers = (refl, refl, refl, prepaint-saved_mode b)
set_mode_persists system b prefers = (refl, refl, refl, prepaint-saved_mode b)
