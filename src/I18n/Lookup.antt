-- ===== src/I18n/Lookup.antt =====
-- What a page reads for a text (frontend/lib/i18n.tsx).
use nexus_mini.Prelude.{
  String, ◌≡◌, refl, ◌⊎◌, inl, inr, Bool, true, false, Option, none, some, ◌==◌, eq_iff, In,
  Bool-cases, sym, ◌∙◌, ◌↔◌,
}
use nexus_mini.I18n.Console.{en_console}
use nexus_mini.I18n.{
  Locale, set_locale, console_dicts, mn, en, get_locale, en_core, dicts, or_text, t,
}
use nexus_mini.I18n.Entries.{Dict, get, get-append, are_distinct, get_of_In}

-- No text of the portal has two translations.
pub en_core_distinct : are_distinct en_core ≡ true
unfolding are_distinct en_core
en_core_distinct = refl

-- No text of the console has two translations.
en_console_distinct : are_distinct en_console ≡ true
unfolding are_distinct
en_console_distinct = refl

-- In the console's English every entry of its dictionary is shown by its translation.
pub t_console : (k v : String) → In (k, v) en_console → t console_dicts en k ≡ v
unfolding t console_dicts
t_console k v i = rw (get_of_In en_console k v en_console_distinct i) refl

-- A text of the core has the core's translation, whatever the modules' dictionaries hold.
pub t_core : (modules : Dict) (k v : String) → In (k, v) en_core → t (dicts modules) en k ≡ v
unfolding t dicts
t_core modules k v i = rw get-append (rw (get_of_In en_core k v en_core_distinct i) refl)

-- A text that the core does not have is translated by the modules' dictionaries, the last one that
-- has it, and is shown as it is where none has.
pub t_module :
    (modules : Dict) (k : String)
    → get k en_core ≡ none
    → t (dicts modules) en k ≡ or_text (get k modules) k
unfolding t dicts
t_module modules k h = rw get-append (rw h refl)

-- The window that is loaded after a choice has the chosen locale.
pub get_locale-set_locale : (l : Locale) → get_locale true (set_locale l).0 ≡ l
unfolding get_locale set_locale
get_locale-set_locale mn = refl
get_locale-set_locale en = refl

-- The site is in English exactly for a browser whose stored choice is the code `en`; on the server,
-- and for nothing stored or any other code, it is in Mongolian.
pub get_locale-en_iff :
    (in_browser : Bool) (stored : Option String)
    → ((get_locale in_browser stored ≡ en) ↔ ((in_browser ≡ true) × (stored ≡ some "en")))
      × ((get_locale in_browser stored ≡ en) ⊎ (get_locale in_browser stored ≡ mn))
unfolding get_locale
get_locale-en_iff b none = ((λ h. cc, λ h. cc), inr refl)
get_locale-en_iff false (some s) = ((λ h. cc, λ h. cc), inr refl)
get_locale-en_iff true (some s) = elim (Bool-cases ("mn" == s)) [
  | inl e ↦
      let same : "mn" ≡ s = (eq_iff "mn" s).0 e in
      rw (← same) ((λ h. absurd (cc), λ h. absurd (different h.1)), inr refl)
  | inr e ↦ elim (Bool-cases ("en" == s)) [
    | inl f ↦
        let same : "en" ≡ s = (eq_iff "en" s).0 f in
        rw (← same) ((λ h. (refl, refl), λ h. refl), inl refl)
    | inr f ↦ rw (e, f) ((λ h. absurd (cc), λ h. absurd (other f h.1)), inr refl)
  ]
]
  where
    different : ◌≡◌ {A = Option String} (some "mn") (some "en") → ⊥
    different h = let eq : "mn" ≡ "en" = cc in let t : false ≡ true = (eq_iff "mn" "en").1 eq in cc

    other : ("en" == s) ≡ false → some s ≡ some "en" → ⊥
    other f h = let eq : "en" ≡ s = cc in let t : false ≡ true = sym f ∙ (eq_iff "en" s).1 eq in cc
