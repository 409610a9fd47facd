-- ===== src/Form/Blank.antt =====
-- An optional id as the text of a form, where the empty text is none.
use nexus_mini.Prelude.{String, ◌≡◌, refl, false, Option, none, some, ◌==◌}
use nexus_mini.Form.{or_blank, or_null}

abbrev pub IsGiven : Option String → Type 0
IsGiven none = Unit
IsGiven (some id) = (id == "") ≡ false

pub or_null-or_blank : (id : Option String) → IsGiven id → or_null (or_blank id) ≡ id
or_null-or_blank none h = refl
or_null-or_blank (some id) h = rw h refl
