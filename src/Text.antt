-- ===== src/Text.antt =====
-- Text as the sources walk it: a JavaScript string is its sequence of UTF-16 code units.
pub mod Prefix
pub mod Space
pub mod Split
use Prim.Native.Char.{code}
use nexus_mini.Prelude.{
  ℕ, String, Bool, true, false, ◌&&◌, List, [], ◌∷◌, map, Option, none, some, nat_eq, if◌then◌else◌,
}

abbrev pub Text : Type 0
Text = List ℕ

-- The units of a literal (each below 2 ^ 16, so one unit for each character).
abbrev pub codes : String → Text
codes String.[] = []
codes (String.◌∷◌ c s) = code c ∷ codes s

abbrev pub text_eq : Text → Text → Bool
text_eq [] [] = true
text_eq (a ∷ s) (b ∷ t) = nat_eq a b && text_eq s t
text_eq _ _ = false

-- What follows `prefix` in `s`, if `s` starts with it.
abbrev pub strip_prefix : Text → Text → Option Text
strip_prefix [] s = some s
strip_prefix (a ∷ p) [] = none
strip_prefix (a ∷ p) (b ∷ s) = let rest = strip_prefix p s in if nat_eq a b then rest else none

abbrev pub is_some {ℓ} : {A : Type ℓ} → Option A → Bool
is_some none = false
is_some (some a) = true

-- `s.startsWith(prefix)`
abbrev pub starts_with : Text → Text → Bool
starts_with s prefix = is_some (strip_prefix prefix s)
