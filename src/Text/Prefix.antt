-- ===== src/Text/Prefix.antt =====
-- Comparing texts and splitting off prefixes.
use nexus_mini.Prelude.{
  ℕ, ◌≡◌, refl, true, [], ◌∷◌, ◌++◌, some, arith, nat_eq, Bool-cases, inl, inr,
}
use nexus_mini.Text.{Text, text_eq, strip_prefix}

nat_eq_sound : (a b : ℕ) → nat_eq a b ≡ true → a ≡ b
nat_eq_sound a b h = ground arith

pub text_eq_refl : (s : Text) → text_eq s s ≡ true
text_eq_refl [] = refl
text_eq_refl (a ∷ s) = ground (arith, text_eq_refl s)

pub text_eq_sound : (s t : Text) → text_eq s t ≡ true → s ≡ t
text_eq_sound [] [] h = refl
text_eq_sound [] (b ∷ t) h = cc
text_eq_sound (a ∷ s) [] h = cc
text_eq_sound (a ∷ s) (b ∷ t) h = ground (arith, nat_eq_sound a b, text_eq_sound s t)

pub strip_prefix_append : (p s : Text) → strip_prefix p (p ++ s) ≡ some s
strip_prefix_append [] s = refl
strip_prefix_append (a ∷ p) s = ground (arith, strip_prefix_append p s)

pub strip_prefix_sound : (p s : Text) {r : Text} → strip_prefix p s ≡ some r → s ≡ p ++ r
strip_prefix_sound [] s h = ground arith
strip_prefix_sound (a ∷ p) [] h = cc
strip_prefix_sound (a ∷ p) (b ∷ s) {r} h = elim (Bool-cases (nat_eq a b)) [
  | inl same ↦
      let ih : s ≡ p ++ r = strip_prefix_sound p s (ground arith) in
      ground (arith, nat_eq_sound a b)
  | inr other ↦ ground arith
]
