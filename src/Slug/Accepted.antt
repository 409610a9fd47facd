-- ===== src/Slug/Accepted.antt =====
-- What the server takes as a slug: `slugRe` of backend/internal/core/handlers/auth.go, which is also the
-- CHECK of the database, beside the form that `slugify` of frontend/lib/slug.ts gives.
use nexus_mini.Prelude.{◌≤◌, ◌≡◌, ◌↔◌, ◌⊎◌, inl, inr, true, [], ◌∷◌, arith, length}
use nexus_mini.Text.{Text}
use nexus_mini.Slug.{is_word, dash}
use nexus_mini.Slug.Shape.{IsSlug, IsSpaced}

-- `[a-z0-9-]*`
abbrev pub AreWordsOrDashes : Text → Type 0
AreWordsOrDashes [] = Unit
AreWordsOrDashes (c ∷ s) = ((is_word c ≡ true) ⊎ (c ≡ dash)) × AreWordsOrDashes s

-- `^[a-z0-9][a-z0-9-]{1,62}$`
abbrev pub IsAccepted : Text → Type 0
IsAccepted [] = ⊥
IsAccepted (c ∷ s) = (is_word c ≡ true) × AreWordsOrDashes s × (1 ≤ length s) × (length s ≤ 62)

IsSpaced-AreWordsOrDashes : (s : Text) → IsSpaced s → AreWordsOrDashes s
IsSpaced-AreWordsOrDashes [] h = tt
IsSpaced-AreWordsOrDashes (c ∷ s) (inl w, later) = (inl w, IsSpaced-AreWordsOrDashes s later)
IsSpaced-AreWordsOrDashes (c ∷ s) (inr (e, w), later) = (inr e, IsSpaced-AreWordsOrDashes s later)

-- A text of the form that `slugify` gives is accepted exactly if it has two units.
pub IsAccepted-IsSlug_iff : (s : Text) → IsSlug s → IsAccepted s ↔ (2 ≤ length s)
IsAccepted-IsSlug_iff [] slug = (λ h. absurd h, λ h. absurd (omega arith))
IsAccepted-IsSlug_iff (c ∷ s) slug =
    let short = slug.short in
    (
      λ h. let long = h.2 in omega arith,
      λ h. (slug.start, IsSpaced-AreWordsOrDashes s slug.spaced.1, omega arith, omega arith),
    )
