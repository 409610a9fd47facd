-- ===== src/Text/Space/Trimmed.antt =====
-- Trimmed texts.
use nexus_mini.Prelude.{ℕ, ◌≡◌, refl, inl, inr, false, [], ◌∷◌, All, Bool-cases}
use nexus_mini.Text.{Text}
use nexus_mini.Text.Space.{is_space, skip_spaces, keep_unless_space, drop_spaces, trim}

abbrev StartsInk : Text → Type 0
StartsInk [] = Unit
StartsInk (c ∷ s) = is_space c ≡ false

abbrev EndsInk : Text → Type 0
EndsInk [] = Unit
EndsInk (c ∷ []) = is_space c ≡ false
EndsInk (c ∷ d ∷ s) = EndsInk (d ∷ s)

skip_spaces-StartsInk : (s : Text) → StartsInk (skip_spaces s)
unfolding skip_spaces
skip_spaces-StartsInk [] = tt
skip_spaces-StartsInk (c ∷ s) = elim (Bool-cases (is_space c)) [
  | inl e ↦ rw e (skip_spaces-StartsInk s)
  | inr e ↦ rw e e
]

skip_spaces_fixed : (s : Text) → StartsInk s → skip_spaces s ≡ s
unfolding skip_spaces
skip_spaces_fixed [] h = refl
skip_spaces_fixed (c ∷ s) h = rw h refl

keep-StartsInk : (c : ℕ) (s : Text) → is_space c ≡ false → StartsInk (keep_unless_space c s)
unfolding keep_unless_space
keep-StartsInk c [] h = rw h h
keep-StartsInk c (d ∷ s) h = h

drop_spaces-StartsInk : (s : Text) → StartsInk s → StartsInk (drop_spaces s)
unfolding drop_spaces
drop_spaces-StartsInk [] h = tt
drop_spaces-StartsInk (c ∷ s) h = keep-StartsInk c (drop_spaces s) h

keep-EndsInk : (c : ℕ) (s : Text) → EndsInk s → EndsInk (keep_unless_space c s)
unfolding keep_unless_space
keep-EndsInk c [] h = elim (Bool-cases (is_space c)) [ inl e ↦ rw e tt | inr e ↦ rw e e ]
keep-EndsInk c (d ∷ s) h = h

drop_spaces-EndsInk : (s : Text) → EndsInk (drop_spaces s)
unfolding drop_spaces
drop_spaces-EndsInk [] = tt
drop_spaces-EndsInk (c ∷ s) = keep-EndsInk c (drop_spaces s) (drop_spaces-EndsInk s)

drop_spaces_fixed : (s : Text) → EndsInk s → drop_spaces s ≡ s
unfolding drop_spaces keep_unless_space
drop_spaces_fixed [] h = refl
drop_spaces_fixed (c ∷ []) h = rw h refl
drop_spaces_fixed (c ∷ d ∷ s) h = rw (drop_spaces_fixed (d ∷ s) h, keep_unless_space) refl

pub trim-trim : (s : Text) → trim (trim s) ≡ trim s
unfolding trim
trim-trim s =
    let start = drop_spaces-StartsInk (skip_spaces s) (skip_spaces-StartsInk s) in
    rw (skip_spaces_fixed (drop_spaces (skip_spaces s)) start)
      (drop_spaces_fixed (drop_spaces (skip_spaces s)) (drop_spaces-EndsInk (skip_spaces s)))

module _ (P : ℕ → Type 0) where
  skip_spaces-All : (s : Text) → All P s → All P (skip_spaces s)
  unfolding skip_spaces
  skip_spaces-All [] h = tt
  skip_spaces-All (c ∷ s) (p, h) = elim (Bool-cases (is_space c)) [
    | inl e ↦ rw e (skip_spaces-All s h)
    | inr e ↦ rw e (p, h)
  ]

  keep-All : (c : ℕ) (s : Text) → P c → All P s → All P (keep_unless_space c s)
  unfolding keep_unless_space
  keep-All c [] p h = elim (Bool-cases (is_space c)) [ inl e ↦ rw e tt | inr e ↦ rw e (p, tt) ]
  keep-All c (d ∷ s) p h = (p, h)

  drop_spaces-All : (s : Text) → All P s → All P (drop_spaces s)
  unfolding drop_spaces
  drop_spaces-All [] h = tt
  drop_spaces-All (c ∷ s) (p, h) = keep-All c (drop_spaces s) p (drop_spaces-All s h)

  pub trim-All : (s : Text) → All P s → All P (trim s)
  unfolding trim
  trim-All s h = drop_spaces-All (skip_spaces s) (skip_spaces-All s h)
