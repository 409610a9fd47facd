-- ===== src/Text/Split/Pieces.antt =====
-- The pieces of a text, and how they are put together again.
use nexus_mini.Prelude.{
  ℕ, ◌≡◌, refl, ap, ◌∙◌, ◌≢◌, inl, inr, Bool, true, false, List, [], ◌∷◌, ◌++◌, All, Bool-cases,
}
use nexus_mini.Text.{Text}
use nexus_mini.Text.Split.{onto_first, split, join, filled}

-- None of the units is a separator.
abbrev pub IsFree : (ℕ → Bool) → Text → Type 0
IsFree is_sep = All (λ c. is_sep c ≡ false)

abbrev pub IsFilled : Text → Type 0
IsFilled s = s ≢ []

module _ (is_sep : ℕ → Bool) where
  pub split_free : (s : Text) → IsFree is_sep s → split is_sep s ≡ s ∷ []
  unfolding split onto_first
  split_free [] h = refl
  split_free (c ∷ s) (e, h) = rw (split_free s h, e) refl

  split_sep :
      (s r : Text) (c : ℕ)
      → IsFree is_sep s
      → is_sep c ≡ true
      → split is_sep (s ++ (c ∷ r)) ≡ s ∷ split is_sep r
  unfolding split onto_first
  split_sep [] r c h e = rw e refl
  split_sep (d ∷ s) r c (f, h) e = rw (split_sep s r c h e, f) refl

  pub split-join :
      (sep : ℕ) (x : Text) (xs : List Text)
      → is_sep sep ≡ true
      → All (IsFree is_sep) (x ∷ xs)
      → split is_sep (join sep (x ∷ xs)) ≡ x ∷ xs
  unfolding join
  split-join sep x [] e (h, u) = split_free x h
  split-join sep x (y ∷ ys) e (h, k) =
      split_sep x (join sep (y ∷ ys)) sep h e ∙ ap (λ ps. x ∷ ps) (split-join sep y ys e k)

  onto_first-All-IsFree :
      (c : ℕ) (ps : List Text)
      → is_sep c ≡ false
      → All (IsFree is_sep) ps
      → All (IsFree is_sep) (onto_first c ps)
  unfolding onto_first
  onto_first-All-IsFree c [] e h = ((e, tt), tt)
  onto_first-All-IsFree c (p ∷ ps) e (h, k) = ((e, h), k)

  pub split-All-IsFree : (s : Text) → All (IsFree is_sep) (split is_sep s)
  unfolding split
  split-All-IsFree [] = (tt, tt)
  split-All-IsFree (c ∷ s) = elim (Bool-cases (is_sep c)) [
    | inl e ↦ rw e (tt, split-All-IsFree s)
    | inr e ↦ rw e (onto_first-All-IsFree c (split is_sep s) e (split-All-IsFree s))
  ]

pub filled-All-IsFilled : (ps : List Text) → All IsFilled (filled ps)
unfolding filled
filled-All-IsFilled [] = tt
filled-All-IsFilled ([] ∷ ps) = filled-All-IsFilled ps
filled-All-IsFilled ((c ∷ s) ∷ ps) = (λ e. cc, filled-All-IsFilled ps)

pub filled_fixed : (ps : List Text) → All IsFilled ps → filled ps ≡ ps
unfolding filled
filled_fixed [] h = refl
filled_fixed ([] ∷ ps) (n, h) = absurd (n refl)
filled_fixed ((c ∷ s) ∷ ps) (n, h) = ap (λ qs. (c ∷ s) ∷ qs) (filled_fixed ps h)

pub filled-All : (P : Text → Type 0) (ps : List Text) → All P ps → All P (filled ps)
unfolding filled
filled-All P [] h = tt
filled-All P ([] ∷ ps) (p, h) = filled-All P ps h
filled-All P ((c ∷ s) ∷ ps) (p, h) = (p, filled-All P ps h)

-- Two predicates at once.
pub All-both :
    (P Q : Text → Type 0) (ps : List Text) → All P ps → All Q ps → All (λ s. P s × Q s) ps
All-both P Q [] h k = tt
All-both P Q (x ∷ ps) (p, h) (q, k) = ((p, q), All-both P Q ps h k)
