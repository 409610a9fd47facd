-- ===== src/Slug/Fixed.antt =====
-- Texts that `slugify` leaves alone (frontend/lib/slug.ts).
use nexus_mini.Prelude.{
  ℕ, List, In, all, nat_eq, sym, ◌∙◌, Bool-cases, zero, suc, ◌≤◌, ◌<◌, ◌≡◌, refl, ap, ◌⊎◌, inl, inr,
  Bool, true, false, [], ◌∷◌, ◌++◌, arith, length, take,
}
use nexus_mini.Text.{Text, text_eq}
use nexus_mini.Text.Prefix.{text_eq_sound}
use nexus_mini.Slug.{
  slugify, is_word, dash, dash_runs, trim_start, trim_end, keep_unless_dash, latinize,
  transliterate, translit,
}
use nexus_mini.Slug.Shape.{StartsWithWord, EndsWithWord, IsSpaced, IsSlug, word_not_dash}

units_to : ℕ → List ℕ
units_to zero = []
units_to (suc top) = top ∷ units_to top

In-units_to : (top c : ℕ) → c < top → In c (units_to top)
unfolding units_to
In-units_to zero c h = absurd (omega arith)
In-units_to (suc top) c h = elim (Bool-cases (nat_eq top c)) [
  | inl same ↦ inl (ground arith)
  | inr other ↦ inr (In-units_to top c (ground arith))
]

abbrev is_kept : ℕ → Bool
is_kept c = text_eq (transliterate translit c) (c ∷ [])

kept_of_In : (cs : List ℕ) (c : ℕ) → all is_kept cs ≡ true → In c cs → is_kept c ≡ true
kept_of_In [] c h i = absurd i
kept_of_In (x ∷ cs) c h (inl same) = ap is_kept (sym same) ∙ ground arith
kept_of_In (x ∷ cs) c h (inr i) = kept_of_In cs c (ground arith) i

-- Below the Cyrillic block no unit is transliterated.
kept_table : all is_kept (units_to 128) ≡ true
unfolding units_to transliterate
kept_table = refl

transliterate_ascii : (c : ℕ) → c < 128 → transliterate translit c ≡ c ∷ []
transliterate_ascii c h =
    text_eq_sound _ _ (kept_of_In (units_to 128) c kept_table (In-units_to 128 c h))

word-lt : (c : ℕ) → is_word c ≡ true → c < 128
unfolding is_word
word-lt c h = ground arith

slug_unit-lt : (c : ℕ) {P : Type 0} → (is_word c ≡ true) ⊎ ((c ≡ dash) × P) → c < 128
slug_unit-lt c (inl w) = word-lt c w
slug_unit-lt c (inr (e, p)) = omega arith

latinize_fixed : (s : Text) → IsSpaced s → latinize s ≡ s
unfolding latinize
latinize_fixed [] h = refl
latinize_fixed (c ∷ s) (here, later) =
    rw (transliterate_ascii c (slug_unit-lt c here), latinize_fixed s later)

dash_runs_start : (s : Text) → StartsWithWord s → dash_runs true s ≡ dash_runs false s
unfolding dash_runs
dash_runs_start [] h = refl
dash_runs_start (c ∷ s) h = rw h

dash_not_word : is_word dash ≡ false
unfolding is_word
dash_not_word = refl

dash_runs_fixed : (s : Text) → IsSpaced s → dash_runs false s ≡ s
unfolding dash_runs
dash_runs_fixed [] h = refl
dash_runs_fixed (c ∷ s) (inl w, later) = rw (w, dash_runs_fixed s later)
dash_runs_fixed (c ∷ s) (inr (e, start), later) =
    rw (e, dash_not_word, dash_runs_start s start, dash_runs_fixed s later)

trim_start_fixed : (s : Text) → StartsWithWord s → trim_start s ≡ s
unfolding trim_start
trim_start_fixed [] h = refl
trim_start_fixed (c ∷ s) h = rw (word_not_dash c h)

trim_end_fixed : (s : Text) → EndsWithWord s → trim_end s ≡ s
unfolding trim_end keep_unless_dash
trim_end_fixed [] h = refl
trim_end_fixed (c ∷ []) h = rw (word_not_dash c h)
trim_end_fixed (c ∷ d ∷ s) h = rw (trim_end_fixed (d ∷ s) h, keep_unless_dash)

take_all : (n : ℕ) (s : Text) → length s ≤ n → take n s ≡ s
take_all zero [] h = refl
take_all zero (c ∷ s) h = absurd (omega arith)
take_all (suc n) [] h = refl
take_all (suc n) (c ∷ s) h = ap (λ t. c ∷ t) (take_all n s (omega arith))

-- A slug that does not end in a dash is its own slug, if `toLowerCase` leaves it alone.
pub slugify_fixed :
    (lower : Text → Text) (s : Text) → IsSlug s → EndsWithWord s → lower s ≡ s → slugify lower s ≡ s
unfolding slugify
slugify_fixed lower s slug ends low =
    rw (low, latinize_fixed s slug.spaced, dash_runs_fixed s slug.spaced)
      (rw (trim_start_fixed s slug.start) (rw (trim_end_fixed s ends) (take_all 40 s slug.short)))

dash_behind-IsSpaced : (s : Text) → IsSpaced s → EndsWithWord s → IsSpaced (s ++ (dash ∷ []))
dash_behind-IsSpaced [] h e = (inr (refl, tt), tt)
dash_behind-IsSpaced (c ∷ []) (here, later) e = (inl e, (inr (refl, tt), tt))
dash_behind-IsSpaced (c ∷ d ∷ s) (here, later) e = (here, dash_behind-IsSpaced (d ∷ s) later e)

dash_behind-StartsWithWord :
    (c : ℕ) (s : Text) → StartsWithWord (c ∷ s) → StartsWithWord ((c ∷ s) ++ (dash ∷ []))
dash_behind-StartsWithWord c s h = h

trim_end-dash : (s : Text) → trim_end (s ++ (dash ∷ [])) ≡ trim_end s
unfolding trim_end keep_unless_dash
trim_end-dash [] = refl
trim_end-dash (c ∷ s) = ap (keep_unless_dash c) (trim_end-dash s)

only_dash : take 40 (trim_end (trim_start (dash_runs false (dash ∷ [])))) ≡ []
unfolding dash_runs is_word trim_start trim_end keep_unless_dash
only_dash = refl

-- The slug of a slug with a dash behind it is that slug, if `toLowerCase` leaves it alone.
pub slugify-dash :
    (lower : Text → Text) (s : Text)
    → IsSlug s
    → EndsWithWord s
    → lower (s ++ (dash ∷ [])) ≡ s ++ (dash ∷ [])
    → slugify lower (s ++ (dash ∷ [])) ≡ s
unfolding slugify
slugify-dash lower [] slug ends low =
    ap (λ u. take 40 (trim_end (trim_start (dash_runs false (latinize u))))) low
    ∙ (ap (λ u. take 40 (trim_end (trim_start (dash_runs false u))))
          (latinize_fixed (dash ∷ []) (inr (refl, tt), tt))
        ∙ only_dash)
slugify-dash lower (c ∷ s) slug ends low =
    let spaced = dash_behind-IsSpaced (c ∷ s) slug.spaced ends in
    rw
      (
        low,
        latinize_fixed ((c ∷ s) ++ (dash ∷ [])) spaced,
        dash_runs_fixed ((c ∷ s) ++ (dash ∷ [])) spaced,
      )
      (rw (trim_start_fixed ((c ∷ s) ++ (dash ∷ [])) (dash_behind-StartsWithWord c s slug.start)) (
        rw (trim_end-dash (c ∷ s))
          (rw (trim_end_fixed (c ∷ s) ends) (take_all 40 (c ∷ s) slug.short))))
