-- ===== src/Slug/Shape.antt =====
-- The form of a slug (frontend/lib/slug.ts).
use nexus_mini.Prelude.{
  ℕ, zero, suc, ◌≤◌, ◌≡◌, refl, ◌⊎◌, inl, inr, Bool, true, false, [], ◌∷◌, arith, nat_eq, length,
  take, length-take-le,
}
use nexus_mini.Text.{Text}
use nexus_mini.Slug.{
  slugify, is_word, dash, dash_runs, trim_start, trim_end, keep_unless_dash, latinize,
}

-- The first unit, if there is one, is a letter or a digit.
abbrev pub StartsWithWord : Text → Type 0
StartsWithWord [] = Unit
StartsWithWord (c ∷ s) = is_word c ≡ true

-- Every unit is a letter, a digit, or a dash with no dash behind it.
abbrev pub IsSpaced : Text → Type 0
IsSpaced [] = Unit
IsSpaced (c ∷ s) = ((is_word c ≡ true) ⊎ ((c ≡ dash) × StartsWithWord s)) × IsSpaced s

-- The last unit, if there is one, is a letter or a digit.
abbrev pub EndsWithWord : Text → Type 0
EndsWithWord [] = Unit
EndsWithWord (c ∷ []) = is_word c ≡ true
EndsWithWord (c ∷ d ∷ s) = EndsWithWord (d ∷ s)

dash_not_word : is_word dash ≡ false
unfolding is_word
dash_not_word = refl

pub word_not_dash : (c : ℕ) → is_word c ≡ true → nat_eq c dash ≡ false
unfolding is_word
word_not_dash c h = ground arith

dash_runs-IsSpaced :
    (inside : Bool) (s : Text)
    → IsSpaced (dash_runs inside s) × (inside ≡ true → StartsWithWord (dash_runs inside s))
unfolding dash_runs
dash_runs-IsSpaced inside [] = (tt, λ h. tt)
dash_runs-IsSpaced true (c ∷ s) =
    ground (arith, dash_runs-IsSpaced false s, dash_runs-IsSpaced true s)
dash_runs-IsSpaced false (c ∷ s) =
    ground (arith, dash_runs-IsSpaced false s, dash_runs-IsSpaced true s)

trim_start-IsSpaced :
    (s : Text) → IsSpaced s → IsSpaced (trim_start s) × StartsWithWord (trim_start s)
unfolding trim_start
trim_start-IsSpaced [] h = (tt, tt)
trim_start-IsSpaced (c ∷ s) h = ground (arith, trim_start-IsSpaced s h.1)

keep_unless_dash-IsSpaced :
    (c : ℕ) (s : Text)
    → (is_word c ≡ true) ⊎ ((c ≡ dash) × StartsWithWord s)
    → IsSpaced s
    → IsSpaced (keep_unless_dash c s)
unfolding keep_unless_dash
keep_unless_dash-IsSpaced c [] h k = ground arith
keep_unless_dash-IsSpaced c (d ∷ s) h k = (h, k)

trim_end-StartsWithWord : (s : Text) → StartsWithWord s → StartsWithWord (trim_end s)
unfolding trim_end keep_unless_dash
trim_end-StartsWithWord [] h = tt
trim_end-StartsWithWord (c ∷ s) h = go (trim_end s)
  where
    go : (t : Text) → StartsWithWord (keep_unless_dash c t)
    go [] = ground (arith, word_not_dash c h)
    go (d ∷ t) = h

trim_end-IsSpaced : (s : Text) → IsSpaced s → IsSpaced (trim_end s)
unfolding trim_end
trim_end-IsSpaced [] h = tt
trim_end-IsSpaced (c ∷ s) (here, later) =
    keep_unless_dash-IsSpaced c (trim_end s) (start here) (trim_end-IsSpaced s later)
  where
    start :
        (is_word c ≡ true) ⊎ ((c ≡ dash) × StartsWithWord s)
        → (is_word c ≡ true) ⊎ ((c ≡ dash) × StartsWithWord (trim_end s))
    start (inl w) = inl w
    start (inr (e, w)) = inr (e, trim_end-StartsWithWord s w)

take-StartsWithWord : (n : ℕ) (s : Text) → StartsWithWord s → StartsWithWord (take n s)
take-StartsWithWord zero s h = tt
take-StartsWithWord (suc n) [] h = tt
take-StartsWithWord (suc n) (c ∷ s) h = h

take-IsSpaced : (n : ℕ) (s : Text) → IsSpaced s → IsSpaced (take n s)
take-IsSpaced zero s h = tt
take-IsSpaced (suc n) [] h = tt
take-IsSpaced (suc n) (c ∷ s) (inl w, later) = (inl w, take-IsSpaced n s later)
take-IsSpaced (suc n) (c ∷ s) (inr (e, w), later) =
    (inr (e, take-StartsWithWord n s w), take-IsSpaced n s later)

-- The form that `slugify` gives (what the server accepts is in Slug/Accepted): at most 40 units, each a lower-case latin letter, a digit or a dash, the first of them no
-- dash, and no two dashes in a row.
pub record IsSlug (s : Text) : Type 0 where
  pub short : length s ≤ 40
  pub spaced : IsSpaced s
  pub start : StartsWithWord s

-- Whatever the text, and whatever `toLowerCase` makes of it, `slugify` gives at most 40 units,
-- only lower-case latin letters, digits and single dashes, and no dash at the start.
pub slugify-IsSlug : (lower : Text → Text) (s : Text) → IsSlug (slugify lower s)
unfolding slugify
slugify-IsSlug lower s =
    let t = trim_start (dash_runs false (latinize (lower s))) in
    let (spaced, start) = trim_start-IsSpaced _ (dash_runs-IsSpaced false (latinize (lower s))).0 in
    record {
      short = length-take-le 40 (trim_end t);
      spaced = take-IsSpaced 40 _ (trim_end-IsSpaced t spaced);
      start = take-StartsWithWord 40 _ (trim_end-StartsWithWord t start);
    }
