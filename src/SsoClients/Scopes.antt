-- ===== src/SsoClients/Scopes.antt =====
-- What a click on a scope changes (frontend/app/(portal)/sso-clients/page.tsx).
use nexus_mini.Prelude.{
  ◌≡◌, refl, ap, ◌∙◌, inl, inr, Bool, true, false, not, List, [], ◌∷◌, ◌++◌, All, All-append, arith,
  Bool-cases, filter, if◌then◌else◌,
}
use nexus_mini.Text.{Text, text_eq}
use nexus_mini.Text.Prefix.{text_eq_sound}
use nexus_mini.Text.Split.{split, join, filled}
use nexus_mini.Text.Split.Pieces.{
  IsFree, IsFilled, split-join, split-All-IsFree, filled_fixed, filled-All, filled-All-IsFilled,
  All-both,
}
use nexus_mini.SsoClients.ClientDialog.{is_blank, scopes_of, has_scope, toggled}

-- A scope as the text keeps it: not empty and without blanks.
abbrev pub IsScope : Text → Type 0
IsScope s = IsFree is_blank s × IsFilled s

scopes_of-All-IsScope : (s : Text) → All IsScope (scopes_of s)
unfolding scopes_of
scopes_of-All-IsScope s =
    All-both (IsFree is_blank) IsFilled (filled (split is_blank s))
      (filled-All (IsFree is_blank) (split is_blank s) (split-All-IsFree is_blank s))
      (filled-All-IsFilled (split is_blank s))

free : (ss : List Text) → All IsScope ss → All (IsFree is_blank) ss
free [] h = tt
free (s ∷ ss) ((f, n), h) = (f, free ss h)

full : (ss : List Text) → All IsScope ss → All IsFilled ss
full [] h = tt
full (s ∷ ss) ((f, n), h) = (n, full ss h)

scopes_of-join : (ss : List Text) → All IsScope ss → scopes_of (join 32 ss) ≡ ss
unfolding scopes_of join split filled
scopes_of-join [] h = refl
scopes_of-join (s ∷ ss) h =
    ap filled (split-join is_blank 32 s ss refl (free (s ∷ ss) h))
    ∙ filled_fixed (s ∷ ss) (full (s ∷ ss) h)

filter-All-IsScope : (p : Text → Bool) (ss : List Text) → All IsScope ss → All IsScope (filter p ss)
filter-All-IsScope p [] h = tt
filter-All-IsScope p (s ∷ ss) (i, h) = elim (Bool-cases (p s)) [
  | inl e ↦ rw e (i, filter-All-IsScope p ss h)
  | inr e ↦ rw e (filter-All-IsScope p ss h)
]

has_scope_same : (x y z : Text) → text_eq x y ≡ true → text_eq z x ≡ text_eq z y
has_scope_same x y z e = ap (text_eq z) (text_eq_sound x y e)

has_scope-append_one :
    (x s : Text) (ss : List Text)
    → has_scope x (ss ++ (s ∷ [])) ≡ (if text_eq s x then true else has_scope x ss)
has_scope-append_one x s [] = ground arith
has_scope-append_one x s (r ∷ ss) = ground (arith, has_scope-append_one x s ss)

has_scope-filter :
    (x s : Text) (ss : List Text)
    → has_scope x (filter (λ r. not (text_eq r s)) ss)
      ≡ (if text_eq s x then false else has_scope x ss)
has_scope-filter x s [] = ground arith
has_scope-filter x s (r ∷ ss) = elim (Bool-cases (text_eq r s)) [
  | inl e ↦
      let same : r ≡ s = text_eq_sound r s e in
      rw e (has_scope-filter x s ss ∙ rw same (ground arith))
  | inr e ↦ elim (Bool-cases (text_eq s x)) [
    | inl f ↦
        let same : s ≡ x = text_eq_sound s x f in
        let other : text_eq r x ≡ false = rw (← same) e in ground (arith, has_scope-filter x s ss)
    | inr f ↦ ground (arith, has_scope-filter x s ss)
  ]
]

-- A click on a scope turns this scope over and leaves every other one: what the new text is read as
-- has the clicked scope exactly if the old one did not, and any other exactly if the old one did.
pub has_scope-toggled :
    (s x scopes : Text)
    → IsScope s
    → has_scope x (scopes_of (toggled s scopes)) ≡ (
        if text_eq s x
        then not (has_scope s (scopes_of scopes))
        else has_scope x (scopes_of scopes))
unfolding toggled
has_scope-toggled s x scopes i = elim (Bool-cases (has_scope s (scopes_of scopes))) [
  | inl e ↦
      let kept =
        filter-All-IsScope (λ r. not (text_eq r s)) (scopes_of scopes)
          (scopes_of-All-IsScope scopes) in
      rw e (rw (scopes_of-join _ kept) (has_scope-filter x s (scopes_of scopes)))
  | inr e ↦
      let longer =
        All-append IsScope (scopes_of scopes) (s ∷ []) (scopes_of-All-IsScope scopes) (i, tt) in
      rw e (rw (scopes_of-join _ longer) (has_scope-append_one x s (scopes_of scopes)))
]
