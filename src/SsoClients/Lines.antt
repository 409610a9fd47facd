-- ===== src/SsoClients/Lines.antt =====
-- The addresses of a client, between its row and its form (frontend/app/(portal)/sso-clients/page.tsx).
use mathlib.Core.Path.{subst}
use nexus_mini.Prelude.{◌≡◌, refl, ap, ◌∙◌, ◌↔◌, false, List, [], ◌∷◌, map, All}
use nexus_mini.Text.{Text}
use nexus_mini.Text.Space.{trim}
use nexus_mini.Text.Space.Trimmed.{trim-trim, trim-All}
use nexus_mini.Text.Split.{split, join, filled}
use nexus_mini.Text.Split.Pieces.{
  IsFree, IsFilled, split-join, split-All-IsFree, filled_fixed, filled-All, filled-All-IsFilled,
  All-both,
}
use nexus_mini.SsoClients.{newline}
use nexus_mini.SsoClients.ClientDialog.{is_line_end, lines}

-- An address that the text area can hold: trimmed, without line ends and commas, and not empty.
abbrev pub IsLine : Text → Type 0
IsLine u = ((IsFree is_line_end u) × (trim u ≡ u)) × IsFilled u

trimmed_pieces :
    (ps : List Text)
    → All (IsFree is_line_end) ps
    → All (λ u. IsFree is_line_end u × (trim u ≡ u)) (map trim ps)
trimmed_pieces [] h = tt
trimmed_pieces (p ∷ ps) (f, h) =
    ((trim-All (λ c. is_line_end c ≡ false) p f, trim-trim p), trimmed_pieces ps h)

lines-All-IsLine : (s : Text) → All IsLine (lines s)
unfolding lines
lines-All-IsLine s =
    let ps = map trim (split is_line_end s) in
    let both = trimmed_pieces (split is_line_end s) (split-All-IsFree is_line_end s) in
    All-both (λ u. IsFree is_line_end u × (trim u ≡ u)) IsFilled (filled ps) (filled-All _ ps both)
      (filled-All-IsFilled ps)

map-trim : (us : List Text) → All IsLine us → map trim us ≡ us
map-trim [] h = refl
map-trim (u ∷ us) (((f, e), n), h) = rw (e, map-trim us h) refl

free : (us : List Text) → All IsLine us → All (IsFree is_line_end) us
free [] h = tt
free (u ∷ us) (((f, e), n), h) = (f, free us h)

full : (us : List Text) → All IsLine us → All IsFilled us
full [] h = tt
full (u ∷ us) (((f, e), n), h) = (n, full us h)

lines-join_of_IsLine : (us : List Text) → All IsLine us → lines (join newline us) ≡ us
unfolding lines join split filled trim
lines-join_of_IsLine [] h = refl
lines-join_of_IsLine (u ∷ us) h =
    ap (λ ps. filled (map trim ps)) (split-join is_line_end newline u us refl (free (u ∷ us) h))
    ∙ (ap filled (map-trim (u ∷ us) h) ∙ filled_fixed (u ∷ us) (full (u ∷ us) h))

-- The addresses of a client come back out of the form that they are put in exactly if each of them
-- is trimmed and not empty, and holds neither a line end nor a comma: saving a client whose address
-- has a comma changes its addresses.
pub lines-join_iff : (us : List Text) → (lines (join newline us) ≡ us) ↔ All IsLine us
lines-join_iff us =
    (λ e. subst (All IsLine) e (lines-All-IsLine (join newline us)), lines-join_of_IsLine us)
