-- ===== src/Text/Split.antt =====
-- `split` at single units, and `join`.
pub mod Pieces
use nexus_mini.Prelude.{ℕ, Bool, true, false, not, List, [], ◌∷◌, ◌++◌, if◌then◌else◌}
use nexus_mini.Text.{Text}

-- The unit `c` in front of the first piece.
pub onto_first : ℕ → List Text → List Text
onto_first c [] = (c ∷ []) ∷ []
onto_first c (p ∷ ps) = (c ∷ p) ∷ ps

-- The pieces between the units that `is_sep` picks out: one more than there are such units.
unfoldable pub split : (ℕ → Bool) → Text → List Text
unfolding onto_first
split is_sep [] = [] ∷ []
split is_sep (c ∷ s) =
    let rest = split is_sep s in if is_sep c then [] ∷ rest else onto_first c rest

-- `[…].join(sep)`, for a separator of one unit.
unfoldable pub join : ℕ → List Text → Text
join sep [] = []
join sep (x ∷ []) = x
join sep (x ∷ y ∷ xs) = x ++ (sep ∷ join sep (y ∷ xs))

-- `filter(Boolean)`: the empty text is false.
unfoldable pub filled : List Text → List Text
filled [] = []
filled ([] ∷ ps) = filled ps
filled ((c ∷ s) ∷ ps) = (c ∷ s) ∷ filled ps
