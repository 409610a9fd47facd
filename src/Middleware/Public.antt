-- ===== src/Middleware/Public.antt =====
-- Which paths `PUBLIC` of frontend/middleware.ts lets through.
use nexus_mini.Prelude.{
  ◌≡◌, refl, ◌↔◌, inl, inr, true, false, List, [], ◌∷◌, ◌++◌, In, any, arith, Bool-cases,
  Option-cases,
}
use nexus_mini.Text.{Text, strip_prefix}
use nexus_mini.Text.Prefix.{strip_prefix_append, strip_prefix_sound}
use nexus_mini.Middleware.{slash, public_names, at_boundary, boundary_after, is_public}

-- `path` is `/name`, alone or followed by a slash and more.
pub record IsUnder (name path : Text) : Type 0 where
  pub rest : Text
  pub split : path ≡ slash ∷ name ++ rest
  pub boundary : at_boundary rest ≡ true

boundary_after_sound :
    (name path : Text)
    → boundary_after (strip_prefix (slash ∷ name) path) ≡ true
    → IsUnder name path
unfolding boundary_after
boundary_after_sound name path h = elim (Option-cases (strip_prefix (slash ∷ name) path)) [
  | inl e ↦ absurd (let f : false ≡ true = rw (e, boundary_after) at h in cc)
  | inr (r, e) ↦ record {
    rest = r;
    split = strip_prefix_sound (slash ∷ name) path e;
    boundary = rw (e, boundary_after) at h;
  }
]

boundary_after_complete :
    (name path : Text)
    → IsUnder name path
    → boundary_after (strip_prefix (slash ∷ name) path) ≡ true
unfolding boundary_after
boundary_after_complete name path u =
    rw (u.split) (rw (strip_prefix_append (slash ∷ name) u.rest) u.boundary)

any_sound :
    (names : List Text) (path : Text)
    → any (λ name. boundary_after (strip_prefix (slash ∷ name) path)) names ≡ true
    → (name : Text) × In name names × IsUnder name path
any_sound [] path h = absurd (cc)
any_sound (n ∷ names) path h = elim (Bool-cases (boundary_after (strip_prefix (slash ∷ n) path))) [
  | inl yes' ↦ (n, inl refl, boundary_after_sound n path yes')
  | inr no' ↦ let (m, i, u) = any_sound names path (rw no' at h) in (m, inr i, u)
]

any_complete :
    (names : List Text) (path name : Text)
    → In name names
    → IsUnder name path
    → any (λ m. boundary_after (strip_prefix (slash ∷ m) path)) names ≡ true
any_complete [] path name h u = absurd h
any_complete (n ∷ names) path name (inl e) u =
    ground (arith, boundary_after_complete n path (rw e u))
any_complete (n ∷ names) path name (inr h) u = ground (arith, any_complete names path name h u)

-- A path is public exactly when it is one of `/login`, `/signup`, `/setup`, `/apps` and
-- `/developers`, or lies under one of them; a longer word such as `/loginx` is not.
pub is_public_iff :
    (path : Text)
    → (is_public path ≡ true) ↔ ((name : Text) × In name public_names × IsUnder name path)
unfolding is_public
is_public_iff path = (any_sound public_names path, λ h. any_complete public_names path h.0 h.1 h.2)
