-- ===== src/Signup/Slugs.antt =====
-- The slug of a new organisation while it is typed (frontend/app/signup/page.tsx and
-- frontend/app/org/new/page.tsx).
use nexus_mini.Prelude.{
  ◌≤◌, length, ◌↔◌, ◌≡◌, refl, sym, false, List, [], ◌∷◌, Bool-cases, inl, inr,
}
use nexus_mini.Text.{Text}
use nexus_mini.Slug.{slugify}
use nexus_mini.Slug.Shape.{IsSlug, slugify-IsSlug}
use nexus_mini.Slug.Accepted.{IsAccepted, IsAccepted-IsSlug_iff}
use nexus_mini.Signup.{
  Signup, initial, Typing, type_name, type_email, type_password, type_tenant_name, type_tenant_slug,
  typed, typings,
}

-- The slug has the form that `slugify` gives, and it is the name's as long as nobody has typed a slug.
abbrev pub IsNamed : (Text → Text) → Signup → Type 0
IsNamed lower s =
    IsSlug s.form.tenant_slug
    × (s.slug_touched ≡ false → s.form.tenant_slug ≡ slugify lower s.form.tenant_name)

module _ (lower : Text → Text) where
  typed-IsNamed : (e : Typing) (s : Signup) → IsNamed lower s → IsNamed lower (typed lower e s)
  unfolding typed
  typed-IsNamed (type_name v) s h = h
  typed-IsNamed (type_email v) s h = h
  typed-IsNamed (type_password v) s h = h
  typed-IsNamed (type_tenant_name v) s (i, e) = elim (Bool-cases s.slug_touched) [
    | inl k ↦ rw k (i, λ f. cc)
    | inr k ↦ rw k (slugify-IsSlug lower v, λ f. refl)
  ]
  typed-IsNamed (type_tenant_slug v) s h = (slugify-IsSlug lower v, λ f. absurd (let g = f in cc))

  typings-IsNamed_from :
      (es : List Typing) (s : Signup) → IsNamed lower s → IsNamed lower (typings lower es s)
  unfolding typings
  typings-IsNamed_from [] s h = h
  typings-IsNamed_from (e ∷ es) s h =
      typings-IsNamed_from es (typed lower e s) (typed-IsNamed e s h)

  initial-IsNamed : slugify lower [] ≡ [] → IsNamed lower initial
  initial-IsNamed none = (rw (← none) (slugify-IsSlug lower []), λ f. sym none)

  -- Whatever is typed into the form, in whatever order, the slug that would be sent has the form that
  -- `slugify` gives, and the server's pattern for a slug accepts it exactly if it has two units at least,
  -- so an empty slug and one of one unit are refused; and as long as nothing was typed into its own
  -- field, it is the one of the name in the form. `slugify` is taken to leave the empty text
  -- empty.
  pub typings-IsNamed :
      (es : List Typing)
      → slugify lower [] ≡ []
      → let s = typings lower es initial in
        IsSlug s.form.tenant_slug
        × (IsAccepted s.form.tenant_slug ↔ (2 ≤ length s.form.tenant_slug))
        × (s.slug_touched ≡ false → s.form.tenant_slug ≡ slugify lower s.form.tenant_name)
  typings-IsNamed es none =
      let (slug, named) = typings-IsNamed_from es initial (initial-IsNamed none) in
      (slug, IsAccepted-IsSlug_iff _ slug, named)
