-- ===== src/Roles/Matrix.antt =====
-- Which cells of the matrix take a click (frontend/app/(portal)/roles/page.tsx).
use nexus_mini.Prelude.{
  String, ◌≡◌, refl, ◌≢◌, ◌↔◌, inl, inr, false, not, List, [], ◌∷◌, Option, none, some, arith, ◌==◌,
  eq_iff, Bool-cases, In, In-one,
}
use mathlib.Core.Path.{subst₂}
use nexus_mini.GroupBy.{fill-In, In-fill}
use nexus_mini.Ui.{
  offered, offered-append, offered-append_right, offered-each, each-offered, when, each, text,
  button, code, alert,
}
use nexus_mini.Roles.{
  Role, Permission, Page, Action, cycle_cell, dismiss_error, cell, group_rows, header, matrix, view,
  string_key, group_of, groups,
}

module _ (t : String → String) where
  cell-offered :
      (p : Permission) (r : Role) (a : Action)
      → In a (offered (cell t p r))
      → (cycle_cell r p ≡ a) × (r.code ≢ "admin")
  unfolding cell offered
  cell-offered p r a h = elim (Bool-cases (r.code == "admin")) [
    | inl e ↦ absurd (rw e at h)
    | inr e ↦ (In-one a (cycle_cell r p) (rw e at h), λ same. ground (arith, eq_iff r.code "admin"))
  ]

  offered-cell :
      (p : Permission) (r : Role) → r.code ≢ "admin" → In (cycle_cell r p) (offered (cell t p r))
  unfolding cell offered
  offered-cell p r h =
      let other : (r.code == "admin") ≡ false = ground (arith, eq_iff r.code "admin") in
      rw other (inl refl)

  -- What it takes for the click on a cell to be there.
  pub record IsOpenCell (s : Page) (r : Role) (p : Permission) : Type 0 where
    pub loaded : List Role
    pub shown : s.roles ≡ some loaded
    pub role_listed : In r loaded
    pub permission_listed : In p s.perms
    pub not_admin : r.code ≢ "admin"

  group_rows-offered :
      (roles : List Role) (g : String × List Permission) (a : Action)
      → In a (offered (group_rows t roles g))
      → (p : Permission) × In p g.1 × (r : Role) × In r roles × In a (offered (cell t p r))
  unfolding group_rows offered
  group_rows-offered roles (g, list) a h =
      let (p, i, k) =
        offered-each (λ q. text q.name ∷ code q.code ∷ each (cell t q) roles) a list h in
      let (r, j, l) = offered-each (cell t p) a roles k in (p, i, r, j, l)

  header_closed : (r : Role) (a : Action) → ¬ In a (offered (header t r))
  unfolding offered
  header_closed r a h = elim (Bool-cases (r.implies == "")) [
    | inl e ↦ absurd (rw e at h)
    | inr e ↦ absurd (rw e at h)
  ]

  matrix-offered :
      (s : Page) (shown : Option (List Role)) (a : Action)
      → s.roles ≡ shown
      → In a (offered (matrix t shown s.perms))
      → (r : Role) × (p : Permission) × (cycle_cell r p ≡ a) × IsOpenCell s r p
  unfolding matrix offered
  matrix-offered s none a e h = absurd h
  matrix-offered s (some roles) a e h =
      elim (offered-append a (each (header t) roles) (each (group_rows t roles) (groups s.perms))
        h) [
          | inl l ↦
              let (r, i, k) = offered-each (header t) a roles l in absurd (header_closed r a k)
          | inr l ↦
              let (g, i, k) = offered-each (group_rows t roles) a (groups s.perms) l in
              let (p, j, r, m, n) = group_rows-offered roles g a k in
              let (same, open') = cell-offered p r a n in
              (
                r,
                p,
                same,
                record {
                  loaded = roles;
                  shown = e;
                  role_listed = m;
                  permission_listed = unfold groups in fill-In string_key group_of s.perms g p i j;
                  not_admin = open';
                },
              )
        ]

  banner_closed :
      (s : Page) (r : Role) (p : Permission)
      → ¬ In (cycle_cell r p) (
          offered
            (when (not (s.err == "")) (alert "danger" s.err ∷ button "×" false dismiss_error ∷ [])))
  unfolding offered
  banner_closed s r p h = elim (Bool-cases (s.err == "")) [
    | inl e ↦ absurd (rw e at h)
    | inr e ↦ let one : dismiss_error ≡ cycle_cell r p = In-one _ _ (rw e at h) in cc
  ]

  In-matrix :
      (s : Page) (r : Role) (p : Permission)
      → In (cycle_cell r p) (offered (view t s))
      → In (cycle_cell r p) (offered (matrix t s.roles s.perms))
  unfolding view offered
  In-matrix s r p (inl e) = cc
  In-matrix s r p (inr h) =
      elim (offered-append (cycle_cell r p)
        (when (not (s.err == "")) (alert "danger" s.err ∷ button "×" false dismiss_error ∷ []))
        (matrix t s.roles s.perms) h) [ inl l ↦ absurd (banner_closed s r p l) | inr l ↦ l ]

  open_offered :
      (s : Page) (r : Role) (p : Permission) (roles : List Role)
      → In r roles
      → In p s.perms
      → r.code ≢ "admin"
      → In (cycle_cell r p) (offered (matrix t (some roles) s.perms))
  unfolding matrix groups offered
  open_offered s r p roles i j n =
      let (us, k, l) = In-fill string_key group_of s.perms p j in
      let in_cell = offered-cell p r n in
      let in_row = each-offered (cell t p) (cycle_cell r p) roles r i in_cell in
      let in_group : In (cycle_cell r p) (offered (group_rows t roles (group_of p, us))) =
        each-offered (λ q. text q.name ∷ code q.code ∷ each (cell t q) roles) (cycle_cell r p) us p
          l in_row in
      offered-append_right (cycle_cell r p) (each (header t) roles) _ (
        each-offered (group_rows t roles) (cycle_cell r p) (groups s.perms) (group_of p, us) k
          in_group)

  -- The click on the cell of a role and a permission is offered exactly if both are loaded and the
  -- role is not the admin's: no permission is lost in the grouping, and the admin's column is closed.
  pub offered-view_iff :
      (s : Page) (r : Role) (p : Permission)
      → In (cycle_cell r p) (offered (view t s)) ↔ IsOpenCell s r p
  offered-view_iff s r p = (
    λ h.
        let (q, o, same, open') =
          matrix-offered s s.roles (cycle_cell r p) refl (In-matrix s r p h) in
        let same_role : q ≡ r = cc in
        let same_permission : o ≡ p = cc in subst₂ (IsOpenCell s) same_role same_permission open',
    λ h.
        unfold view offered in
        inr (
          offered-append_right (cycle_cell r p)
            (when (not (s.err == "")) (alert "danger" s.err ∷ button "×" false dismiss_error ∷ []))
            (matrix t s.roles s.perms)
            (rw (h.shown)
              (open_offered s r p h.loaded h.role_listed h.permission_listed h.not_admin))),
  )
