-- ===== src/Members/Table.antt =====
-- What the members page offers (frontend/app/(portal)/members/page.tsx).
use mathlib.Core.Path.{subst}
use nexus_mini.Prelude.{
  String, ◌≡◌, refl, ◌≢◌, ◌↔◌, ◌⊎◌, inl, inr, false, not, List, [], ◌∷◌, some, arith, ◌==◌, eq_iff,
  Bool-cases, In, In-one,
}
use nexus_mini.Ui.{
  offered, offered-append, offered-append_left, offered-append_right, offered-each, each-offered,
  each,
}
use nexus_mini.Members.{
  Member, Page, Action, start_adding, toggle_role, start_removing, includes, role_codes, toggle,
  removal, row, table, body, view,
}

module _ (t : String → String) (user_id : String) where
  -- The clicks on the rows of other members than the visitor: on each role code, which turns the
  -- role over, and on the removal.
  pub data IsRowAction (codes : List String) (members : List Member) : Action → Type 0 where
    toggling :
        {m : Member} {c : String}
        → In m members
        → In c codes
        → m.user_id ≢ user_id
        → IsRowAction codes members (toggle_role m c (not (includes c m.roles)))
    dismissing :
        {m : Member}
        → In m members
        → m.user_id ≢ user_id
        → IsRowAction codes members (start_removing m)

  other_user : (m : Member) → (m.user_id == user_id) ≡ false → m.user_id ≢ user_id
  other_user m e same = ground (arith, eq_iff m.user_id user_id)

  other_test : (m : Member) → m.user_id ≢ user_id → (m.user_id == user_id) ≡ false
  other_test m n = ground (arith, eq_iff m.user_id user_id)

  toggle_sound :
      (codes : List String) (members : List Member) (m : Member) (c : String) (a : Action)
      → In m members
      → In c codes
      → In a (offered (toggle t user_id m c))
      → IsRowAction codes members a
  unfolding offered
  toggle_sound codes members m c a i j h = elim (Bool-cases (m.user_id == user_id)) [
    | inl e ↦ absurd (rw e at h)
    | inr e ↦
        subst (IsRowAction codes members) (In-one a _ (rw e at h)) (toggling i j (other_user m e))
  ]

  removal_sound :
      (codes : List String) (members : List Member) (m : Member) (a : Action)
      → In m members
      → In a (offered (removal t user_id m))
      → IsRowAction codes members a
  unfolding offered
  removal_sound codes members m a i h = elim (Bool-cases (m.user_id == user_id)) [
    | inl e ↦ absurd (rw e at h)
    | inr e ↦
        subst (IsRowAction codes members) (In-one a _ (rw e at h)) (dismissing i (other_user m e))
  ]

  row_sound :
      (codes : List String) (members : List Member) (m : Member) (a : Action)
      → In m members
      → In a (offered (row t user_id codes m))
      → IsRowAction codes members a
  unfolding row offered
  row_sound codes members m a i h =
      elim (offered-append a (each (toggle t user_id m) codes) (removal t user_id m) h) [
        | inl l ↦
            let (c, j, k) = offered-each (toggle t user_id m) a codes l in
            toggle_sound codes members m c a i j k
        | inr r ↦ removal_sound codes members m a i r
      ]

  row_complete :
      (codes : List String) (members : List Member) (a : Action)
      → IsRowAction codes members a
      → (m : Member) × In m members × In a (offered (row t user_id codes m))
  unfolding row offered
  row_complete codes members _ (toggling {m} {c} i j n) =
      let off = other_test m n in
      (
        m,
        i,
        offered-append_left _ (each (toggle t user_id m) codes) (removal t user_id m)
            (each-offered (toggle t user_id m) _ codes c j (rw off (inl refl))),
      )
  row_complete codes members _ (dismissing {m} i n) =
      let off = other_test m n in
      (
        m,
        i,
        offered-append_right _ (each (toggle t user_id m) codes) (removal t user_id m)
            (rw off (inl refl)),
      )

  table_iff :
      (codes : List String) (members : List Member) (a : Action)
      → In a (offered (table t user_id codes members)) ↔ IsRowAction codes members a
  unfolding table offered
  table_iff codes [] a = (λ h. absurd h, λ r. let (m, i, k) = row_complete codes [] a r in absurd i)
  table_iff codes (x ∷ rest) a = (
    λ h.
        let (m, i, k) = offered-each (row t user_id codes) a (x ∷ rest) h in
        row_sound codes (x ∷ rest) m a i k,
    λ r.
        let (m, i, k) = row_complete codes (x ∷ rest) a r in
        each-offered (row t user_id codes) a (x ∷ rest) m i k,
  )

  -- Once the members are loaded without an error, the page offers the dialog for a new member, and
  -- for each member but the visitor a click on each role code, which turns that role over, and the
  -- removal; it offers nothing else.
  pub offered-view_members_iff :
      (s : Page) (members : List Member) (a : Action)
      → s.load_err ≡ ""
      → s.members ≡ some members
      → In a (offered (view t user_id s))
        ↔ ((start_adding ≡ a) ⊎ IsRowAction (role_codes s.roles) members a)
  unfolding view body offered
  offered-view_members_iff s members a clean shown =
      rw (clean, shown)
        (
          λ h. elim h [
            | inl e ↦ inl e
            | inr r ↦ inr ((table_iff (role_codes s.roles) members a).0 r)
          ],
          λ h. elim h [
            | inl e ↦ inl e
            | inr r ↦ inr ((table_iff (role_codes s.roles) members a).1 r)
          ],
        )
