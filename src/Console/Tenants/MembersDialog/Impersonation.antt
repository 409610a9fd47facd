-- ===== src/Console/Tenants/MembersDialog/Impersonation.antt =====
-- Whose name an administrator may use (admin/app/(panel)/tenants/page.tsx).
use mathlib.Core.Path.{subst}
use nexus_mini.Prelude.{
  String, ◌≡◌, refl, ap, ◌↔◌, inl, inr, true, false, not, List, [], ◌∷◌, ◌++◌, some, In, ◌==◌,
}
use nexus_mini.Ui.{text, alert, button, when, offered}
use nexus_mini.Ui.Offers.{Offers, Offers-append, Offers-when, Offers-each, Offers-one}
use nexus_mini.Form.{error_alert}
use nexus_mini.Console.Tenants.{Row}
use nexus_mini.Console.Tenants.MembersDialog.{
  Member, Members, set_target, close, role_texts, line, table, view,
}

module _ (t : String → String) (row : Row) (m : Member) where
  no_role : (rs : List String) → Offers (set_target m) (role_texts t row rs) → ⊥
  unfolding offered
  no_role [] h = h
  no_role (r ∷ rs) h =
      let (x, i, k) = (Offers-each (set_target m) (λ y. text y ∷ []) (r ∷ rs)).0 h in k

  line_iff :
      (x : Member)
      → Offers (set_target m) (line t row x) ↔ ((not x.platform_admin ≡ true) × (x ≡ m))
  unfolding line offered
  line_iff x =
      let click = button (t "Нэрийн өмнөөс нэвтрэх") false (set_target x) ∷ [] in
      let both =
        Offers-append (set_target m) (role_texts t row x.roles)
          (when (not x.platform_admin) click) in
      let may = Offers-when (set_target m) (not x.platform_admin) click in
      let one = Offers-one (set_target m) (t "Нэрийн өмнөөс нэвтрэх") (set_target x) in
      (
        λ h. elim (both.0 h) [
          | inl l ↦ absurd (no_role x.roles l)
          | inr r ↦ let (p, k) = may.0 r in (p, let e = one.0 k in cc)
        ],
        λ (p, e). both.1 (inr (may.1 (p, one.1 (ap set_target e)))),
      )

  table_iff :
      (err : String) (ms : List Member)
      → Offers (set_target m) (table t row err (some ms))
        ↔ (In m ms × (not m.platform_admin ≡ true))
  unfolding table offered
  table_iff err [] = (λ h. absurd h, λ h. absurd h.0)
  table_iff err (x ∷ ms) =
      let rows = Offers-each (set_target m) (line t row) (x ∷ ms) in
      (
        λ h.
            let (y, i, k) = rows.0 h in
            let (p, e) = (line_iff y).0 k in
            (subst (λ z. In z (x ∷ ms)) e i, subst (λ z. not z.platform_admin ≡ true) e p),
        λ (i, p). rows.1 (m, i, (line_iff m).1 (p, refl)),
      )

  not_close : Offers (set_target m) (button (t "Хаах") false close ∷ []) → ⊥
  not_close h = let e = (Offers-one (set_target m) (t "Хаах") close).0 h in absurd (let n = e in cc)

  -- The dialog offers the login in the name of exactly those listed members who are no administrators
  -- of the platform, even if an error is shown above them.
  pub offered-view_impersonation_iff :
      (s : Members) (ms : List Member)
      → s.members ≡ some ms
      → Offers (set_target m) (view t row s) ↔ (In m ms × (not m.platform_admin ≡ true))
  unfolding view offered
  offered-view_impersonation_iff s ms shown =
      let mark = Offers-when (set_target m) (not (s.err == "")) (alert "danger" s.err ∷ []) in
      let foot = button (t "Хаах") false close ∷ [] in
      let one =
        Offers-append (set_target m) (error_alert s.err) (table t row s.err (some ms) ++ foot) in
      let two = Offers-append (set_target m) (table t row s.err (some ms)) foot in
      rw shown (
        λ h. elim (one.0 h) [
          | inl l ↦ absurd (mark.0 l).1
          | inr r ↦ elim (two.0 r) [
            | inl k ↦ (table_iff s.err ms).0 k
            | inr n ↦ absurd (not_close n)
          ]
        ],
        λ h. one.1 (inr (two.1 (inl ((table_iff s.err ms).1 h)))),
      )
