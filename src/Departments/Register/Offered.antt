-- ===== src/Departments/Register/Offered.antt =====
-- What the page of departments offers (backend/apps/organisation/ui/pages/departments/page.tsx).
use nexus_mini.Prelude.{
  ℕ, ◌≤◌, String, ◌≡◌, ◌↔◌, ◌⊎◌, inl, inr, Bool, true, false, not, List, [], ◌∷◌, some, In,
}
use nexus_mini.Ui.{offered, button, badge, when}
use nexus_mini.Ui.Offers.{Offers, Offers-append, Offers-when, Offers-each, Offers-one, Offers-two}
use nexus_mini.GroupBy.{get, fill}
use nexus_mini.Departments.{Dept, Entry, flatten, walk}
use nexus_mini.Departments.Tree.{Lies, In-flatten_iff}
use nexus_mini.Departments.Register.{
  Action, add, edit, remove, Page, edit_buttons, row, table, view,
}

no_entry : (e : Entry) → In e (flatten []) → ⊥
unfolding flatten walk get fill
no_entry e h = h

module _ (t : String → String) (manage : Bool) (a : Action) where
  -- The click is one of a row's two.
  abbrev pub IsOn : Dept → Type 0
  IsOn d = (edit d ≡ a) ⊎ (remove d ≡ a)

  row_iff : (e : Entry) → Offers a (row t manage e) ↔ ((manage ≡ true) × IsOn e.dept)
  unfolding row offered
  row_iff e =
      let off = when (not e.dept.active) (badge "neutral" (t "идэвхгүй") ∷ []) in
      let both = Offers-append a off _ in
      let mark = Offers-when a (not e.dept.active) (badge "neutral" (t "идэвхгүй") ∷ []) in
      let buttons = Offers-when a manage (edit_buttons t e.dept) in
      let two = Offers-two a (t "засах") (t "устгах") (edit e.dept) (remove e.dept) in
      (
        λ h. elim (both.0 h) [
          | inl l ↦ absurd (mark.0 l).1
          | inr r ↦ let (may, on) = buttons.0 r in (may, two.0 on)
        ],
        λ (may, on). both.1 (inr (buttons.1 (may, two.1 on))),
      )

  -- A click on a department of the tree.
  abbrev pub IsDeptAction : List Dept → Type 0
  IsDeptAction ds = (d : Dept) × (n : ℕ) × Lies ds d n × (n ≤ 32) × IsOn d

  table_iff :
      (ds : List Dept) → Offers a (table t manage (some ds)) ↔ ((manage ≡ true) × IsDeptAction ds)
  unfolding table offered
  table_iff [] = (
    λ h. absurd h,
    λ (m, (d, n, l, b, on)).
        absurd (no_entry _ ((In-flatten_iff [] (record { dept = d; depth = n })).1 (l, b))),
  )
  table_iff (d ∷ ds) =
      let rows = Offers-each a (row t manage) (flatten (d ∷ ds)) in
      (
        λ h.
            let (e, i, k) = rows.0 h in
            let (m, on) = (row_iff e).0 k in
            let (l, b) = (In-flatten_iff (d ∷ ds) e).0 i in (m, (e.dept, e.depth, l, b, on)),
        λ (m, (x, n, l, b, on)).
            let e : Entry = record { dept = x; depth = n } in
            rows.1 (e, (In-flatten_iff (d ∷ ds) e).1 (l, b), (row_iff e).1 (m, on)),
      )

  -- Once the departments are loaded without an error, the page offers clicks to managers only: one
  -- for a new department, and two for each department that lies in the tree of parents at a depth of
  -- at most 32. So a department in a circle of parents can be neither changed nor removed here.
  pub offered-view_departments_iff :
      (s : Page) (ds : List Dept)
      → s.load_err ≡ ""
      → s.depts ≡ some ds
      → Offers a (view t manage s) ↔ ((manage ≡ true) × ((add ≡ a) ⊎ IsDeptAction ds))
  unfolding view
  offered-view_departments_iff s ds clean shown =
      let new = button (t "Нэгж нэмэх") false add ∷ [] in
      let both = Offers-append a (when manage new) (table t manage (some ds)) in
      let adding = Offers-when a manage new in
      let one = Offers-one a (t "Нэгж нэмэх") add in
      rw (clean, shown)
        (
          λ h. elim (both.0 h) [
            | inl l ↦ let (m, k) = adding.0 l in (m, inl (one.0 k))
            | inr r ↦ let (m, k) = (table_iff ds).0 r in (m, inr k)
          ],
          λ (m, h). both.1 (elim h [
            | inl e ↦ inl (adding.1 (m, one.1 e))
            | inr k ↦ inr ((table_iff ds).1 (m, k))
          ]),
        )
