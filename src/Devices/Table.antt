-- ===== src/Devices/Table.antt =====
-- What the register of devices offers (backend/apps/devices/ui/pages/page.tsx).
use nexus_mini.Prelude.{
  String, ◌≡◌, refl, ◌↔◌, ◌⊎◌, inl, inr, true, false, not, List, [], ◌∷◌, ◌++◌, Bool, Option, none,
  some, ◌==◌, eq_iff, In,
}
use nexus_mini.Ui.{offered, button, text, when}
use nexus_mini.Ui.Offers.{Offers, Offers-append, Offers-when, Offers-each, Offers-one}
use nexus_mini.Devices.{
  Device, Page, Scope, all, own, Action, search_for, add, edit, remove, can_edit, edit_buttons, row,
  table, view, is_given, clear_button,
}

-- Who may change a device: everybody's with the scope `all`, and one's own with the scope `own`.
abbrev pub MayEdit : Option Scope → String → Device → Type 0
MayEdit none user_id d = ⊥
MayEdit (some all) user_id d = Unit
MayEdit (some own) user_id d = d.created_by ≡ user_id

can_edit_iff :
    (manage : Option Scope) (user_id : String) (d : Device)
    → (can_edit manage user_id d ≡ true) ↔ MayEdit manage user_id d
unfolding can_edit
can_edit_iff none user_id d = (λ h. cc, λ h. absurd h)
can_edit_iff (some all) user_id d = (λ h. tt, λ h. refl)
can_edit_iff (some own) user_id d = eq_iff d.created_by user_id

module _ (t : String → String) (manage : Option Scope) (user_id : String) (a : Action) where
  -- The click is one of a device's two.
  abbrev pub IsOn : Device → Type 0
  IsOn d = (edit d ≡ a) ⊎ (remove d ≡ a)

  edit_buttons_iff : (d : Device) → Offers a (edit_buttons t manage user_id d) ↔ IsOn d
  unfolding offered
  edit_buttons_iff d = (
    λ h. elim h [ inl e ↦ inl e | inr k ↦ elim k [ inl e ↦ inr e | inr l ↦ absurd l ] ],
    λ h. elim h [ inl e ↦ inl e | inr e ↦ inr (inl e) ],
  )

  row_iff : (d : Device) → Offers a (row t manage user_id d) ↔ (MayEdit manage user_id d × IsOn d)
  unfolding row offered
  row_iff d =
      let buttons = Offers-when a (can_edit manage user_id d) (edit_buttons t manage user_id d) in
      let note = Offers-when a (not (d.note == "")) (text d.note ∷ []) in
      let both = Offers-append a (when (not (d.note == "")) (text d.note ∷ [])) _ in
      (
        λ h. elim (both.0 h) [
          | inl l ↦ absurd (note.0 l).1
          | inr r ↦
              let (may, on) = buttons.0 r in
              ((can_edit_iff manage user_id d).0 may, (edit_buttons_iff d).0 on)
        ],
        λ (may, on).
            both.1
              (inr (buttons.1 ((can_edit_iff manage user_id d).1 may, (edit_buttons_iff d).1 on))),
      )

  -- A click on a listed device that the visitor may change.
  abbrev pub IsDeviceAction : List Device → Type 0
  IsDeviceAction ds = (d : Device) × In d ds × MayEdit manage user_id d × IsOn d

  table_iff :
      (q : String) (ds : List Device)
      → Offers a (table t manage user_id q (some ds)) ↔ IsDeviceAction ds
  unfolding table offered
  table_iff q [] = (λ h. absurd h, λ (d, i, m, o). absurd i)
  table_iff q (d ∷ ds) =
      let rows = Offers-each a (row t manage user_id) (d ∷ ds) in
      (
        λ h. let (x, i, k) = rows.0 h in let (m, o) = (row_iff x).0 k in (x, i, m, o),
        λ (x, i, m, o). rows.1 (x, i, (row_iff x).1 (m, o)),
      )

  -- Who may add a device.
  abbrev pub IsAdding : Option Scope → Type 0
  IsAdding none = ⊥
  IsAdding (some x) = add ≡ a

  new_iff :
      (m : Option Scope)
      → Offers a (when (is_given m) (button (t "Бүртгэх") false add ∷ [])) ↔ IsAdding m
  unfolding offered
  new_iff none = (λ h. h, λ h. h)
  new_iff (some x) = (λ h. elim h [ inl e ↦ e | inr l ↦ absurd l ], λ h. inl h)

  -- The click empties the search, where its clearing is drawn.
  abbrev pub IsClearing : Bool → Type 0
  IsClearing shown = (shown ≡ true) × (search_for "" ≡ a)

  clear_iff : (shown : Bool) → Offers a (clear_button t manage user_id shown) ↔ IsClearing shown
  clear_iff shown =
      let drawn = Offers-when a shown (button "×" false (search_for "") ∷ []) in
      let one = Offers-one a "×" (search_for "") in
      (λ h. let (e, o) = drawn.0 h in (e, one.0 o), λ (e, o). drawn.1 (e, one.1 o))

  -- Once the devices are loaded without an error, the page offers to empty the search exactly where
  -- the design system draws that, a new device exactly to who has the permission in some scope, and
  -- the two changes of a listed device exactly to who has it for all devices, or for the own ones and
  -- is the device's creator; it offers no other click.
  pub offered-view_devices_iff :
      (clears : String → Bool) (s : Page) (ds : List Device)
      → s.load_err ≡ ""
      → s.devices ≡ some ds
      → Offers a (view t manage user_id clears s)
        ↔ (IsClearing (clears s.q) ⊎ (IsAdding manage ⊎ IsDeviceAction ds))
  unfolding view offered
  offered-view_devices_iff clears s ds clean shown =
      let new = when (is_given manage) (button (t "Бүртгэх") false add ∷ []) in
      let body = table t manage user_id s.q (some ds) in
      let clear = clear_button t manage user_id (clears s.q) in
      let outer = Offers-append a (clear ++ new) body in
      let inner = Offers-append a clear new in
      rw (clean, shown)
        (
          λ h. elim (outer.0 h) [
            | inl l ↦ elim (inner.0 l) [
              | inl k ↦ inl ((clear_iff (clears s.q)).0 k)
              | inr k ↦ inr (inl ((new_iff manage).0 k))
            ]
            | inr r ↦ inr (inr ((table_iff s.q ds).0 r))
          ],
          λ h. outer.1 (elim h [
            | inl l ↦ inl (inner.1 (inl ((clear_iff (clears s.q)).1 l)))
            | inr r ↦ elim r [
              | inl l ↦ inl (inner.1 (inr ((new_iff manage).1 l)))
              | inr k ↦ inr ((table_iff s.q ds).1 k)
            ]
          ]),
        )
