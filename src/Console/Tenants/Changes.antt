-- ===== src/Console/Tenants/Changes.antt =====
-- What the console can do to an organisation (admin/app/(panel)/tenants/page.tsx).
use nexus_mini.Prelude.{
  String, ◌≡◌, refl, ◌↔◌, ◌⊎◌, inl, inr, Bool, true, false, not, [], ◌∷◌, ◌++◌, Option, none, some,
  Bool-cases, ◌==◌,
}
use nexus_mini.Runtime.{Answer, ok, fail, Server, Run, asked, did, run}
use nexus_mini.Ui.{alert, button, offered}
use nexus_mini.Ui.Offers.{Offers, Offers-append, Offers-when}
use nexus_mini.Form.{Dialog, error_alert, given}
use nexus_mini.Console.Tenants.{Row}
use nexus_mini.Console.Tenants.StateDialog.{
  Deletion, schedule, cancel, post_delete, post_delete_cancel, confirm, close, send, deletion_part,
  switches, view, Request, Reply, deletion_request, deletion_toast, Effect, on_saved,
  apply_deletion, TenantState,
}

module _ {W : Type 0} (server : Server Request Reply W) (t : String → String) where
  -- What is left of a deletion or its end, after the answer.
  abbrev pub deletion_run :
      Row
      → Deletion
      → Dialog TenantState
      → Answer (Unit {0})
      → W
      → Run Request Effect W (Dialog TenantState) (Answer (Unit {0}))
  deletion_run row k d (ok u) w' = record {
    value = ok tt;
    world = w';
    state = d;
    log = asked (deletion_request k row.id) ∷ did (deletion_toast t k) ∷ did on_saved ∷ [];
  }
  deletion_run row k d (fail e) w' = record {
    value = fail e;
    world = w';
    state = d;
    log = asked (deletion_request k row.id) ∷ [];
  }

  -- Scheduling a deletion and cancelling it are two different requests for the organisation's id. On
  -- success a toast tells which of the two was done and the list is reloaded; an error is handed to the
  -- dialog that asked for the confirmation, and nothing is told or reloaded. The state that is shown in
  -- the dialog is left alone.
  pub apply_deletion_outcome :
      (row : Row) (w w1 w2 : W) (d : Dialog TenantState) (a b : Answer (Unit {0}))
      → server w (post_delete row.id) ≡ (a, w1)
      → server w (post_delete_cancel row.id) ≡ (b, w2)
      → (run server (apply_deletion t row schedule) w d ≡ deletion_run row schedule d a w1)
        × (run server (apply_deletion t row cancel) w d ≡ deletion_run row cancel d b w2)
  unfolding apply_deletion
  apply_deletion_outcome row w w1 w2 d a b e f = (scheduled a e, cancelled b f)
    where
      scheduled :
          (a : Answer (Unit {0}))
          → server w (post_delete row.id) ≡ (a, w1)
          → run server (apply_deletion t row schedule) w d ≡ deletion_run row schedule d a w1
      scheduled (ok u) e = rw e refl
      scheduled (fail x) e = rw e refl

      cancelled :
          (b : Answer (Unit {0}))
          → server w (post_delete_cancel row.id) ≡ (b, w2)
          → run server (apply_deletion t row cancel) w d ≡ deletion_run row cancel d b w2
      cancelled (ok u) f = rw f refl
      cancelled (fail x) f = rw f refl

-- Which of the two ways there is: a date can be cancelled, and without one a date can be set.
abbrev pub IsPossible : Deletion → Option String → Type 0
IsPossible schedule none = Unit
IsPossible schedule (some d) = ⊥
IsPossible cancel none = ⊥
IsPossible cancel (some d) = Unit

module _ (t : String → String) (date : String → String) (k : Deletion) where
  part_iff : (o : Option String) → Offers (confirm k) (deletion_part t date o) ↔ IsPossible k o
  unfolding offered
  part_iff none = (possible k, λ p. inl (only k p))
    where
      possible : (j : Deletion) → ((confirm schedule ≡ confirm j) ⊎ ⊥) → IsPossible j none
      possible schedule h = tt
      possible cancel (inl e) = cc
      possible cancel (inr n) = n

      only : (j : Deletion) → IsPossible j none → confirm schedule ≡ confirm j
      only schedule p = refl
      only cancel p = absurd p
  part_iff (some d) = (possible k, λ p. inl (only k p))
    where
      possible : (j : Deletion) → ((confirm cancel ≡ confirm j) ⊎ ⊥) → IsPossible j (some d)
      possible cancel h = tt
      possible schedule (inl e) = cc
      possible schedule (inr n) = n

      only : (j : Deletion) → IsPossible j (some d) → confirm cancel ≡ confirm j
      only cancel p = refl
      only schedule p = absurd p

  no_switch : (s : TenantState) → Offers (confirm k) (switches t s) → ⊥
  unfolding offered
  no_switch s h = elim (Bool-cases s.suspended) [
    | inl e ↦ let n : ⊥ = rw e at h in n
    | inr e ↦ let n : ⊥ = rw e at h in n
  ]

  no_footer :
      (busy : Bool)
      → Offers (confirm k) (button (t "Болих") false close ∷ button (t "Хадгалах") busy send ∷ [])
      → ⊥
  unfolding offered
  no_footer true h = elim h [ inl e ↦ absurd (let n = e in cc) | inr n ↦ n ]
  no_footer false h = elim h [
    | inl e ↦ absurd (let n = e in cc)
    | inr r ↦ elim r [ inl e ↦ absurd (let n = e in cc) | inr n ↦ n ]
  ]

  -- The dialog offers to schedule a deletion exactly when the organisation has no date of one, and to
  -- cancel it exactly when it has, whatever else is shown in it.
  pub offered-view_state_iff :
      (row : Row) (d : Dialog TenantState)
      → Offers (confirm k) (view t date row d) ↔ IsPossible k (given row.deletion_at)
  unfolding view offered
  offered-view_state_iff row d =
      let tail = button (t "Болих") false close ∷ button (t "Хадгалах") d.busy send ∷ [] in
      let part = deletion_part t date (given row.deletion_at) in
      let mark = Offers-when (confirm k) (not (d.err == "")) (alert "danger" d.err ∷ []) in
      let one =
        Offers-append (confirm k) (error_alert d.err) (switches t d.form ++ (part ++ tail)) in
      let two = Offers-append (confirm k) (switches t d.form) (part ++ tail) in
      let three = Offers-append (confirm k) part tail in
      let here = part_iff (given row.deletion_at) in
      (
        λ h. elim (one.0 h) [
          | inl l ↦ absurd (mark.0 l).1
          | inr r ↦ elim (two.0 r) [
            | inl l ↦ absurd (no_switch d.form l)
            | inr q ↦ elim (three.0 q) [ inl l ↦ here.0 l | inr x ↦ absurd (no_footer d.busy x) ]
          ]
        ],
        λ p. one.1 (inr (two.1 (inr (three.1 (inl (here.1 p)))))),
      )
