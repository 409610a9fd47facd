-- ===== src/People/Editing.antt =====
-- The edit of a member, from the row to the saved form (backend/apps/organisation/ui/pages/people/page.tsx).
use mathlib.Core.Path.{subst}
use nexus_mini.Prelude.{String, ◌≡◌, refl, ◌↔◌, Bool, true, false, List, [], ◌∷◌, some, In}
use nexus_mini.Runtime.{Answer, ok, fail, Server, asked, did, run, msg}
use nexus_mini.Ui.{button, offered}
use nexus_mini.Ui.Offers.{Offers, Offers-when, Offers-each, Offers-one}
use nexus_mini.Form.{save, opened}
use nexus_mini.Form.Blank.{IsGiven, or_null-or_blank}
use nexus_mini.People.{Person, Page, edit, form_of, row, table, view}
use nexus_mini.People.PersonDialog.{body_of, Request, Reply, put_person, toast, on_saved, submit}

-- Saving the form of a member as it was opened sends the member's own department and job, unless the
-- department's id is the empty text. On success the visitor is told and the page reloads; on a
-- refusal the dialog stays, not busy, with the error and with the form as it was.
pub submit-form_of :
    {W : Type 0} (server : Server Request Reply W) (t : String → String) (p : Person) (w w' : W)
    (a : Answer (Unit {0}))
    → IsGiven p.department_id
    → let q =
        put_person p.membership_id
          (record { department_id = p.department_id; job_title = p.job_title }) in
      server w q ≡ (a, w')
      → run server (submit t (form_of p)) w (opened (form_of p)) ≡ elim a [
        | ok u ↦ record {
          value = tt;
          world = w';
          state = record (opened (form_of p)) { busy = true };
          log = asked q ∷ did (toast (t "Хадгалагдлаа")) ∷ did on_saved ∷ [];
        }
        | fail e ↦ record {
          value = tt;
          world = w';
          state = record (opened (form_of p)) { err = msg e (t "Алдаа гарлаа") };
          log = asked q ∷ [];
        }
      ]
unfolding submit save form_of body_of
submit-form_of server t p w w' (ok u) given e =
    rw (or_null-or_blank p.department_id given) (rw e refl)
submit-form_of server t p w w' (fail f) given e =
    rw (or_null-or_blank p.department_id given) (rw e refl)

row_iff :
    (t : String → String) (manage : Bool) (p q : Person)
    → Offers (edit p) (row t manage q) ↔ ((manage ≡ true) × (q ≡ p))
unfolding row offered
row_iff t manage p q =
    let pencil = Offers-when (edit p) manage (button (t "засах") false (edit q) ∷ []) in
    let one = Offers-one (edit p) (t "засах") (edit q) in
    (
      λ h. let (m, k) = pencil.0 h in (m, let e = one.0 k in cc),
      λ (m, e). pencil.1 (m, one.1 (rw e refl)),
    )

table_iff :
    (t : String → String) (manage : Bool) (ps : List Person) (p : Person)
    → Offers (edit p) (table t manage (some ps)) ↔ ((manage ≡ true) × In p ps)
unfolding table offered
table_iff t manage [] p = (λ h. absurd h, λ h. absurd h.1)
table_iff t manage (x ∷ ps) p =
    let rows = Offers-each (edit p) (row t manage) (x ∷ ps) in
    (
      λ h.
          let (q, i, k) = rows.0 h in
          let (m, e) = (row_iff t manage p q).0 k in (m, subst (λ z. In z (x ∷ ps)) e i),
      λ (m, i). rows.1 (p, i, (row_iff t manage p p).1 (m, refl)),
    )

-- Once the members are loaded without an error, the page offers the edit of exactly the listed
-- members, to managers only.
pub offered-view_people_iff :
    (t : String → String) (manage : Bool) (s : Page) (ps : List Person) (p : Person)
    → s.load_err ≡ ""
    → s.people ≡ some ps
    → In (edit p) (offered (view t manage s)) ↔ ((manage ≡ true) × In p ps)
unfolding view
offered-view_people_iff t manage s ps p clean shown = rw (clean, shown) (table_iff t manage ps p)
