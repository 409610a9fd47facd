-- ===== src/Form.antt =====
-- A dialog with a form: the values that are typed, the error under its title, and whether its button
-- is busy. The pages write the same handler for each of them:
--   setErr(""); setBusy(true);
--   try { …; toast(…); onSaved(…); } catch (ex) { setErr(msg(ex, …)); setBusy(false); }
-- After a success the dialog is gone, so the busy state is not taken back.
pub mod Saving
pub mod Blank
use nexus_mini.Prelude.{
  String, Bool, true, false, not, List, [], ◌∷◌, Option, none, some, ◌==◌, if◌then◌else◌,
}
use nexus_mini.Ui.{View, Element, alert, button, when}
use nexus_mini.Runtime.{Fault, Answer, ok, fail, Proc, ret, ask, update, ◌>>=◌, ◌>>◌, msg}

pub record Dialog (F : Type 0) : Type 0 where
  pub form : F
  pub err : String
  pub busy : Bool

abbrev pub opened : {F : Type 0} → F → Dialog F
opened form = record { form = form; err = ""; busy = false }

-- What can be done in a dialog: another form is typed, it is sent, or the dialog is closed.
pub data FormAction (F : Type 0) : Type 0 where
  set_form : F → FormAction F
  send close : FormAction F

-- `if (form.id)`: no id, or an empty one, is a new object.
abbrev pub given : Option String → Option String
given none = none
given (some id) = if id == "" then none else some id

-- `d.parent_id ?? ""` and back, `form.parent_id || null`.
abbrev pub or_blank : Option String → String
or_blank none = ""
or_blank (some s) = s

abbrev pub or_null : String → Option String
or_null s = if s == "" then none else some s

-- The error on top of a form, and the two buttons at its end.
abbrev pub error_alert : {A : Type 0} → String → View A
error_alert e = when (not (e == "")) (alert "danger" e ∷ [])

abbrev pub footer : {F : Type 0} → String → String → Bool → View (FormAction F)
footer cancel confirm busy = button cancel false close ∷ button confirm busy send ∷ []

module _ {Q : Type 0} {R : Q → Type 0} {E F : Type 0} where
  -- The handler up to its request, and from the answer on; `fallback` is the text for an error that
  -- is no `ApiError`.
  unfoldable pub save :
      String → (q : Q) → (R q → Proc Q R E (Dialog F) (Unit {0})) → Proc Q R E (Dialog F) (Unit {0})
  save fallback q done = do
    update (λ d. record d { err = "" })
    update (λ d. record d { busy = true })
    r ← ask q
    elim r [
      | ok x ↦ done x
      | fail e ↦ do
        update (λ d. record d { err = msg e fallback })
        update (λ d. record d { busy = false })
    ]
