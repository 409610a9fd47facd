-- ===== src/Console/Tenants/StateDialog.antt =====
-- `StateDialog` of admin/app/(panel)/tenants/page.tsx.
use nexus_mini.Prelude.{String, Bool, false, [], ◌∷◌, ◌++◌, Option, none, some}
use nexus_mini.Runtime.{Answer, ok, fail, Proc, ask, effect, ◌>>=◌, ◌>>◌, ret}
use nexus_mini.Ui.{checked, max_length, View, text, field, checkbox, button, when}
use nexus_mini.Form.{Dialog, save, given, error_alert}
use nexus_mini.Console.Tenants.{Row}

-- What the dialog sends, and what it asks for with its two ways to end a deletion.
pub record TenantState : Type 0 where
  pub suspended : Bool
  pub reason : String
  pub read_only : Bool

pub data Deletion : Type 0 where
  schedule cancel : Deletion

pub data Request : Type 0 where
  put_state : String → TenantState → Request
  post_delete post_delete_cancel : String → Request

abbrev pub Reply : Request → Type 0
Reply (put_state id s) = Unit {0}
Reply (post_delete id) = Unit {0}
Reply (post_delete_cancel id) = Unit {0}

-- The variant and the title of a toast.
pub data Effect : Type 0 where
  toast : String → String → Effect
  on_saved : Effect

abbrev pub Handler : Type 0 → Type 0
Handler A = Proc Request Reply Effect (Dialog TenantState) A

unfoldable pub state_of : Row → TenantState
state_of r = record { suspended = r.suspended; reason = r.reason; read_only = r.read_only }

pub data Action : Type 0 where
  set_state : TenantState → Action
  confirm : Deletion → Action
  close send : Action

abbrev pub deletion_request : Deletion → String → Request
deletion_request schedule id = post_delete id
deletion_request cancel id = post_delete_cancel id

module _ (t : String → String) where
  -- `save`, over the state that is shown.
  unfoldable pub save_state : Row → TenantState → Handler (Unit {0})
  unfolding save
  save_state row s =
      save (t "Алдаа гарлаа") (put_state row.id s)
        λ u. effect (toast "success" (t "Төлөв хадгалагдлаа")) >> effect on_saved

  abbrev pub deletion_toast : Deletion → Effect
  deletion_toast schedule = toast "warning" (t "Устгалд товлогдлоо (30 хоног)")
  deletion_toast cancel = toast "success" (t "Устгал цуцлагдлаа")

  -- `applyDeletion`; an error is left to the dialog that asked for the confirmation.
  unfoldable pub apply_deletion : Row → Deletion → Handler (Answer (Unit {0}))
  apply_deletion row schedule = do
    r ← ask (post_delete row.id)
    elim r [
      | ok u ↦ do effect (deletion_toast schedule); effect on_saved; ret (ok tt)
      | fail e ↦ ret (fail e)
    ]
  apply_deletion row cancel = do
    r ← ask (post_delete_cancel row.id)
    elim r [
      | ok u ↦ do effect (deletion_toast cancel); effect on_saved; ret (ok tt)
      | fail e ↦ ret (fail e)
    ]

  -- The button under the date of a deletion, or the one for a date.
  abbrev pub deletion_part : (String → String) → Option String → View Action
  deletion_part date none = button (t "Устгалд товлох") false (confirm schedule) ∷ []
  deletion_part date (some at') =
      text (date at') ∷ button (t "Устгалыг цуцлах") false (confirm cancel) ∷ []

  abbrev pub switches : TenantState → View Action
  switches s =
      checkbox (t "Түдгэлзүүлэх") s.suspended (λ v. set_state (record s { suspended = v }))
        ∷ when s.suspended (
            checked (max_length 300 ∷ []) (
              field (t "Шалтгаан (гишүүдэд харагдана)") s.reason
                (λ v. set_state (record s { reason = v })))
            ∷ [])
      ++ (checkbox (t "Зөвхөн унших") s.read_only (λ v. set_state (record s { read_only = v }))
          ∷ [])

  unfoldable pub view : (String → String) → Row → Dialog TenantState → View Action
  view date row d =
      text row.name ∷ error_alert d.err
      ++ (switches d.form
          ++ (deletion_part date (given row.deletion_at)
              ++ (button (t "Болих") false close ∷ button (t "Хадгалах") d.busy send ∷ [])))
