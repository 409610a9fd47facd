-- ===== src/Devices/DeviceDialog.antt =====
-- `DeviceDialog` of backend/apps/devices/ui/pages/page.tsx.
use nexus_mini.Prelude.{String, [], ◌∷◌, ◌++◌, Option, none, some, ◌==◌, if◌then◌else◌}
use nexus_mini.Runtime.{Proc, effect, ◌>>◌}
use nexus_mini.Ui.{checked, is_required, View, text, field, select}
use nexus_mini.Form.{Dialog, FormAction, set_form, save, given, error_alert, footer}
use nexus_mini.Devices.{DeviceForm, Status, active, repair, lost, retired, status_label}

-- `body`
pub record Body : Type 0 where
  pub name : String
  pub kind : String
  pub serial : String
  pub status : Status
  pub note : String

unfoldable pub body_of : DeviceForm → Body
body_of form = record {
  name = form.name;
  kind = form.kind;
  serial = form.serial;
  status = form.status;
  note = form.note;
}

pub data Request : Type 0 where
  put_device : String → Body → Request
  post_device : Body → Request

abbrev pub Reply : Request → Type 0
Reply (put_device id body) = Unit {0}
Reply (post_device body) = Unit {0}

pub data Effect : Type 0 where
  toast : String → Effect
  on_saved : Effect

module _ (t : String → String) where
  -- The two ways of `submit`, for a device with an id and for a new one.
  abbrev saving :
      Option String → DeviceForm → Proc Request Reply Effect (Dialog DeviceForm) (Unit {0})
  saving (some id) form =
      save (t "Алдаа гарлаа") (put_device id (body_of form))
        λ u. effect (toast (t "Хадгалагдлаа")) >> effect on_saved
  saving none form =
      save (t "Алдаа гарлаа") (post_device (body_of form))
        λ u. effect (toast (t "Бүртгэгдлээ")) >> effect on_saved

  unfoldable pub submit : DeviceForm → Proc Request Reply Effect (Dialog DeviceForm) (Unit {0})
  unfolding body_of save
  submit form = saving (given form.id) form

  -- The keys of `STATUS`.
  abbrev pub status_key : Status → String
  status_key active = "active"
  status_key repair = "repair"
  status_key lost = "lost"
  status_key retired = "retired"

  abbrev pub status_of : String → Status
  status_of k =
      if k == "repair"
      then repair
      else if k == "lost"
      then lost
      else if k == "retired"
      then retired
      else active

  abbrev entry : Status → String × String
  entry s = (status_key s, t (status_label s))

  abbrev title : Option String → String
  title none = t "Төхөөрөмж бүртгэх"
  title (some id) = t "Төхөөрөмж засах"

  unfoldable pub view : Dialog DeviceForm → View (FormAction DeviceForm)
  view d =
      text (title (given d.form.id)) ∷ error_alert d.err
      ++ (checked (is_required ∷ [])
            (field (t "Нэр") d.form.name (λ v. set_form (record d.form { name = v })))
          ∷ field (t "Төрөл") d.form.kind (λ v. set_form (record d.form { kind = v }))
          ∷ field (t "Сериал") d.form.serial (λ v. set_form (record d.form { serial = v }))
          ∷ select (t "Статус") (status_key d.form.status)
              (entry active ∷ entry repair ∷ entry lost ∷ entry retired ∷ [])
              (λ v. set_form (record d.form { status = status_of v }))
          ∷ field (t "Тэмдэглэл") d.form.note (λ v. set_form (record d.form { note = v }))
          ∷ footer (t "Болих") (t "Хадгалах") d.busy)
