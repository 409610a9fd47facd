-- ===== src/Console/Profile.antt =====
-- admin/app/(panel)/profile/page.tsx: an administrator's own name and password.
pub mod Passwords
use nexus_mini.Prelude.{String, Bool, true, false, List, [], ◌∷◌, ◌++◌, ◌==◌, if◌then◌else◌}
use nexus_mini.Runtime.{Fault, Answer, ok, fail, Proc, ask, update, effect, ◌>>=◌, ◌>>◌, ret, msg}
use nexus_mini.Ui.{
  checked, is_required, min_length, View, Element, text, spinner, field, readonly_field, button,
}
use nexus_mini.Form.{error_alert}
use nexus_mini.Console.{Me}

pub record NewPassword : Type 0 where
  pub current_password : String
  pub new_password : String
  pub confirm : String

abbrev pub no_password : NewPassword
no_password = record { current_password = ""; new_password = ""; confirm = "" }

pub record Page : Type 0 where
  pub loaded : Bool
  pub name : String
  pub email : String
  pub saving_name : Bool
  pub pw : NewPassword
  pub confirm_err : String
  pub busy : Bool

abbrev pub initial : Page
initial = record {
  loaded = false;
  name = "";
  email = "";
  saving_name = false;
  pw = no_password;
  confirm_err = "";
  busy = false;
}

pub data Request : Type 0 where
  get_me : Request
  put_name : String → Request
  post_password : String → String → Request  -- current, new

abbrev pub Reply : Request → Type 0
Reply get_me = Me
Reply (put_name name) = Unit {0}
Reply (post_password current new) = Unit {0}

-- The variant and the title of a toast.
pub data Effect : Type 0 where
  toast : String → String → Effect

abbrev pub Handler : Type 0
Handler = Proc Request Reply Effect Page (Unit {0})

pub data Action : Type 0 where
  set_name : String → Action
  set_current set_new set_confirm : String → Action
  save_name_now save_password_now : Action

-- What is typed; the repetition takes its error away.
unfoldable pub typed : Action → Page → Page
typed (set_name v) s = record s { name = v }
typed (set_current v) s = record s { pw = record (s.pw) { current_password = v } }
typed (set_new v) s = record s { pw = record (s.pw) { new_password = v } }
typed (set_confirm v) s = record s { pw = record (s.pw) { confirm = v }; confirm_err = "" }
typed save_name_now s = s
typed save_password_now s = s

module _ (t : String → String) where
  -- The page's own `fail`.
  abbrev pub failure : Fault → Handler
  failure e = effect (toast "danger" (msg e (t "Алдаа гарлаа")))

  abbrev pub introduced : Answer Me → Handler
  introduced (ok m) = do
    update (λ s. record s { name = m.user.name })
    update (λ s. record s { email = m.user.email })
    update (λ s. record s { loaded = true })
  introduced (fail e) = failure e

  -- The effect, on a page that stays open.
  unfoldable pub mount : Handler
  mount = ask get_me >>= introduced

  abbrev pub renamed : Answer (Unit {0}) → Handler
  renamed (ok u) = effect (toast "success" (t "Хадгалагдлаа"))
  renamed (fail e) = failure e

  -- `saveName`, over the name that is shown.
  unfoldable pub save_name : String → Handler
  save_name name = do
    update (λ s. record s { saving_name = true })
    r ← ask (put_name name)
    renamed r
    update (λ s. record s { saving_name = false })

  abbrev pub changed : Answer (Unit {0}) → Handler
  changed (ok u) = do
    update (λ s. record s { pw = no_password })
    effect (toast "success" (t "Нууц үг солигдлоо — бусад төхөөрөмжийн нэвтрэлт хаагдсан"))
  changed (fail e) = failure e

  -- `savePassword`, over the entries that are shown.
  unfoldable pub save_password : NewPassword → Handler
  save_password pw =
      if pw.new_password == pw.confirm
      then update (λ s. record s { confirm_err = "" })
        >> update (λ s. record s { busy = true })
        >> (ask (post_password pw.current_password pw.new_password) >>= changed)
        >> update (λ s. record s { busy = false })
      else update (λ s. record s { confirm_err = t "Шинэ нууц үг давталттайгаа таарахгүй байна" })

  abbrev forms : Page → View Action
  forms s =
      text (t "Профайл")
        ∷ text s.email
        ∷ text (t "Ерөнхий мэдээлэл")
        ∷ checked (is_required ∷ []) (field (t "Нэр") s.name set_name)
        ∷ readonly_field (t "Имэйл") s.email
        ∷ button (t "Хадгалах") s.saving_name save_name_now
        ∷ text (t "Нууц үг солих")
        ∷ checked (is_required ∷ [])
            (field (t "Одоогийн нууц үг") s.pw.current_password set_current)
        ∷ checked (is_required ∷ min_length 8 ∷ [])
            (field (t "Шинэ нууц үг") s.pw.new_password set_new)
        ∷ checked (is_required ∷ []) (field (t "Шинэ нууц үг (давталт)") s.pw.confirm set_confirm)
        ∷ error_alert s.confirm_err
      ++ (button (t "Солих") s.busy save_password_now ∷ [])

  unfoldable pub view : Page → View Action
  view s = if s.loaded then forms s else spinner (t "Уншиж байна…") ∷ []
