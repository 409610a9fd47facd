-- ===== src/PasswordGate.antt =====
-- frontend/components/password-gate.tsx: the screen in place of the workspace for an account with a
-- temporary password. The page's state is the dialog of its three entries.
pub mod Sending
use nexus_mini.Prelude.{String, Bool, true, false, List, [], ◌∷◌, ◌++◌, ◌==◌, if◌then◌else◌}
use nexus_mini.Runtime.{Answer, Proc, ret, ask, update, effect, ◌>>=◌, ◌>>◌}
use nexus_mini.Ui.{checked, is_required, min_length, View, Element, text, field, button}
use nexus_mini.Form.{Dialog, save, error_alert}

pub record Passwords : Type 0 where
  pub current : String
  pub next : String
  pub again : String

abbrev pub no_passwords : Passwords
no_passwords = record { current = ""; next = ""; again = "" }

pub data Request : Type 0 where
  post_password : String → String → Request  -- current, new
  post_logout : Request

abbrev pub Reply : Request → Type 0
Reply (post_password current next) = Unit {0}
Reply post_logout = Unit {0}

pub data Effect : Type 0 where
  on_done : Effect
  location_assign : String → Effect

abbrev pub Handler : Type 0
Handler = Proc Request Reply Effect (Dialog Passwords) (Unit {0})

pub data Action : Type 0 where
  set_current set_next set_again : String → Action
  send log_out : Action

-- The entries as they are typed.
unfoldable pub typed : Action → Dialog Passwords → Dialog Passwords
typed (set_current v) d = record d { form = record (d.form) { current = v } }
typed (set_next v) d = record d { form = record (d.form) { next = v } }
typed (set_again v) d = record d { form = record (d.form) { again = v } }
typed send d = d
typed log_out d = d

module _ (t : String → String) where
  -- `submit`, over the entries that are shown. The browser calls it only once the inputs pass what is
  -- checked of them (in `view`).
  unfoldable pub submit : Passwords → Handler
  unfolding save
  submit p =
      if p.next == p.again
      then save (t "Алдаа гарлаа") (post_password p.current p.next) (λ u. effect on_done)
      else update (λ d. record d { err = "" })
        >> update (λ d. record d { err = t "Шинэ нууц үг хоёр талд таарахгүй байна" })

  -- The button at the foot: the visitor leaves whatever the logout answers.
  unfoldable pub logout : Handler
  logout = ask post_logout >>= λ r. effect (location_assign "/login")

  unfoldable pub view : String → Dialog Passwords → View Action
  view email d =
      text (t "Нууц үгээ солино уу")
        ∷ text email
        ∷ text (
            t
              "Админ танд түр нууц үг өгсөн. Үргэлжлүүлэхийн өмнө зөвхөн өөрт мэдэгдэх нууц үг тавина уу.")
        ∷ error_alert d.err
      ++ (checked (is_required ∷ []) (field (t "Түр нууц үг") d.form.current set_current)
          ∷ checked (is_required ∷ min_length 10 ∷ [])
              (field (t "Шинэ нууц үг") d.form.next set_next)
          ∷ checked (is_required ∷ []) (field (t "Шинэ нууц үг (давтах)") d.form.again set_again)
          ∷ button (t "Солих") d.busy send
          ∷ button (t "Гарах") false log_out
          ∷ [])
