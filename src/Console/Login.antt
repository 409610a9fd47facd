-- ===== src/Console/Login.antt =====
-- admin/app/login/page.tsx: the login of the console.
pub mod Entry
use nexus_mini.Prelude.{String, Bool, true, false, List, [], ◌∷◌, ◌++◌, if◌then◌else◌}
use nexus_mini.Shell.{User}
use nexus_mini.Runtime.{Fault, Answer, ok, fail, Proc, ask, update, effect, ◌>>=◌, ◌>>◌, ret, msg}
use nexus_mini.Ui.{checked, email_type, is_required, View, Element, text, field, button}
use nexus_mini.Form.{Dialog, error_alert}
use nexus_mini.Console.{Me}

pub record Credentials : Type 0 where
  pub email : String
  pub password : String

pub data Request : Type 0 where
  post_login : Credentials → Request
  get_me post_logout : Request

abbrev pub Reply : Request → Type 0
Reply (post_login c) = Unit {0}
Reply get_me = Me
Reply post_logout = Unit {0}

pub data Effect : Type 0 where
  router_replace : String → Effect

abbrev pub Handler : Type 0
Handler = Proc Request Reply Effect (Dialog Credentials) (Unit {0})

-- The effect: who is an administrator already goes on.
unfoldable pub skip_login : Handler
skip_login = ask get_me >>= answered
  where
    answered : Answer Me → Handler
    answered (ok m) = if m.user.platform_admin then effect (router_replace "/") else ret tt
    answered (fail e) = ret tt

pub data Action : Type 0 where
  set_email set_password : String → Action
  send : Action

module _ (t : String → String) where
  -- The `catch` of `submit`.
  pub refused : Fault → Handler
  refused e =
      update (λ d. record d { err = msg e (t "Алдаа гарлаа") })
      >> update (λ d. record d { busy = false })

  pub logged_out : Answer (Unit {0}) → Handler
  unfolding refused
  logged_out (ok u) =
      update (λ d. record d { err = t "Энэ систем зөвхөн платформын админд зориулагдсан" })
      >> update (λ d. record d { busy = false })
  logged_out (fail e) = refused e

  pub known : Answer Me → Handler
  unfolding logged_out
  known (ok me) =
      if me.user.platform_admin then effect (router_replace "/") else ask post_logout >>= logged_out
  known (fail e) = refused e

  pub logged_in : Answer (Unit {0}) → Handler
  unfolding known
  logged_in (ok u) = ask get_me >>= known
  logged_in (fail e) = refused e

  -- `submit`, over the entries that are shown.
  unfoldable pub submit : Credentials → Handler
  unfolding logged_in
  submit c =
      update (λ d. record d { err = "" })
      >> update (λ d. record d { busy = true })
      >> (ask (post_login c) >>= logged_in)

  unfoldable pub view : Dialog Credentials → View Action
  view d =
      text (t "Платформын админ") ∷ text (t "nexus-mini удирдлагын систем") ∷ error_alert d.err
      ++ (checked (email_type ∷ is_required ∷ []) (field (t "Имэйл") d.form.email set_email)
          ∷ checked (is_required ∷ []) (field (t "Нууц үг") d.form.password set_password)
          ∷ button (t "Нэвтрэх") d.busy send
          ∷ [])
