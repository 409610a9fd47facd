-- ===== src/Login/Form.antt =====
-- The form of frontend/app/login/page.tsx with the providers under it; `encode` is `encodeURIComponent`.
use Prim.Native.String.{◌++◌ as ◌<>◌}
use nexus_mini.Prelude.{String, List, [], ◌∷◌, ◌++◌, ◌==◌, if◌then◌else◌}
use nexus_mini.Text.{Text, codes}
use nexus_mini.Ui.{checked, email_type, is_required, View, text, field, link, button, each}
use nexus_mini.Form.{error_alert}
use nexus_mini.Login.{Page, Provider}

pub data Action : Type 0 where
  set_email set_password : String → Action
  send : Action

-- What is typed.
unfoldable pub typed : Action → Page → Page
typed (set_email v) s = record s { email = v }
typed (set_password v) s = record s { password = v }
typed send s = s

module _ (t : String → String) (encode : Text → Text) where
  abbrev provider_label : Provider → String
  provider_label p =
      if p.key == "google" then t "Google-ээр нэвтрэх" else p.name <> (" — " <> t "SSO-оор нэвтрэх")

  -- The address where the login of a provider starts.
  pub start_of : Text → Provider → Text
  start_of next p = codes "/api/auth/sso/" ++ (codes p.key ++ (codes "/start?next=" ++ encode next))

  abbrev provider_view : Text → Provider → View Action
  provider_view next p = link (provider_label p) (start_of next p) ∷ []

  pub providers_view : Text → List Provider → View Action
  unfolding start_of
  providers_view next [] = []
  providers_view next (p ∷ ps) = text (t "эсвэл") ∷ each (provider_view next) (p ∷ ps)

  unfoldable pub view : Page → View Action
  unfolding providers_view
  view s =
      text (t "Нэвтрэх")
        ∷ text (t "nexus-mini ажлын талбар")
        ∷ text (t "Бүртгэлгүй юу?")
        ∷ link (t "Байгууллагаа бүртгүүлэх") (codes "/signup")
        ∷ error_alert s.err
      ++ (checked (email_type ∷ is_required ∷ []) (field (t "Имэйл") s.email set_email)
          ∷ checked (is_required ∷ []) (field (t "Нууц үг") s.password set_password)
          ∷ button (t "Нэвтрэх") s.busy send
          ∷ providers_view s.next s.providers)
