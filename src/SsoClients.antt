-- ===== src/SsoClients.antt =====
-- frontend/app/(portal)/sso-clients/page.tsx: the systems that log users in through an organisation.
-- The texts that the page takes apart (addresses and scopes) are sequences of units.
pub mod ClientDialog
pub mod Lines
pub mod Scopes
pub mod Once
use nexus_mini.Prelude.{
  ℕ, String, Bool, true, false, not, List, [], ◌∷◌, ◌++◌, map, Option, none, some, ◌==◌,
  if◌then◌else◌,
}
use Prim.Native.String.{◌++◌ as ◌<>◌}
use nexus_mini.Text.{Text, codes}
use nexus_mini.Text.Split.{join}
use nexus_mini.Runtime.{Fault, Answer, ok, fail, Proc, ret, ask, update, effect, ◌>>=◌, ◌>>◌, msg}
use nexus_mini.Ui.{
  dismissal, View, Element, text, units, code, badge, alert, spinner, empty_state, button,
  readonly_field, when, each,
}

pub record Client : Type 0 where
  pub id : String
  pub client_id : String
  pub name : String
  pub is_public : Bool
  pub redirect_uris : List Text
  pub post_logout_uris : List Text
  pub scopes : Text
  pub created_at : String

pub record ClientForm : Type 0 where
  pub id : Option String
  pub name : String
  pub is_public : Bool
  pub redirect_uris : Text
  pub post_logout_uris : Text
  pub scopes : Text

abbrev pub empty_form : ClientForm
empty_form = record {
  id = none;
  name = "";
  is_public = false;
  redirect_uris = [];
  post_logout_uris = [];
  scopes = codes "openid profile email";
}

abbrev pub newline : ℕ
newline = 10

-- The form that the pencil of a row opens.
unfoldable pub form_of : Client → ClientForm
form_of c = record {
  id = some c.id;
  name = c.name;
  is_public = c.is_public;
  redirect_uris = join newline c.redirect_uris;
  post_logout_uris = join newline c.post_logout_uris;
  scopes = c.scopes;
}

pub record Secret : Type 0 where
  pub client_id : String
  pub client_secret : String

pub record Page : Type 0 where
  pub clients : Option (List Client)
  pub issuer : String
  pub load_err : String
  pub form : Option ClientForm
  pub secret : Option Secret
  pub removing : Option Client

abbrev pub initial : Page
initial = record {
  clients = none;
  issuer = "";
  load_err = "";
  form = none;
  secret = none;
  removing = none;
}

pub data Request : Type 0 where
  get_clients : Request
  del_client : String → Request

abbrev pub Reply : Request → Type 0
Reply get_clients = List Client × String
Reply (del_client id) = Unit {0}

pub data Effect : Type 0 where
  toast : String → Effect
  clipboard : String → Effect

abbrev pub Handler : Type 0 → Type 0
Handler A = Proc Request Reply Effect Page A

pub data Action : Type 0 where
  add : Action
  copy : String → Action
  edit remove : Client → Action
  forget_secret : Action

module _ (t : String → String) where
  unfoldable pub load : Handler (Unit {0})
  load = do
    r ← ask get_clients
    elim r [
      | ok (clients, issuer) ↦ do
        update (λ s. record s { clients = some clients })
        update (λ s. record s { issuer = issuer })
      | fail e ↦ update (λ s. record s { load_err = msg e (t "Алдаа гарлаа") })
    ]

  abbrev keep_secret : Option Secret → Handler (Unit {0})
  keep_secret none = ret tt
  keep_secret (some x) = update (λ s. record s { secret = some x })

  -- `onSaved` of the dialog.
  unfoldable pub on_saved : Option Secret → Handler (Unit {0})
  unfolding load
  on_saved secret = do update (λ s. record s { form = none }); keep_secret secret; load

  abbrev pub removed : Answer (Unit {0}) → Handler (Answer (Unit {0}))
  removed (ok u) = do effect (toast (t "Устгагдлаа")); load; ret (ok tt)
  removed (fail e) = ret (fail e)

  -- `onConfirm` of the removal; an error is left to the dialog.
  unfoldable pub confirm_removal : Option Client → Handler (Answer (Unit {0}))
  unfolding load
  confirm_removal none = ret (ok tt)
  confirm_removal (some c) = do r ← ask (del_client c.id); removed r

  -- A click on a button of the page.
  unfoldable pub press : Action → Handler (Unit {0})
  unfolding form_of
  press add = update (λ s. record s { form = some empty_form })
  press (copy x) = do effect (clipboard x); effect (toast (t "Хуулагдлаа"))
  press (edit c) = update (λ s. record s { form = some (form_of c) })
  press (remove c) = update (λ s. record s { removing = some c })
  press forget_secret = update (λ s. record s { secret = none })

  pub row : Client → View Action
  row c =
      text c.name
        ∷ code c.client_id
        ∷ button (t "Хуулах") false (copy c.client_id)
        ∷ (if c.is_public then badge "neutral" "public · PKCE" else badge "accent" "confidential")
        ∷ each (λ u. units u ∷ []) c.redirect_uris
      ++ (units c.scopes
          ∷ button (t "засах") false (edit c)
          ∷ button (t "устгах") false (remove c)
          ∷ [])

  pub table : Option (List Client) → View Action
  unfolding row
  table none = spinner (t "Уншиж байна…") ∷ []
  table (some []) =
      empty_state (t "Клиент байхгүй") (t "Гадны системээ бүртгээд client_id авна") ∷ []
  table (some (c ∷ cs)) =
      text (t "Нэр")
      ∷ text "client_id"
      ∷ text (t "Төрөл")
      ∷ text "Redirect"
      ∷ text "Scope"
      ∷ each row (c ∷ cs)

  -- The dialog with the secret: its button forgets the secret, and so does its dismissal.
  pub secret_dialog : Option Secret → View Action
  secret_dialog none = []
  secret_dialog (some x) =
      text (t "Клиентийн нууц үг — нэг л удаа харагдана")
      ∷ readonly_field "client_id" x.client_id
      ∷ readonly_field "client_secret" x.client_secret
      ∷ button (t "Хадгалсан") false forget_secret
      ∷ dismissal forget_secret
      ∷ []

  unfoldable pub view : Page → View Action
  unfolding table secret_dialog
  view s =
      button (t "Клиент нэмэх") false add
        ∷ code s.issuer
        ∷ button (t "Хуулах") false (copy s.issuer)
        ∷ text (t "Discovery")
        ∷ code (s.issuer <> "/.well-known/openid-configuration")
        ∷ (if s.load_err == "" then table s.clients else alert "danger" s.load_err ∷ [])
      ++ secret_dialog s.secret
