-- ===== src/Members/Adding.antt =====
-- `AddMemberDialog` of frontend/app/(portal)/members/page.tsx. Each change of the email's field drops
-- the running timer and, for a well-formed email, starts a new one; a timer that runs out asks the
-- server who has the email. Such requests are answered in any order.
pub mod Email
pub mod Lookup
pub mod Form
use nexus_mini.Prelude.{
  ℕ, zero, suc, String, Bool, true, false, not, ◌&&◌, ◌||◌, List, [], ◌∷◌, ◌++◌, Option, none, some,
  ◌==◌, nat_eq, leb, filter, if◌then◌else◌,
}
use nexus_mini.Text.{Text, text_eq}
use nexus_mini.Text.Space.{is_space, trim}
use nexus_mini.Runtime.{Fault, Answer, ok, fail, Proc, ret, ask, update, effect, ◌>>=◌, ◌>>◌, msg}
use nexus_mini.Ui.{View, Element, alert, field, readonly_field, button, text, when, each}
use nexus_mini.Members.{includes, next_roles}

-- `[^\s@]`
unfoldable pub is_plain : ℕ → Bool
unfolding is_space
is_plain c = not (is_space c) && not (nat_eq c b'@')

-- `[^\s@]*` to the end; then with a `\.` and one more unit behind it.
pub all_plain : Text → Bool
unfolding is_plain
all_plain [] = true
all_plain (c ∷ s) = is_plain c && all_plain s

abbrev pub ends_plain : Text → Bool
ends_plain [] = false
ends_plain (c ∷ s) = all_plain (c ∷ s)

-- `[^\s@]*\.[^\s@]+$`, where the star takes in what it can give back.
pub after_host : Text → Bool
unfolding is_plain all_plain
after_host [] = false
after_host (c ∷ s) = (nat_eq c b'.' && ends_plain s) || (is_plain c && after_host s)

-- `[^\s@]+\.[^\s@]+$`
pub domain : Text → Bool
unfolding is_plain after_host
domain [] = false
domain (c ∷ s) = is_plain c && after_host s

-- `[^\s@]*@[^\s@]+\.[^\s@]+$`
pub after_local : Text → Bool
unfolding is_plain domain
after_local [] = false
after_local (c ∷ s) = (nat_eq c b'@' && domain s) || (is_plain c && after_local s)

-- `/^[^\s@]+@[^\s@]+\.[^\s@]+$/`
unfoldable pub is_email : Text → Bool
unfolding is_plain after_local
is_email [] = false
is_email (c ∷ s) = is_plain c && after_local s

-- `emailOk`
unfoldable pub email_ok : Text → Bool
unfolding trim is_email
email_ok s = is_email (trim s)

-- What the server knows of an email; an absent name or membership is the empty text or false.
pub record Found : Type 0 where
  pub exists' : Bool
  pub name : String
  pub member : Bool

-- The form, and what of the lookup is under way: the email of the running timer, and those of the
-- requests that are not answered, the newest first.
pub record Dialog : Type 0 where
  pub email : Text
  pub name : String
  pub password : String
  pub roles : List String
  pub message : String
  pub busy : Bool
  pub found : Option Found
  pub timer : Option Text
  pub waiting : List Text

abbrev pub opened : Dialog
opened = record {
  email = [];
  name = "";
  password = "";
  roles = "user" ∷ [];
  message = "";
  busy = false;
  found = none;
  timer = none;
  waiting = [];
}

pub data DialogEvent : Type 0 where
  type_email : Text → DialogEvent
  type_name type_password : String → DialogEvent
  toggle_code : String → Bool → DialogEvent
  timer_fires : DialogEvent
  answered : ℕ → Answer Found → DialogEvent

-- The effect for `[form.email, emailOk]`, with the cleanup of the one before.
pub look_up : Dialog → Dialog
unfolding email_ok
look_up d =
    if email_ok d.email
    then record d { timer = some (trim d.email) }
    else record d { timer = none; found = none }

abbrev pub found_of : Answer Found → Option Found
found_of (ok f) = some f
found_of (fail e) = none

abbrev pub send : Option Text → Dialog → Dialog
send none d = d
send (some email) d = record d { timer = none; waiting = email ∷ d.waiting }

-- The requests without the n-th newest.
abbrev pub without : ℕ → List Text → List Text
without n [] = []
without zero (x ∷ xs) = xs
without (suc n) (x ∷ xs) = x ∷ without n xs

abbrev pub is_waiting : ℕ → List Text → Bool
is_waiting n [] = false
is_waiting zero (x ∷ xs) = true
is_waiting (suc n) (x ∷ xs) = is_waiting n xs

unfoldable pub happen : Dialog → DialogEvent → Dialog
unfolding look_up next_roles
happen d (type_email e) = if text_eq e d.email then d else look_up (record d { email = e })
happen d (type_name n) = record d { name = n }
happen d (type_password p) = record d { password = p }
happen d (toggle_code c on) = record d { roles = next_roles d.roles c on }
happen d timer_fires = send d.timer d
happen d (answered n a) =
    if is_waiting n d.waiting
    then record d { found = found_of a; waiting = without n d.waiting }
    else d

unfoldable pub happens : Dialog → List DialogEvent → Dialog
unfolding happen
happens d [] = d
happens d (e ∷ es) = happens (happen d e) es

-- The button to add the member: `disabled={!lookup || lookup.member}`.
abbrev pub is_closed : Option Found → Bool
is_closed none = true
is_closed (some f) = f.member

-- What the dialog sends, and what it does after.
pub data AddRequest : Type 0 where
  post_member : Text → String → String → List String → AddRequest

abbrev pub AddReply : AddRequest → Type 0
AddReply (post_member email name password roles) = Unit {0}

pub data AddEffect : Type 0 where
  success_toast : String → AddEffect
  on_added : AddEffect

module _ (t : String → String) where
  -- `hint`
  unfoldable pub hint : Bool → Option Found → String
  hint good found =
      if not good
      then t "Имэйлээр хайна: бүртгэлтэй бол нэр нь гарна, үгүй бол шинээр үүсгэнэ"
      else elim found [
        | none ↦ t "Хайж байна…"
        | some f ↦
            if f.exists'
            then (if f.member
                then t "Аль хэдийн энэ байгууллагын гишүүн"
                else t "Бүртгэлтэй хэрэглэгч — role өгөөд нэмнэ")
            else t "Бүртгэлгүй — нэр, түр нууц үг өгч шинээр үүсгэнэ; эхний нэвтрэлтэд солиулна"
      ]

  -- `submit`, over the form that is shown.
  unfoldable pub submit : Dialog → Proc AddRequest AddReply AddEffect Dialog (Unit {0})
  submit shown = do
    update (λ d. record d { message = "" })
    update (λ d. record d { busy = true })
    r ← ask (post_member shown.email shown.name shown.password shown.roles)
    elim r [
      | ok u ↦ do effect (success_toast (t "Гишүүн нэмэгдлээ")); effect on_added
      | fail e ↦ do
        update (λ d. record d { message = msg e (t "Алдаа гарлаа") })
        update (λ d. record d { busy = false })
    ]
