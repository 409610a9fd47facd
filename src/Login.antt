-- ===== src/Login.antt =====
-- frontend/app/login/page.tsx: where a visitor goes after the login, and the page's handlers.
pub mod Next
pub mod Form
pub mod Return
use nexus_mini.Prelude.{
  ℕ, String, ◌==◌, Bool, true, false, not, ◌&&◌, List, [], ◌∷◌, Option, none, some, if◌then◌else◌,
}
use nexus_mini.Text.{Text, codes, starts_with}
use nexus_mini.Runtime.{Fault, Answer, ok, fail, Proc, ret, ask, update, effect, ◌>>=◌, ◌>>◌, msg}

-- frontend/lib/setup.ts
pub record SetupStatus : Type 0 where
  pub required : Bool
  pub armed : Bool

pub record Provider : Type 0 where
  pub key : String
  pub name : String

pub record Page : Type 0 where
  pub email : String
  pub password : String
  pub err : String
  pub busy : Bool
  pub next : Text
  pub providers : List Provider

abbrev pub initial : Page
initial = record {
  email = "";
  password = "";
  err = "";
  busy = false;
  next = codes "/dashboard";
  providers = [];
}

pub data Request : Type 0 where
  get_setup_status get_providers get_me : Request
  post_login : String → String → Request

abbrev pub Reply : Request → Type 0
Reply get_setup_status = SetupStatus
Reply get_providers = List Provider
Reply get_me = Unit {0}
Reply (post_login email password) = Unit {0}

pub data Effect : Type 0 where
  router_replace location_assign : Text → Effect

abbrev pub Handler : Type 0 → Type 0
Handler A = Proc Request Reply Effect Page A

-- `setupStatus`: an answer of any kind of error counts as "not required".
pub setup_status : Handler SetupStatus
setup_status = do
  r ← ask get_setup_status
  ret (elim r [ ok s ↦ s | fail e ↦ record { required = false; armed = false } ])

abbrev pub no_slash_slash : Text → Bool
no_slash_slash n = starts_with n (codes "/") && not (starts_with n (codes "//"))

-- The test on `sp.get('next') || ''`; the state's value stays where it fails.
unfoldable pub choose_next : Text → Option Text → Text
choose_next current none = current
choose_next current (some n) = if no_slash_slash n then n else current

-- The first effect: a fresh installation is set up first.
unfoldable pub check_setup : Handler (Unit {0})
unfolding setup_status
check_setup = do
  s ← setup_status
  if s.required then effect (router_replace (codes "/setup")) else ret tt

abbrev pub set_error : Option String → Page → Page
set_error none s = s
set_error (some e) s = if e == "" then s else record s { err = e }

-- The second effect, with the parameters `next` and `error` of the page's own address.
unfoldable pub read_address : Option Text → Option String → Handler (Unit {0})
unfolding choose_next
read_address next_param error_param = do
  update (λ s. record s { next = choose_next s.next next_param })
  update (set_error error_param)
  r ← ask get_providers
  elim r [ ok list ↦ update (λ s. record s { providers = list }) | fail e ↦ ret tt ]

-- The third effect, run again for each `next`: who is logged in already goes on.
unfoldable pub skip_login : Text → Handler (Unit {0})
skip_login next = do
  r ← ask get_me
  elim r [ ok u ↦ effect (location_assign next) | fail e ↦ ret tt ]

-- `submit`, over the values that the form shows; `t` translates.
unfoldable pub submit : (String → String) → Page → Handler (Unit {0})
submit t shown = do
  update (λ s. record s { err = "" })
  update (λ s. record s { busy = true })
  r ← ask (post_login shown.email shown.password)
  elim r [
    | ok u ↦
        if starts_with shown.next (codes "/api/")
        then effect (location_assign shown.next)
        else effect (router_replace shown.next)
    | fail e ↦ do
      update (λ s. record s { err = msg e (t "Алдаа гарлаа") })
      update (λ s. record s { busy = false })
  ]
