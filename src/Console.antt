-- ===== src/Console.antt =====
-- admin/components/shell.tsx: the console of the platform's administrators. The paths of pages are
-- sequences of units.
pub mod Start
pub mod Navigation
pub mod Login
pub mod Profile
pub mod Tenants
pub mod Lists
use nexus_mini.Prelude.{
  String, Bool, true, false, not, ◌&&◌, List, [], ◌∷◌, ◌++◌, Option, none, some, ◌==◌, find,
  if◌then◌else◌,
}
use nexus_mini.Text.{Text, codes, text_eq, starts_with}
use nexus_mini.Shell.{User}
use nexus_mini.Runtime.{
  Fault, Answer, ok, fail, Proc, ask, update, effect, ◌>>=◌, ◌>>◌, ret, has_status,
}

-- `Me` of admin/lib/api.ts.
pub record Me : Type 0 where
  pub user : User

pub data Status : Type 0 where
  loading accepted denied error : Status

pub record Page : Type 0 where
  pub me : Option Me
  pub status : Status

abbrev pub initial : Page
initial = record { me = none; status = loading }

abbrev received : Answer Me → Page → Page
received (ok m) s =
    if m.user.platform_admin
    then record s { me = some m; status = accepted }
    else record s { status = denied }
received (fail e) s = if has_status 401 e then s else record s { status = error }

-- What the answer to the effect's request makes of the page; `alive` is false once the page is gone.
unfoldable pub receive : Bool → Answer Me → Page → Page
receive alive a s = if alive then received a s else s

pub data Screen : Type 0 where
  spinner forbidden failed : Screen
  workspace : Me → Screen

abbrev workspace_of : Option Me → Screen
workspace_of none = failed
workspace_of (some m) = workspace m

abbrev screen_of : Status → Option Me → Screen
screen_of loading me = spinner
screen_of accepted me = workspace_of me
screen_of denied me = forbidden
screen_of error me = failed

unfoldable pub screen : Page → Screen
screen s = screen_of s.status s.me

pub data Request : Type 0 where
  post_logout : Request

abbrev pub Reply : Request → Type 0
Reply post_logout = Unit {0}

pub data Effect : Type 0 where
  router_replace : String → Effect

-- `logout` of the menu, and the button of the forbidden screen: whatever the answer, the visitor goes
-- to the login.
unfoldable pub logout : Proc Request Reply Effect Page (Unit {0})
logout = ask post_logout >>= λ r. effect (router_replace "/login")

pub record NavItem : Type 0 where
  pub path : Text
  pub label : String

-- `NAV`, without its icons.
abbrev pub nav : List NavItem
nav =
    record { path = codes "/"; label = "Тойм" }
    ∷ record { path = codes "/tenants"; label = "Байгууллагууд" }
    ∷ record { path = codes "/users"; label = "Хэрэглэгчид" }
    ∷ record { path = codes "/apps"; label = "Каталог" }
    ∷ record { path = codes "/audit"; label = "Audit" }
    ∷ record { path = codes "/profile"; label = "Профайл" }
    ∷ []

-- `isOn`
unfoldable pub is_on : Text → Text → Bool
is_on pathname p =
    if text_eq p (codes "/") then text_eq pathname (codes "/") else starts_with pathname p

unfoldable pub current : Text → Option NavItem
unfolding is_on
current pathname = find (λ n. is_on pathname n.path) nav

-- A breadcrumb's label and, if it is a link, its path.
pub record Crumb : Type 0 where
  pub label : String
  pub href : Option Text

abbrev pub crumbs_of : (String → String) → Option NavItem → Option (List Crumb)
crumbs_of t none = none
crumbs_of t (some n) =
    if text_eq n.path (codes "/")
    then none
    else some (
        record { label = t "Тойм"; href = some (codes "/") }
        ∷ record { label = t n.label; href = none }
        ∷ [])

unfoldable pub crumbs : (String → String) → Text → Option (List Crumb)
unfolding current
crumbs t pathname = crumbs_of t (current pathname)

-- The browser's storage under `COLLAPSED_KEY`; in a private mode it throws.
pub record Storage : Type 0 where
  pub throws : Bool
  pub item : Option String

-- The state of the side bar and the storage.
pub record Bar : Type 0 where
  pub collapsed : Bool
  pub storage : Storage

abbrev is_one : Option String → Bool
is_one none = false
is_one (some v) = v == "1"

-- The effect of the first drawing.
unfoldable pub read_collapsed : Bar → Bar
read_collapsed b = if b.storage.throws then b else record b { collapsed = is_one b.storage.item }

-- `onCollapsedChange`
unfoldable pub on_collapsed_change : Bool → Bar → Bar
on_collapsed_change next b = record b {
  collapsed = next;
  storage =
      if b.storage.throws
      then b.storage
      else record (b.storage) { item = some (if next then "1" else "0") };
}

-- The drawer of narrow windows: the effects of a width that becomes large and of a new path, and its
-- button.
pub data DrawerEvent : Type 0 where
  opens becomes_wide navigates : DrawerEvent
  set_drawer : Bool → DrawerEvent

unfoldable pub drawer_after : DrawerEvent → Bool → Bool
drawer_after opens shown = true
drawer_after becomes_wide shown = false
drawer_after navigates shown = false
drawer_after (set_drawer b) shown = b
