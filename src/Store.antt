-- ===== src/Store.antt =====
-- frontend/app/(portal)/store/page.tsx: the store's cards and what a visitor may do with an app.
pub mod Cards
pub mod History
use Prim.Native.String
use nexus_mini.Prelude.{
  ℕ, String, Bool, true, false, not, ◌&&◌, List, [], ◌∷◌, ◌++◌, map, Option, none, some, ◌==◌,
  is_empty, if◌then◌else◌,
}
use nexus_mini.Runtime.{
  Fault, api_error, other_error, Answer, ok, fail, Proc, ret, ask, update, effect, ◌>>=◌, ◌>>◌, msg,
}
use nexus_mini.Resource.{ResourceState, Drawn, skeleton, error_with_retry, empty, children, draw}
use nexus_mini.Ui.{View, Element, text, code, badge, alert, button, empty_state, when, each}

-- `"" | "enabled" | "disabled"`
pub data AppStatus : Type 0 where
  not_installed enabled disabled : AppStatus

pub record StoreApp : Type 0 where
  pub id : String
  pub short_id : String
  pub name : String
  pub version : String
  pub description : String
  pub publisher : String
  pub go_module : String
  pub compiled : Bool
  pub status : AppStatus
  pub installed_version : String

-- `"install" | "enable" | "disable"`
pub data AppAction : Type 0 where
  install enable disable : AppAction

-- The page's own state; what is loaded is the state of the data hook.
pub record Page : Type 0 where
  pub err : String
  pub busy : String
  pub history_for : Option StoreApp

abbrev pub initial : Page
initial = record { err = ""; busy = ""; history_for = none }

pub data Request : Type 0 where
  post_action : String → AppAction → Request

abbrev pub Reply : Request → Type 0
Reply (post_action id action) = Unit {0}

pub data Effect : Type 0 where
  toast : String → Effect
  reload refresh : Effect

abbrev pub Handler : Type 0
Handler = Proc Request Reply Effect Page (Unit {0})

-- What a click on the page asks for.
pub data Action : Type 0 where
  dismiss_error retry : Action
  act_on : StoreApp → AppAction → Action
  show_history : StoreApp → Action

-- `state.error.message`, with an error of any kind.
abbrev pub message_of : Fault → String
message_of (api_error status m) = m
message_of (other_error m) = m

module _ (t : String → String) where
  pub toast_title : StoreApp → AppAction → String
  toast_title app install = String.◌++◌ app.name (String.◌++◌ " " (t "суулгагдлаа"))
  toast_title app enable = t "Асаалаа"
  toast_title app disable = t "Унтраалаа"

  -- `act`; the `finally` clears the busy card on both ways.
  unfoldable pub act : StoreApp → AppAction → Handler
  unfolding toast_title
  act app action = do
    update (λ s. record s { err = "" })
    update (λ s. record s { busy = app.id })
    r ← ask (post_action app.id action)
    elim r [
      | ok u ↦ do
        effect (toast (toast_title app action))
        effect reload
        effect refresh
        update (λ s. record s { busy = "" })
      | fail e ↦ do
        update (λ s. record s { err = msg e (t "Алдаа гарлаа") })
        update (λ s. record s { busy = "" })
    ]

  module _ (can_manage : Bool) (busy : String) where
    abbrev pub act_button : String → StoreApp → AppAction → View Action
    act_button label a action = button label (busy == a.id) (act_on a action) ∷ []

    -- What a card has for an app that is not installed.
    abbrev pub install_controls : Bool → StoreApp → View Action
    install_controls compiled a =
        if compiled
        then (if can_manage
            then act_button (t "Суулгах") a install
            else badge "neutral" (t "Суулгаагүй") ∷ [])
        else badge "neutral" (t "Бинарид ороогүй") ∷ code "nexus add" ∷ code a.short_id ∷ []

    -- The button or the badge of a card, by the app's status.
    pub controls : StoreApp → AppStatus → View Action
    controls a enabled =
        badge "success" (t "Суусан") ∷ when can_manage (act_button (t "Унтраах") a disable)
    controls a disabled =
        badge "warning" (t "Унтраасан") ∷ when can_manage (act_button (t "Асаах") a enable)
    controls a not_installed = install_controls a.compiled a

    pub card : StoreApp → View Action
    unfolding controls
    card a =
        text a.name
          ∷ text a.publisher
          ∷ button (t "Хувилбарын түүх") false (show_history a)
          ∷ text a.description
          ∷ controls a a.status
        ++ (text a.version ∷ [])

    pub cards : Drawn (List StoreApp) → View Action
    unfolding card
    cards skeleton = []
    cards (error_with_retry e) =
        alert "danger" (message_of e) ∷ button (t "Дахин оролдох") false retry ∷ []
    cards empty = empty_state (t "Апп алга") (t "Каталогт хараахан апп нэмэгдээгүй байна.") ∷ []
    cards (children apps) = each card apps

  -- The page under its title, without the dialog of the history.
  unfoldable pub view : Bool → Page → ResourceState (List StoreApp) → View Action
  unfolding cards draw
  view can_manage s apps =
      when (not (s.err == "")) (alert "danger" s.err ∷ button "×" false dismiss_error ∷ [])
      ++ cards can_manage s.busy (draw (some is_empty) apps)
