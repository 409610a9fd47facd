-- ===== src/Store/History.antt =====
-- `HistoryDialog` of frontend/app/(portal)/store/page.tsx: the versions of an app, and what was done with
-- it. `date` is `formatDate`, `day` the same with a pattern for days.
use Prim.Native.String.{◌++◌ as ◌<>◌}
use nexus_mini.Prelude.{String, false, List, [], ◌∷◌, ◌++◌, none, ◌==◌, if◌then◌else◌}
use nexus_mini.Resource.{ResourceState, Drawn, skeleton, error_with_retry, empty, children, draw}
use nexus_mini.Ui.{View, text, code, badge, alert, spinner, button, when, each}
use nexus_mini.Store.{StoreApp, message_of}

pub record Release : Type 0 where
  pub version : String
  pub seen_at : String

pub record HistEvent : Type 0 where
  pub action : String
  pub from_version : String
  pub to_version : String
  pub user_name : String
  pub at_time : String

pub record Hist : Type 0 where
  pub releases : List Release
  pub events : List HistEvent

-- `ACTION_LABEL[e.action] ?? e.action`
pub action_label : String → String
action_label a =
    if a == "install"
    then "Суулгасан"
    else if a == "enable"
    then "Асаасан"
    else if a == "disable"
    then "Унтраасан"
    else if a == "upgrade"
    then "Шинэчлэгдсэн"
    else a

pub data Action : Type 0 where
  retry close : Action

module _ (t : String → String) (date : String → String) (day : String → String)
    (app : StoreApp) where
  abbrev release : Release → View Action
  release r =
      code ("v" <> r.version)
      ∷ text (day r.seen_at)
      ∷ when (r.version == app.installed_version) (badge "success" (t "суусан") ∷ [])

  abbrev releases_view : List Release → View Action
  releases_view [] = text "—" ∷ []
  releases_view (r ∷ rs) = each release (r ∷ rs)

  pub event_row : HistEvent → View Action
  unfolding action_label
  event_row e =
      text (t (action_label e.action))
      ∷ code (
          (if e.from_version == "" then "" else e.from_version <> " → ")
          <> (if e.to_version == "" then "—" else e.to_version))
      ∷ text (if e.user_name == "" then t "систем" else e.user_name)
      ∷ text (date e.at_time)
      ∷ []

  abbrev events_view : List HistEvent → View Action
  events_view [] = text (t "Үйл явдал байхгүй") ∷ []
  events_view (e ∷ es) =
      text (t "Үйлдэл")
      ∷ text (t "Хувилбар")
      ∷ text (t "Хэн")
      ∷ text (t "Хэзээ")
      ∷ each event_row (e ∷ es)

  abbrev drawn : Drawn Hist → View Action
  drawn skeleton = spinner (t "Уншиж байна…") ∷ []
  drawn (error_with_retry e) =
      alert "danger" (message_of e) ∷ button (t "Дахин оролдох") false retry ∷ []
  drawn empty = []
  drawn (children d) =
      text (t "Нийтлэгчийн хувилбарууд") ∷ releases_view d.releases
      ++ (text (t "Энэ байгууллагад") ∷ events_view d.events)

  unfoldable pub view : ResourceState Hist → View Action
  unfolding event_row draw
  view res =
      text app.name ∷ text (t "Хувилбарын түүх") ∷ drawn (draw none res)
      ++ (button (t "Хаах") false close ∷ [])
