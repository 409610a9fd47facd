-- ===== src/Console/Lists.antt =====
-- The lists of the console over the data hook: admin/app/(panel)/users/page.tsx, apps/page.tsx beside it,
-- and the overview page.tsx above them. `day` is `formatDate` with a pattern for days.
use Prim.Native.String.{◌++◌ as ◌<>◌}
use nexus_mini.Prelude.{
  ℕ, String, Bool, false, List, [], ◌∷◌, ◌++◌, none, some, is_empty, if◌then◌else◌,
}
use nexus_mini.Resource.{ResourceState, Drawn, skeleton, error_with_retry, empty, children, draw}
use nexus_mini.Ui.{View, text, code, number, badge, alert, empty_state, button, when, each}
use nexus_mini.Store.{message_of}

pub record UserRow : Type 0 where
  pub id : String
  pub email : String
  pub name : String
  pub platform_admin : Bool
  pub created_at : String
  pub tenants : ℕ

pub record AppRow : Type 0 where
  pub id : String
  pub short_id : String
  pub name : String
  pub version : String
  pub compiled : Bool
  pub publisher : String
  pub installs : ℕ

pub record Overview : Type 0 where
  pub tenants : ℕ
  pub users : ℕ
  pub apps : ℕ
  pub installations : ℕ

pub data Action : Type 0 where
  retry : Action

module _ (t : String → String) (day : String → String) where
  -- `Resource` with the page's own empty state and its own content.
  abbrev drawn : {A : Type 0} → View Action → (A → View Action) → Drawn A → View Action
  drawn nothing content skeleton = []
  drawn nothing content (error_with_retry e) =
      alert "danger" (message_of e) ∷ button (t "Дахин оролдох") false retry ∷ []
  drawn nothing content empty = nothing
  drawn nothing content (children d) = content d

  abbrev user_line : UserRow → View Action
  user_line u =
      text u.name
      ∷ text u.email
      ∷ number u.tenants
      ∷ text (day u.created_at)
      ∷ when u.platform_admin (badge "accent" (t "платформ админ") ∷ [])

  abbrev user_table : List UserRow → View Action
  user_table us =
      text (t "Нэр")
      ∷ text (t "Имэйл")
      ∷ text (t "Байгууллага")
      ∷ text (t "Бүртгүүлсэн")
      ∷ text (t "Эрх")
      ∷ each user_line us

  unfoldable pub users_view : ResourceState (List UserRow) → View Action
  unfolding draw
  users_view res =
      text (t "Хэрэглэгчид")
      ∷ text (t "Платформ дээрх бүх бүртгэлтэй хэрэглэгч")
      ∷ drawn
          (empty_state (t "Хэрэглэгч алга")
              (t "Платформ дээр хараахан хэрэглэгч бүртгүүлээгүй байна.")
            ∷ [])
          user_table (draw (some is_empty) res)

  abbrev app_line : AppRow → View Action
  app_line a =
      text a.name
      ∷ text a.publisher
      ∷ code a.id
      ∷ text ("v" <> a.version)
      ∷ (if a.compiled then badge "success" (t "Тийм") else badge "neutral" (t "Үгүй"))
      ∷ number a.installs
      ∷ []

  abbrev app_table : List AppRow → View Action
  app_table rows =
      text (t "Апп")
      ∷ text "ID"
      ∷ text (t "Хувилбар")
      ∷ text (t "Бинарид")
      ∷ text (t "Суулгалт")
      ∷ each app_line rows

  unfoldable pub apps_view : ResourceState (List AppRow) → View Action
  unfolding draw
  apps_view res =
      text (t "Каталог")
      ∷ text (t "App store-ийн бүх апп, суулгалтын тоо")
      ∷ drawn (empty_state (t "Апп алга") (t "Каталогт хараахан апп нэмэгдээгүй байна.") ∷ [])
          app_table (draw (some is_empty) res)

  -- `Stat`
  abbrev stat : ℕ → String → View Action
  stat value label = number value ∷ text label ∷ []

  abbrev stats : Overview → View Action
  stats d =
      stat d.tenants (t "Байгууллага")
      ++ (stat d.users (t "Хэрэглэгч")
          ++ (stat d.apps (t "Бэлэн апп") ++ stat d.installations (t "Суулгалт")))

  unfoldable pub overview_view : ResourceState Overview → View Action
  unfolding draw
  overview_view res =
      text (t "Тойм") ∷ text (t "Платформын ерөнхий үзүүлэлтүүд") ∷ drawn [] stats (draw none res)
