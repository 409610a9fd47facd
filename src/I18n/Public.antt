-- ===== src/I18n/Public.antt =====
-- frontend/lib/i18n.tsx, lines 27 to 136: the landing page, the store front and the pages before the login.
use nexus_mini.Prelude.{[], ◌∷◌}
use nexus_mini.I18n.Entries.{Dict}

-- The landing page, the store front and the pages before the login.
abbrev pub en_public : Dict
en_public =
    ("Апп алга", "No apps")
    ∷ ("Аппууд", "Apps")
    ∷ ("Бичлэг алга", "No entries")
    ∷ ("Дахин оролдох", "Try again")
    ∷ ("Каталогт хараахан апп нэмэгдээгүй байна.", "No apps have been added to the catalog yet.")
    ∷ ("Устгагдлаа", "Deleted")
    ∷ ("Хараахан бүртгэгдсэн үйлдэл байхгүй байна.", "No actions have been recorded yet.")
    ∷ ("Хасах", "Remove")
    ∷ ("Цэс нээх", "Open menu")
    ∷ ("засах", "edit")
    ∷ ("устгах", "delete")
    ∷ ("Дашбоард", "Dashboard")
    ∷ ("Апп дэлгүүр", "App store")
    ∷ ("Гишүүд", "Members")
    ∷ ("Эрхийн тохиргоо", "Access control")
    ∷ ("Audit лог", "Audit log")
    ∷ ("Нэвтрэх", "Sign in")
    ∷ ("Бүртгүүлэх", "Sign up")
    ∷ ("Гарах", "Log out")
    ∷ ("Хадгалах", "Save")
    ∷ ("Болих", "Cancel")
    ∷ ("Нэр", "Name")
    ∷ ("Имэйл", "Email")
    ∷ ("Нууц үг", "Password")
    ∷ ("Алдаа гарлаа", "Something went wrong")
    ∷ ("Цэс", "Menu")
    ∷ ("Удирдлага", "Administration")
    ∷ ("Байгууллага", "Organization")
    ∷ ("Тохиргоо", "Preferences")
    ∷ ("Загвар", "Theme")
    ∷ ("Хэл", "Language")
    ∷ ("Байгууллага нэмэх", "Add organization")
    ∷ ("Хадгалагдлаа", "Saved")
    ∷ ("Нүүр", "Home")
    ∷ ("Модуль хөгжүүлэх", "Build a module")
    ∷ ("НЭЭЛТТЭЙ ЭХ", "OPEN SOURCE")
    ∷ ("Үйл ажиллагааны нэгдсэн дижитал платформ", "Integrated digital operations platform")
    ∷ (
      "Байгууллагын үйлчилгээ, үйл ажиллагаа, систем, өгөгдлийг нэг дор холбодог модульт платформ — цөм нь суурийг, апп дэлгүүр нь боломжуудыг өгнө.",
      "A modular platform that connects an organization's services, operations, systems and data — the core provides the foundation, the app store delivers the capabilities.",
    )
    ∷ ("Байгууллагаа бүртгүүлэх", "Register your organization")
    ∷ ("ЦӨМ", "CORE")
    ∷ ("Платформ юу хариуцдаг вэ", "What the platform takes care of")
    ∷ (
      "Модуль бүр дахин бичдэг байсан зүйлс нэг л удаа, цөмд:",
      "The things every module used to re-implement, done once, in the core:",
    )
    ∷ ("Tenant тусгаарлалт", "Tenant isolation")
    ∷ (
      "Байгууллага бүрийн өгөгдөл PostgreSQL Row-Level Security-ээр DB давхаргад тусгаарлагдана — кодын алдаа ч хана даван харагдуулахгүй.",
      "Each organization's data is isolated at the database layer with PostgreSQL Row-Level Security — even a code bug can't leak across the wall.",
    )
    ∷ (
      "Модуль permission-оо тунхаглаад л болоо: суулгахад role-уудад автоматаар оноогдоно. «Зөвхөн өөрийн бүртгэл» scope, role-ийн өвлөлт дэмжинэ.",
      "A module simply declares its permissions: on install they are granted to roles automatically. \"Own records only\" scope and role inheritance are supported.",
    )
    ∷ ("Audit гинж", "Audit chain")
    ∷ (
      "Бүх чухал үйлдэл append-only, hash chain-тэй бүртгэлд ордог — гар хүрвэл гинж тасарч илэрнэ. Нэг товчоор шалгана.",
      "Every important action lands in an append-only, hash-chained log — tampering breaks the chain and shows up. Verified with one click.",
    )
    ∷ ("Нэвтрэлт ба SSO", "Auth & SSO")
    ∷ (
      "Session auth өнөөдөр; OIDC provider + өөр nexus-mini-тэй federation дараагийн үед ирнэ.",
      "Session auth today; OIDC provider and federation with other nexus-mini instances arrive in the next phase.",
    )
    ∷ (
      "Circuit breaker, load shedding, retry — гадаад системтэй холбогддог модулиудад бэлэн хэрэгсэл (үе 4).",
      "Circuit breaker, load shedding, retry — ready-made tools for modules that talk to external systems (phase 4).",
    )
    ∷ ("Нэг бинари", "One binary")
    ∷ (
      "Модулиуд Go кодоор нэг бинарид компиллогдоно — микросервисийн төвөгггүй, сүлжээний нэмэлт дуудлагагүй.",
      "Modules compile into a single Go binary — no microservice overhead, no extra network hops.",
    )
    ∷ (
      "Байгууллага бүр өөрт хэрэгтэй модулиа сонгож суулгана — суусан апп эрх, цэсээ өөрөө авчирна. Одоо байгаа аппуудыг тайлбартай нь үзэх.",
      "Each organization installs only what it needs — an installed app brings its own permissions and menu. Browse the current apps with descriptions.",
    )
    ∷ (
      "Модуль бол есөн метод хэрэгжүүлсэн Go package. Файлын бүтэц, permission, миграц, route — бүрэн гарын авлага.",
      "A module is a Go package implementing nine methods. File layout, permissions, migrations, routes — the full guide.",
    )
    ∷ ("Өөрөө ажиллуулж үзэх үү?", "Want to run it yourself?")
    ∷ ("env-ээ бөглөөд", "fill in your env, then")
    ∷ ("Эсвэл", "Or")
    ∷ ("Эсвэл эндээ бүртгүүлэх", "Or sign up right here")
    ∷ (
      "Байгууллага бүр өөрт хэрэгтэй модулиа л суулгана. Суусан апп нь permission-уудаа role-уудад тунхагласан ёсоор оноож, цэсээ эрхтэй хүнд л харуулна; унтраавал бүгд эргэж алга болно.",
      "Each organization installs only the modules it needs. An installed app grants its permissions to roles as declared and shows its menu only to entitled users; disable it and everything disappears again.",
    )
    ∷ ("Дэлгүүрээс сонгоно", "Pick from the store")
    ∷ (
      "Каталогоос аппаа сонгоод «Суулгах» — хамаарлуудыг нь платформ өөрөө цэгцэлнэ.",
      "Pick an app from the catalog and hit Install — the platform resolves its dependencies.",
    )
    ∷ ("Эрх автоматаар", "Permissions, automatically")
    ∷ (
      "Аппын permission-ууд role-уудад тунхагласан ёсоороо оноогдоно; админ дараа нь чөлөөтэй өөрчилнө.",
      "The app's permissions are granted to roles as declared; the admin can adjust them freely afterwards.",
    )
    ∷ ("Цэс гарч ирнэ", "The menu appears")
    ∷ (
      "Эрхтэй хэрэглэгчид л аппын цэсийг харна. Rail дээр аппын icon нэмэгдэж, өөрийн цэстэйгээ ирнэ.",
      "Only entitled users see the app's menu. Its icon appears on the rail with its own submenu.",
    )
    ∷ ("Одоо байгаа аппууд", "Available apps")
    ∷ ("Тайлбар оруулаагүй.", "No description yet.")
    ∷ ("Бэлэн", "Ready")
    ∷ ("Registry-д бүртгэлтэй", "Listed in the registry")
    ∷ ("Каталогт бүртгэлтэй", "Listed in catalog")
    ∷ ("Каталог хоосон байна.", "The catalog is empty.")
    ∷ ("Өөрийн модулиа энд гаргамаар байна уу?", "Want your module listed here?")
    ∷ (
      "Гарын авлагыг дагаад модулиа бичээд каталогт PR илгээгээрэй.",
      "Follow the guide, build your module and send a PR to the catalog.",
    )
    ∷ ("Модуль хөгжүүлэх заавар", "Module development guide")
    ∷ ("nexus-mini ажлын талбар", "nexus-mini workspace")
    ∷ ("Имэйл эсвэл нууц үг буруу", "Wrong email or password")
    ∷ ("Бүртгэлгүй юу?", "No account yet?")
    ∷ ("Байгууллагаа бүртгүүлэх ", "Register your organization")
    ∷ ("Бүртгэлтэй юу?", "Already have an account?")
    ∷ (
      "Бүртгүүлмэгц app store-оос модулиа сонгоно",
      "Right after sign-up you pick your modules from the app store",
    )
    ∷ ("Таны нэр", "Your name")
    ∷ ("Нууц үг (8+)", "Password (8+ chars)")
    ∷ ("Байгууллагын нэр", "Organization name")
    ∷ ("Богино нэр (slug)", "Short name (slug)")
    ∷ ("Жижиг латин үсэг, тоо, зураас", "Lowercase latin letters, digits, dashes")
    ∷ ("Байгууллага үүсгэх", "Create organization")
    ∷ (
      "Ажлын талбараа үүсгээд store-оос модулиа сонгоно",
      "Create your workspace, then pick modules from the store",
    )
    ∷ ("Үүсгэх", "Create")
    ∷ []
