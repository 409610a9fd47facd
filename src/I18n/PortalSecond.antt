-- ===== src/I18n/PortalSecond.antt =====
-- frontend/lib/i18n.tsx, lines 269 to 400: the portal, second half.
use nexus_mini.Prelude.{[], ◌∷◌}
use nexus_mini.I18n.Entries.{Dict}

-- The portal, second half.
abbrev pub en_portal_second : Dict
en_portal_second =
    ("Байгууллага дахь role-ууд", "Your roles in the organization")
    ∷ ("Таныг байхгүй үед ч хандах (refresh token)", "Access while you are away (refresh token)")
    ∷ ("Та", "You")
    ∷ ("Татгалзах", "Deny")
    ∷ ("Зөвшөөрөх", "Allow")
    ∷ ("SSO клиентүүд", "SSO clients")
    ∷ (
      "Гадны систем энэ байгууллагын бүртгэлээр нэвтрэх (OpenID Connect)",
      "External systems signing in with this organization's accounts (OpenID Connect)",
    )
    ∷ ("Клиент нэмэх", "Add client")
    ∷ ("Клиент засах", "Edit client")
    ∷ ("Клиент үүслээ", "Client created")
    ∷ ("Issuer", "Issuer")
    ∷ ("Хуулах", "Copy")
    ∷ ("Хуулагдлаа", "Copied")
    ∷ ("Discovery", "Discovery")
    ∷ ("заавал", "required")
    ∷ ("Клиент байхгүй", "No clients yet")
    ∷ ("Гадны системээ бүртгээд client_id авна", "Register an external system to get a client_id")
    ∷ ("Төрөл", "Type")
    ∷ (
      "клиентийг устгах уу? Олгосон бүх токен хүчингүй болно.",
      "— delete this client? All issued tokens are revoked.",
    )
    ∷ ("Клиентийн нууц үг — нэг л удаа харагдана", "Client secret — shown only once")
    ∷ (
      "Хадгалаад хаа — дахин харуулахгүй, алдвал клиентээ шинээр үүсгэнэ.",
      "Save it and close — it is never shown again; if lost, create a new client.",
    )
    ∷ ("Хадгалсан", "Saved it")
    ∷ (
      "Public клиент (SPA/mobile — secret-гүй, PKCE)",
      "Public client (SPA/mobile — no secret, PKCE)",
    )
    ∷ ("Redirect URI-ууд (мөр тус бүр)", "Redirect URIs (one per line)")
    ∷ ("Logout-ын дараах URI-ууд", "Post-logout URIs")
    ∷ ("Энэ байгууллага устгалд товлогдсон:", "This organization is scheduled for deletion:")
    ∷ (
      "Буцаахыг хүсвэл платформын админтай холбогдоно уу.", "Contact the platform admin to cancel.",
    )
    ∷ ("Хувилбарын түүх", "Version history")
    ∷ ("Нийтлэгчийн хувилбарууд", "Publisher releases")
    ∷ ("суусан", "installed")
    ∷ ("Энэ байгууллагад", "In this organization")
    ∷ ("Үйл явдал байхгүй", "No events")
    ∷ ("Хувилбар", "Version")
    ∷ ("Суулгасан", "Installed")
    ∷ ("Асаасан", "Enabled")
    ∷ ("Шинэчлэгдсэн", "Upgraded")
    ∷ ("Хаах", "Close")
    ∷ (
      "энэ апп бинарид ороогүй байна — `nexus add <short_id>` коммандаар нэмээд дахин build хийнэ",
      "This app is not in the binary — add it with `nexus add <short_id>` and rebuild",
    )
    ∷ ("нэг resource", "one resource")
    ∷ ("олон resource, олон хуудас", "many resources, many pages")
    ∷ ("Хувилбар + манифест (make manifest)", "Version + manifest (make manifest)")
    ∷ ("Registry, гарын үсэг, nexus add/upgrade", "Registry, signing, nexus add/upgrade")
    ∷ (
      "Түдгэлзүүлэлт / зөвхөн-унших, impersonation, lockout",
      "Suspension / read-only, impersonation, lockout",
    )
    ∷ (
      "portal хуудсууд → build үед app/(portal)/<нэр>/ руу хуулагдана",
      "portal pages → copied to app/(portal)/<name>/ at build",
    )
    ∷ (
      "модулийн толь (en: {...}) — цөмийн толинд нэгдэнэ",
      "module dictionary (en: {...}) — merged into the core one",
    )
    ∷ (
      "Олон resource-тэй бол handler файлыг resource тус бүрээр салгана (organisation: departments.go, people.go; ui/pages/departments/, ui/pages/people/).",
      "With several resources, split handlers per resource (organisation: departments.go, people.go; ui/pages/departments/, ui/pages/people/).",
    )
    ∷ (
      "// заавал биш — store/registry-ийн тайлбар кодоос (make manifest авдаг):",
      "// optional — store/registry description from code (make manifest reads it):",
    )
    ∷ ("Юу хийдэг вэ…", "What it does…")
    ∷ (
      "Version нь semver; registry-д нийтлэх git tag нь v<Version>. Permission нэмсэн/өргөсгөсөн бол minor-оо өсгө — дистрибуц nexus upgrade хийхэд -approve асуух шалтгаан нь энэ.",
      "Version is semver; the git tag published to the registry is v<Version>. Bump minor when you add or widen a permission — that is why nexus upgrade asks for -approve.",
    )
    ∷ ("бичихийн тулд permission", "requires the permission to have")
    ∷ (
      "байх ёстой (үгүй бол panic). Runtime-д ч own_scope=false permission-д хэн ч «own» өгч чадахгүй",
      "(otherwise panic). At runtime too, nobody can grant “own” on an own_scope=false permission",
    )
    ∷ ("Нөөцөлсөн ShortID:", "Reserved ShortIDs:")
    ∷ (
      "Шинэ хувилбарт permission нэмбэл цөм асахдаа суусан tenant бүрийн admin-д (+DefaultRoles) автоматаар оноодог (backfill); байгаа кодод хүрэхгүй",
      "When a new version adds a permission, the core grants it on boot to admin (+DefaultRoles) of every tenant that installed the module (backfill); existing codes are untouched",
    )
    ∷ ("(функцэд автомат GRANT байхгүй)", "(no automatic GRANT on functions)")
    ∷ (
      "Өөр хүснэгт рүү FK (memberships, өөрийн мод) заавал same-tenant trigger-тэй — FK шалгалт RLS-ийг давдаг. Загвар:",
      "Any FK to another table (memberships, your own tree) needs a same-tenant trigger — FK checks bypass RLS. Template:",
    )
    ∷ (
      "Апп role-д temp хүснэгт, users.password_hash, auth_* функцууд хаалттай — зориуд",
      "The app role cannot create temp tables, read users.password_hash or call auth_* functions — by design",
    )
    ∷ (
      "зам/биеийн id-г DB-д хүргэхээс өмнө (буруу бол 400); string талбарын уртыг valid()-даа шалга",
      "validate path/body ids before they reach the DB (400 instead of 500); check string lengths in valid()",
    )
    ∷ (
      "Түдгэлзүүлсэн байгууллага → 403, зөвхөн-унших → бичих 503: платформ RequireTenant-д хийнэ, модуль мэдэх шаардлагагүй; impersonated session-ийн audit-д impersonated_by автоматаар хавсарна",
      "Suspended organization → 403, read-only → writes 503: the platform does it in RequireTenant, the module needs no code; audit rows of impersonated sessions get impersonated_by automatically",
    )
    ∷ (
      "Path заавал /<ShortID> эсвэл /<ShortID>/… — өөр зам Register panic (portal-ийн middleware нийтийн замаас бусдыг хамгаалдаг, модуль тойрч чадахгүй). Icon нэр: components/icons.tsx.",
      "Path must be /<ShortID> or /<ShortID>/… — anything else panics in Register (the portal middleware protects everything except public paths; a module cannot bypass it). Icon names: components/icons.tsx.",
    )
    ∷ ("Манифест кодоос үүснэ:", "The manifest is generated from code:")
    ∷ ("дараа нь", "then")
    ∷ (
      "репод PR илгээнэ; maintainer index.json-ийг Ed25519-ээр гарын үсэглэнэ. Код registry-д хадгалагдахгүй — go_module зам + git tag хангалттай. Орсны дараа хэн ч",
      "repo — send a PR; the maintainer signs index.json with Ed25519. Code is not stored in the registry — the go_module path + a git tag is enough. Once listed, anyone can run",
    )
    ∷ (
      "гэж дистрибуцдаа нэмнэ. Өөрийн registry: репог хуулж, nexus-registry keygen → REGISTRY_URL + REGISTRY_KEYS.",
      "to add it to their distribution. Own registry: copy the repo, nexus-registry keygen → REGISTRY_URL + REGISTRY_KEYS.",
    )
    ∷ (
      "// nexus CLI — дистрибуц үүсгэх, модуль нэмэх (цөмийг fork хийхгүй):",
      "// nexus CLI — create a distribution, add modules (no core fork):",
    )
    ∷ (
      "// backend/main.go (init үүсгэнэ; add маркер хооронд мөр нэмнэ):",
      "// backend/main.go (created by init; add inserts lines between markers):",
    )
    ∷ (
      "— модулийн шинэ хувилбарт permission нэмэгдсэн/өргөссөн бол зогсоож -approve шаардана; модуль чимээгүй эрх авахгүй",
      "— if a new module version adds or widens permissions it stops and requires -approve; a module never gains rights silently",
    )
    ∷ (
      "UI нь модулийн хавтаст амьдарна: ui/pages/ доторх хуудсууд build үед app/(portal)/<нэр>/ руу хуулагдана, ui/i18n.ts толь цөмийнхтэй нэгдэнэ — цөмийн frontend файлд гар хүрэхгүй. Бэлэн загвар",
      "UI lives in the module folder: pages under ui/pages/ are copied to app/(portal)/<name>/ at build time and the ui/i18n.ts dictionary is merged into the core one — you never touch core frontend files. Ready templates",
    )
    ∷ (
      "// apps/name/ui/pages/page.tsx → /name (ui/pages/reports/page.tsx → /name/reports)",
      "// apps/name/ui/pages/page.tsx → /name (ui/pages/reports/page.tsx → /name/reports)",
    )
    ∷ ("Толь:", "Dictionary:")
    ∷ ("(түлхүүр нь монгол текст)", "(keys are the Mongolian text)")
    ∷ (
      "// backend/apps/apps.go — бинарид орох модулиуд:",
      "// backend/apps/apps.go — modules compiled into the binary:",
    )
    ∷ (
      "// frontend/modules.json — portal-д орох UI:",
      "// frontend/modules.json — UI included in the portal:",
    )
    ∷ ("Энэ сайтын store-д оруулах бол", "To list it in this site's store,")
    ∷ ("Өөрийн дистрибуц — цөмийг fork хийхгүй", "Your own distribution — don't fork the core")
    ∷ (
      "Өөрийн компанид nexus-mini ашиглаж, өөрийн модулиуд, өөрийн store, өөрийн харилцагчидтай (tenant) платформ ажиллуулж болно. Цөмийн репог хуулбарлаж засахгүй — хамаарал болгоно. Ингэж байж цөмийн шинэчлэлтийг merge-гүй, мөргөлдөөнгүй авна.",
      "You can run nexus-mini for your own company with your own modules, your own store and your own customers (tenants). Don't copy and edit the core repo — depend on it. That way core updates arrive without merges or conflicts.",
    )
    ∷ (
      "// your-company/nexus-dist/backend/main.go — бүхэлдээ:",
      "// your-company/nexus-dist/backend/main.go — in its entirety:",
    )
    ∷ ("// таны модуль — тусдаа репо", "// your module — its own repo")
    ∷ (
      "// Цөмийг шинэчлэх — merge байхгүй, зөвхөн хувилбар:",
      "// Updating the core — no merge, just a version:",
    )
    ∷ (
      "— migrate/serve/manifest коммандууд, env, миграц, анхны админ, permission sync, сервер: бүгд цөмд; та модулиудаа л өгнө",
      "— migrate/serve/manifest commands, env, migrations, first admin, permission sync, server: all in the core; you just pass your modules",
    )
    ∷ ("Frontend: цөмийн frontend-ийн хуулбар +", "Frontend: a copy of the core frontend +")
    ∷ (
      "Та цөмийн файлд гар хүрдэггүй (UI ui/-д, толь ui/i18n.ts-д) тул цөмийн frontend-ийг tag-аас хуулж дарахад мөргөлдөхгүй",
      "You never touch core files (UI in ui/, dictionary in ui/i18n.ts), so overwriting the core frontend from a tag never conflicts",
    )
    ∷ ("SDK амлалт:", "SDK promise:")
    ∷ (
      "v1.x дотор эвдэхгүй (semver); internal/* чөлөөтэй өөрчлөгдөнө — модуль түүнээс импортолж чадахгүй",
      "won't break within v1.x (semver); internal/* changes freely — modules can't import it anyway",
    )
    ∷ (
      "Цөмд алдаа олбол өөр дээрээ засахгүй — upstream руу PR. Харилцагч тань таны instance дээр tenant болно; та платформ админ",
      "Found a core bug? Don't patch it locally — send a PR upstream. Your customers become tenants on your instance; you are the platform admin",
    )
    ∷ (
      "devices-ийг хуулж эхлээд, дуусаад каталогт PR илгээгээрэй — эсвэл өөрийн дистрибуц үүсгээрэй.",
      "Copy devices to start; when done, send a catalog PR — or build your own distribution.",
    )
    ∷ ("Байгууллагын тохиргоо", "Organization settings")
    ∷ ("Нэр, хуулийн мэдээлэл, холбоо барих", "Name, legal details, contacts")
    ∷ ("Хуулийн нэр", "Legal name")
    ∷ ("Регистрийн дугаар", "Registration number")
    ∷ ("ТТД", "Tax ID")
    ∷ ("Хаяг", "Address")
    ∷ ("Утас", "Phone")
    ∷ ("Вэб сайт", "Website")
    ∷ ("Slug өөрчлөгдөхгүй", "Slug cannot be changed")
    ∷ ("Засах эрхгүй — зөвхөн харах", "No edit permission — read only")
    ∷ ("Уншиж байна…", "Loading…")
    ∷ (
      "Энэ байгууллагыг платформ түдгэлзүүлсэн байна.",
      "This organization has been suspended by the platform.",
    )
    ∷ ("Шалтгаан", "Reason")
    ∷ (
      "Өгөгдөлд хандах боломжгүй — платформын админтай холбогдоно уу.",
      "Data is not accessible — contact the platform admin.",
    )
    ∷ (
      "Байгууллага зөвхөн уншигдах горимд байна — өөрчлөлт түр хадгалагдахгүй.",
      "The organization is in read-only mode — changes are temporarily not saved.",
    )
    ∷ (
      "Платформын админ энэ хэрэглэгчийн нэрийн өмнөөс нэвтэрсэн байна — бүх үйлдэл audit-д тэмдэглэгдэнэ (30 минутын session).",
      "A platform admin is signed in on behalf of this user — every action is recorded in the audit log (30-minute session).",
    )
    ∷ ("Нэмэх", "Add")
    ∷ ("Гишүүн нэмэгдлээ", "Member added")
    ∷ ("Role шинэчлэгдлээ", "Roles updated")
    ∷ ("Гишүүн хасагдлаа", "Member removed")
    ∷ ("Өөрийн role-г эндээс өөрчлөхгүй", "You can't change your own roles here")
    ∷ ("хасах уу?", "— remove?")
    ∷ (
      "Нүд дарж — → бүгд → өөрийн гэж эргэлдэнэ. Role нь implies-ээрээ доод role-ийн эрхийг өвлөнө.",
      "Click a cell to cycle — → all → own. A role inherits the lower role's permissions via implies.",
    )
    ∷ ("Role нэмэх", "Add role")
    ∷ ("Бүгд", "All")
    ∷ ("Өөрийн", "Own")
    ∷ ("Админ үргэлж бүх эрхтэй", "Admin always has every permission")
    ∷ ("Оноолт хадгалагдлаа", "Grants saved")
    ∷ ("Role үүслээ", "Role created")
    ∷ ("Код", "Code")
    ∷ ("Жижиг үсэг, тоо, _", "Lowercase letters, digits, _")
    ∷ ("Өвлөх role (сонголттой)", "Inherit from role (optional)")
    ∷ ("— өвлөхгүй —", "— no inheritance —")
    ∷ (
      "«Өөрийн» = зөвхөн өөрийн үүсгэсэн бүртгэл дээр үйлдэл хийнэ (модуль нь дэмждэг бол)",
      "\"Own\" = act only on records you created (when the module supports it)",
    )
    ∷ ("Append-only, hash гинжтэй үйлдлийн бүртгэл", "Append-only, hash-chained action log")
    ∷ ("Гинж шалгах", "Verify chain")
    ∷ ("Гинж бүрэн — бүртгэлд гар хүрээгүй", "Chain intact — the log has not been tampered with")
    ∷ ("дээр тасарсан!", "is broken!")
    ∷ ("Үйлдэл", "Action")
    ∷ ("Объект", "Object")
    ∷ ("Хэн", "Who")
    ∷ ("Хэзээ", "When")
    ∷ ("систем", "system")
    ∷ []
