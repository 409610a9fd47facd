-- ===== src/I18n/PortalFirst.antt =====
-- frontend/lib/i18n.tsx, lines 137 to 268: the portal, first half.
use nexus_mini.Prelude.{[], ◌∷◌}
use nexus_mini.I18n.Entries.{Dict}

-- The portal, first half.
abbrev pub en_portal_first : Dict
en_portal_first =
    ("Сайн байна уу,", "Welcome,")
    ∷ ("Эхлэхэд туслах", "Getting started")
    ∷ ("Апп дэлгүүрээс модуль суулгах", "Install a module from the app store")
    ∷ (
      "Байгууллагад тань хэрэгтэй модулиудыг сонгож суулгана",
      "Pick and install the modules your organization needs",
    )
    ∷ ("Гишүүдээ урих", "Invite your members")
    ∷ ("Ажилтнуудаа нэмээд role оноогоорой", "Add your staff and assign roles")
    ∷ (
      "Role бүрийн permission-ийг өөрийн бүтцэд тааруулна",
      "Tune each role's permissions to your structure",
    )
    ∷ ("Идэвхтэй апп", "Active apps")
    ∷ ("Таны эрх", "Your permissions")
    ∷ ("Суусан аппууд", "Installed apps")
    ∷ ("Байгууллагадаа хэрэгтэй модулиудыг суулгана", "Install the modules your organization needs")
    ∷ ("Суусан", "Installed")
    ∷ ("Унтраах", "Disable")
    ∷ ("Унтраасан", "Disabled")
    ∷ ("Асаах", "Enable")
    ∷ ("Суулгах", "Install")
    ∷ ("Суулгаагүй", "Not installed")
    ∷ ("Бинарид ороогүй", "Not in this binary")
    ∷ ("суулгагдлаа", "installed")
    ∷ ("Асаалаа", "Enabled")
    ∷ ("Унтраалаа", "Disabled")
    ∷ ("Байгууллагын гишүүд ба role оноолт", "Organization members and role assignment")
    ∷ ("Гишүүн нэмэх", "Add member")
    ∷ ("Гишүүн алга", "No members")
    ∷ (
      "Имэйлээр хайна: бүртгэлтэй бол нэр нь гарна, үгүй бол шинээр үүсгэнэ",
      "Looked up by email: registered users show their name, otherwise a new account is created",
    )
    ∷ ("Хайж байна…", "Looking up…")
    ∷ ("Аль хэдийн энэ байгууллагын гишүүн", "Already a member of this organization")
    ∷ ("Бүртгэлтэй хэрэглэгч — role өгөөд нэмнэ", "Registered user — pick a role and add")
    ∷ (
      "Бүртгэлгүй — нэр, түр нууц үг өгч шинээр үүсгэнэ; эхний нэвтрэлтэд солиулна",
      "Not registered — give a name and a temporary password to create the account; they must change it on first login",
    )
    ∷ ("Нууц үгээ солино уу", "Change your password")
    ∷ (
      "Админ танд түр нууц үг өгсөн. Үргэлжлүүлэхийн өмнө зөвхөн өөрт мэдэгдэх нууц үг тавина уу.",
      "An administrator gave you a temporary password. Set a password only you know before continuing.",
    )
    ∷ ("Шинэ нууц үг (давтах)", "New password (repeat)")
    ∷ ("Шинэ нууц үг хоёр талд таарахгүй байна", "The new passwords do not match")
    ∷ ("Солих", "Change")
    ∷ ("Модулийн цэс", "Module menu")
    ∷ ("Хайх, шилжих", "Search and jump")
    ∷ ("Хуудас хайх…", "Search pages…")
    ∷ ("Олдсонгүй", "Nothing found")
    ∷ ("Навигац", "Navigation")
    ∷ ("Анхны тохиргоо", "First-run setup")
    ∷ ("Бэлэн боллоо", "All set")
    ∷ (
      "Платформын админ үүслээ. Одоо нэвтэрч аппаа store-оос суулга.",
      "The platform administrator is created. Sign in and install apps from the store.",
    )
    ∷ ("Байгууллага үүсгэж чадсангүй:", "Could not create the organisation:")
    ∷ ("нэвтэрсний дараа үүсгэнэ.", "create it after signing in.")
    ∷ ("Энэ суулгац аль хэдийн тохируулагдсан.", "This deployment is already set up.")
    ∷ (
      "Шидтэн зэвсэглээгүй: API-г дахин асаагаад логоос setup холбоосыг ав, эсвэл nexus-mini.env-д ADMIN_* бичээд make migrate ажиллуул.",
      "The wizard is not armed: restart the API and take the setup link from its log, or put ADMIN_* into nexus-mini.env and run make migrate.",
    )
    ∷ ("API-ийн логт хэвлэгдсэн токен", "The token printed in the API log")
    ∷ ("Setup токен", "Setup token")
    ∷ ("Үргэлжлүүлэх", "Continue")
    ∷ (
      "Платформын анхны админ ба (заавал биш) анхны байгууллага",
      "The first platform administrator and, optionally, the first organisation",
    )
    ∷ ("Байгууллагын slug", "Organisation slug")
    ∷ ("Тохируулах", "Set up")
    ∷ (
      "Энэ холбоос хүчингүй болсон — API-ийн логоос шинэ холбоосыг ав.",
      "This link is no longer valid — take a fresh one from the API log.",
    )
    ∷ ("Түр нууц үг (8+)", "Temporary password (8+)")
    ∷ (
      "8+ тэмдэгт: латин үсэг, тоо, тусгай тэмдэгт (кирилл хориотой)",
      "8+ characters: Latin letters, digits and a special character (Cyrillic not allowed)",
    )
    ∷ ("Түр нууц үг", "Temporary password")
    ∷ ("Шинэ нууц үг", "New password")
    ∷ ("Хөгжүүлэгчид", "Developers")
    ∷ ("Хөгжүүлэгчийн гарын авлага", "Developer guide")
    ∷ (
      "Локал ажиллуулахаас эхлээд модуль, UI, өөрийн дистрибуц, registry, гадны системтэй OIDC-ээр холбох, цөмд хувь нэмэр оруулах хүртэл — нэг хуудсанд.",
      "From running locally to modules, UI, your own distribution, the registry, connecting external systems via OIDC and contributing to the core — on one page.",
    )
    ∷ ("Агуулга", "Contents")
    ∷ ("0. Эхлэх", "0. Getting started")
    ∷ ("1–5. Модуль (backend)", "1–5. Module (backend)")
    ∷ ("6. UI", "6. UI")
    ∷ ("7–8. Бүртгэх · Registry", "7–8. Register · Registry")
    ∷ ("Өөрийн дистрибуц", "Your distribution")
    ∷ ("Гадны систем холбох (OIDC/SSO)", "Connect external systems (OIDC/SSO)")
    ∷ ("Аюулгүй байдлын дүрэм", "Security rules")
    ∷ ("Цөмд хувь нэмэр", "Contributing to the core")
    ∷ ("Тест · Deploy", "Test · Deploy")
    ∷ ("0. Эхлэх — локал ажиллуулах", "0. Getting started — run locally")
    ∷ ("# нэг удаа, superuser", "# once, as superuser")
    ∷ (
      "# 4 DB URL + ADMIN_EMAIL/NAME/PASSWORD + PORTAL_URL",
      "# 4 DB URLs + ADMIN_EMAIL/NAME/PASSWORD + PORTAL_URL",
    )
    ∷ ("# API :8084, анхны платформ админ env-ээс", "# API :8084, first platform admin from env")
    ∷ ("# portal :3020;  make admin — :3021", "# portal :3020;  make admin — :3021")
    ∷ ("# эсвэл бүгд нэг коммандаар", "# or everything with one command")
    ∷ (
      "Бүх команд Makefile-аар (make help). Push-ийн өмнө make check — linux build + vet + test + SDK-ийн хил. Хөгжүүлэлтийн төрлүүд:",
      "Every command goes through the Makefile (make help). Before pushing: make check — linux build + vet + test + SDK boundary. Kinds of development:",
    )
    ∷ ("Модуль", "Module")
    ∷ (
      "бизнес функц (энэ репогийн apps/ эсвэл өөрийн репо); доорх §1–8",
      "business features (this repo's apps/ or your own repo); §1–8 below",
    )
    ∷ ("Дистрибуц", "Distribution")
    ∷ (
      "өөрийн компанид nexus-mini ажиллуулах, модулиуд сонгох (nexus CLI)",
      "run nexus-mini for your company and pick modules (nexus CLI)",
    )
    ∷ ("Интеграц", "Integration")
    ∷ (
      "гадны систем nexus-mini-ээр нэвтрэх / nexus-mini Google, SSO-оор нэвтрэх (OIDC)",
      "external systems signing in via nexus-mini / nexus-mini signing in via Google or SSO (OIDC)",
    )
    ∷ ("Цөм", "Core")
    ∷ (
      "backend/internal, frontend, admin — PR-аар (доод хэсэг)",
      "backend/internal, frontend, admin — via PRs (bottom section)",
    )
    ∷ (
      "Гадны систем холбох — OIDC provider, SSO, federation",
      "Connecting external systems — OIDC provider, SSO, federation",
    )
    ∷ (
      "nexus-mini нь OpenID Connect provider (таны систем энэ платформын бүртгэлээр нэвтэрнэ) ба relying party (энэ платформ Google/өөр issuer-ээр нэвтэрнэ) хоёулаа. Хоёр nexus-mini хоорондоо = federation.",
      "nexus-mini is both an OpenID Connect provider (your system signs in with this platform's accounts) and a relying party (this platform signs in via Google or another issuer). Two nexus-mini instances = federation.",
    )
    ∷ ("Таны систем nexus-mini-ээр нэвтрэх", "Your system signing in via nexus-mini")
    ∷ (
      "Portal → SSO клиентүүд (core.sso.manage) → Клиент нэмэх: нэр, redirect URI (https/localhost), scope. Confidential бол client_secret нэг л удаа харагдана; SPA/mobile бол Public (PKCE).",
      "Portal → SSO clients (core.sso.manage) → Add client: name, redirect URI (https/localhost), scopes. Confidential clients see the client_secret only once; SPA/mobile pick Public (PKCE).",
    )
    ∷ ("Discovery:", "Discovery:")
    ∷ (
      "дурын OIDC номын сан (openid-client, oidc-client-ts, Spring, NextAuth…) үүгээр бүх endpoint-ийг олно.",
      "any OIDC library (openid-client, oidc-client-ts, Spring, NextAuth…) finds every endpoint through it.",
    )
    ∷ (
      "Урсгал: authorization_code + PKCE S256 заавал. Хэрэглэгч portal-д нэвтэрч, клиентийн байгууллагын гишүүн бол consent → code → /token. Зөвшөөрөл санагдана.",
      "Flow: authorization_code + mandatory PKCE S256. The user signs in to the portal; if they are a member of the client's organization: consent → code → /token. Consent is remembered.",
    )
    ∷ (
      "Токен: access opaque (/introspect, /revoke), id_token RS256 (/jwks), offline_access → refresh (rotation, replay бол гэр бүлээр хүчингүй). Claims: sub, name, email, tenant (slug) + tenant_id, roles.",
      "Tokens: opaque access (/introspect, /revoke), RS256 id_token (/jwks), offline_access → refresh (rotation; replay revokes the whole family). Claims: sub, name, email, tenant (slug) + tenant_id, roles.",
    )
    ∷ (
      "Сервер-сервер: client_credentials → tenant scope-той access token. Гарах: end_session?id_token_hint=…",
      "Server-to-server: client_credentials → access token with the tenant scope. Sign out: end_session?id_token_hint=…",
    )
    ∷ ("// 1. browser → authorize (PKCE):", "// 1. browser → authorize (PKCE):")
    ∷ ("// 2. callback-ийн code-оор токен:", "// 2. exchange the callback code:")
    ∷ ("// 3. шалгах / хүчингүй болгох:", "// 3. introspect / revoke:")
    ∷ (
      "nexus-mini Google / өөр OIDC-ээр нэвтрэх (env)",
      "nexus-mini signing in via Google / another OIDC issuer (env)",
    )
    ∷ (
      "# redirect: <PORTAL_URL>/api/auth/sso/google/callback",
      "# redirect: <PORTAL_URL>/api/auth/sso/google/callback",
    )
    ∷ ("# federation", "# federation")
    ∷ (
      "# true: танигдаагүй имэйлд данс үүсгэнэ (JIT)",
      "# true: creates an account for unknown emails (JIT)",
    )
    ∷ (
      "# true: issuer-ийн имэйлд email_verified-гүй ч итгэнэ (federation)",
      "# true: trust the issuer's email even without email_verified (federation)",
    )
    ∷ (
      "Login хуудсанд товч гарна; PKCE + state + nonce, id_token-ийг issuer-ийн JWKS-ээр шалгана. Дэлгэрэнгүй:",
      "A button appears on the login page; PKCE + state + nonce, the id_token is verified against the issuer's JWKS. Details:",
    )
    ∷ (
      "Аюулгүй байдлын дүрэм — модуль, цөм хоёуланд",
      "Security rules — for modules and the core alike",
    )
    ∷ (
      "Эрх зөвхөн серверт: route бүр RequirePermission; UI-гийн нуулт нь UX. Мөрийн түвшин — RLS + query-дээ tenant_id, own scope бол created_by.",
      "Authorization only on the server: every route has RequirePermission; hiding UI is UX. Row level — RLS + tenant_id in the query, created_by for own scope.",
    )
    ∷ (
      "SQL үргэлж параметртэй, төрлийн cast-тай ($1::uuid). Бүх string багана varchar(n); FK бусад хүснэгт рүү → same-tenant trigger.",
      "SQL always parameterized with explicit casts ($1::uuid). Every string column varchar(n); FKs to other tables → same-tenant trigger.",
    )
    ∷ (
      "Алдааг клиентэд түүхийгээр нь буцаахгүй (DBError/Error): 23505 → 409, бусад → лог + ерөнхий 500. Буруу uuid → 400 (UUIDParam).",
      "Never return raw errors to clients (DBError/Error): 23505 → 409, anything else → log + generic 500. Bad uuid → 400 (UUIDParam).",
    )
    ∷ (
      "Нууц зүйл (токен, нууц үг, session) лог/audit-д бичихгүй. Client secret argon2-оор hash-лагдсан; OAuth токен sha256 hash-аар хадгалагдана.",
      "Secrets (tokens, passwords, sessions) never go to logs/audit. Client secrets are argon2-hashed; OAuth tokens are stored as sha256 hashes.",
    )
    ∷ (
      "Апп DB role-д: temp хүснэгт үгүй, auth_* функц үгүй, users.password_hash үгүй, tenants төлөв багана үгүй — модуль эдгээрт хүрч чадахгүй, хүрэх гэж бүү оролд.",
      "The app DB role has no temp tables, no auth_* functions, no users.password_hash, no tenant state columns — a module cannot reach them; don't try.",
    )
    ∷ (
      "Cookie-тэй бичих хүсэлт Origin + Sec-Fetch-Site шалгалттай; гадны домэйноос дуудах endpoint бол токен-аар танигддаг байх (OAuth2 загвар).",
      "Cookie-authenticated writes are checked with Origin + Sec-Fetch-Site; endpoints called from other domains must authenticate by token (the OAuth2 pattern).",
    )
    ∷ (
      "Render дотор window/localStorage/matchMedia уншихгүй (hydration) — useEffect-д. Шалгахдаа dark/light хоёуланг.",
      "Never read window/localStorage/matchMedia during render (hydration) — use useEffect. Test both dark and light.",
    )
    ∷ ("Цөмд хувь нэмэр оруулах", "Contributing to the core")
    ∷ ("Бүтэц:", "Layout:")
    ∷ ("(цөмийн дотоод — чөлөөтэй өөрчлөгдөнө),", "(core internals — change freely),")
    ∷ (
      "(SDK — v1.x-д эвдэхгүй, эвдэх бол major),",
      "(SDK — never broken within v1.x; breaking means major),",
    )
    ∷ ("(registry гэрээ),", "(registry contract),")
    ∷ (
      "Миграц: backend/db/migrations/000NN_*.sql (goose, Up/Down хоёулаа); definer функц бүр SET search_path = pg_catalog, public, pg_temp + REVOKE FROM PUBLIC + тодорхой GRANT.",
      "Migrations: backend/db/migrations/000NN_*.sql (goose, Up and Down); every definer function SET search_path = pg_catalog, public, pg_temp + REVOKE FROM PUBLIC + explicit GRANT.",
    )
    ∷ (
      "Тест: unit (go test) + env-гэйт integration (NEXUS_TEST_DATABASE_URL*); RLS/RBAC өөрчлөлтөд integration заавал. make check push бүрийн өмнө.",
      "Tests: unit (go test) + env-gated integration (NEXUS_TEST_DATABASE_URL*); integration is mandatory for RLS/RBAC changes. make check before every push.",
    )
    ∷ (
      "Баримт: docs/00-decisions.md-д шийдвэрээ, docs/03 ↔ энэ хуудас синк, CLAUDE.md-ийн invariant-ууд.",
      "Docs: decisions in docs/00-decisions.md, keep docs/03 ↔ this page in sync, invariants in CLAUDE.md.",
    )
    ∷ (
      "PR: жижиг, нэг зорилготой; commit-д «яагаад». Алдаа олбол fork-доо биш upstream-д.",
      "PRs: small, single-purpose; commit messages say why. Found a bug? Fix it upstream, not in your fork.",
    )
    ∷ (
      "Deploy: сервер дээр git pull → deploy/deploy.sh (make migrate ENV_FILE=… + атом бинари/Next солилт + systemd restart); unit/nginx өөрчлөлт гараар. Docker: docker-compose.yml. Production: ENVIRONMENT=production, PORTAL_URL https, nexus_auth role, ADMIN_* env-ээс анхны админ үүссэний дараа устга.",
      "Deploy: git pull on the server → deploy/deploy.sh (make migrate ENV_FILE=… + atomic binary/Next swap + systemd restart); unit/nginx changes by hand. Docker: docker-compose.yml. Production: ENVIRONMENT=production, https PORTAL_URL, the nexus_auth role, remove ADMIN_* from env once the first admin exists.",
    )
    ∷ ("эсвэл", "or")
    ∷ ("Google-ээр нэвтрэх", "Sign in with Google")
    ∷ ("SSO-оор нэвтрэх", "sign in with SSO")
    ∷ ("Хүсэлт буруу", "Invalid request")
    ∷ ("Хандалт зөвшөөрөх", "Authorize access")
    ∷ ("систем таны", "wants to sign in with your")
    ∷ (
      "байгууллагын бүртгэлээр нэвтэрч, дараах мэдээллийг авахыг хүсэж байна:",
      "organization account and access the following:",
    )
    ∷ ("Таныг таних (ID)", "Identify you (ID)")
    ∷ ("Имэйл хаяг", "Email address")
    ∷ ("Байгууллагын мэдээлэл", "Organization details")
    ∷ []
