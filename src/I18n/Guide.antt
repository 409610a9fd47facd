-- ===== src/I18n/Guide.antt =====
-- frontend/lib/i18n.tsx, lines 452 to 546: the module developer's guide.
use nexus_mini.Prelude.{[], ◌∷◌}
use nexus_mini.I18n.Entries.{Dict}

-- The module developer's guide.
abbrev pub en_guide : Dict
en_guide =
    (
      "модулийн ГЭРЭЭ: ID, permission, цэс, миграц, route↔permission холболт",
      "the module CONTRACT: ID, permissions, menu, migrations, route↔permission wiring",
    )
    ∷ ("хүсэлт/хариултын struct + validation", "request/response structs + validation")
    ∷ ("HTTP handler-ууд (нэг resource = нэг файл)", "HTTP handlers (one resource = one file)")
    ∷ ("модулийн goose миграцууд", "the module's goose migrations")
    ∷ ("// reverse-DNS, глобал давтагдашгүй", "// reverse-DNS, globally unique")
    ∷ ("// permission prefix + URL зам", "// permission prefix + URL path")
    ∷ ("Хүний нэр", "Human name")
    ∷ ("Код заавал", "The code must start with")
    ∷ (
      "-ээр эхэлнэ — өөр модулийн эрхийг булааж чадахгүй",
      " — a module can't claim another module's permissions",
    )
    ∷ ("нь суулгах үед хэн авахыг тунхагладаг:", "declares who receives it on install:")
    ∷ (
      "үргэлж бүгдийг авна, жагсаалтад бичсэн нь нэмж авна,",
      "always gets everything, listed roles get it in addition,",
    )
    ∷ ("нь зөвхөн өөрийн мөрийн эрх", "grants it with own-records-only scope")
    ∷ ("хоосон = зөвхөн admin (аюулгүй default)", "empty = admin only (safe default)")
    ∷ ("зэрэг нэрс нөөцлөгдсөн", "and similar names are reserved")
    ∷ ("RLS policy", "RLS policy")
    ∷ ("жишээг devices-ээс хуул", "copy the example from devices")
    ∷ ("ашиглах бол", "requires a")
    ∷ ("багана заавал", "column")
    ∷ (
      "Бүх string баганад урттай хязгаар (varchar(n)) — задгай text хориотой",
      "Every string column needs a length cap (varchar(n)) — bare text is forbidden",
    )
    ∷ ("Төгсгөлд нь", "Finish with")
    ∷ ("Модуль бүр өөрийн goose хүснэгттэй", "Each module has its own goose table")
    ∷ (
      "тул цөм болон бусад модультай мөргөлдөхгүй.",
      "so it never collides with the core or other modules.",
    )
    ∷ ("Танд өгөгдөх", "The router")
    ∷ ("нь аль хэдийн хамгаалагдсан:", "you receive is already protected: it lives under")
    ∷ (
      "дор байрладаг, нэвтрээгүй хүн 401, апп суулгаагүй tenant 403 авчихсан байдаг. Handler дотор:",
      "— unauthenticated callers already got 401 and tenants without the app got 403. Inside a handler:",
    )
    ∷ ("хүсэлтийн identity", "the request identity")
    ∷ ("бол query-дээ", "means adding a")
    ∷ ("шүүлт нэм", "filter to your query")
    ∷ (
      "RLS context автоматаар тохирдог холболт; SQL-даа",
      "a connection with RLS context set automatically; still write",
    )
    ∷ ("гэж бас бич", "in your SQL")
    ∷ ("чухал үйлдлээ audit гинжид бич", "record important actions to the audit chain")
    ∷ ("вэб туслахууд", "web helpers")
    ∷ ("Монгол нэр", "Mongolian name")
    ∷ ("6. UI хуудас (portal)", "6. UI page (portal)")
    ∷ (
      "Цэсэндээ зарласан Path-тайгаа ижил замд Next.js хуудас үүсгэнэ — devices-ийн хуудас",
      "Create a Next.js page at the same path you declared in your menu — the devices page",
    )
    ∷ ("бэлэн загвар нь.", "is a ready-made template.")
    ∷ (
      "// frontend/app/(portal)/name/page.tsx — Path: \"/name\"-тэй ижил",
      "// frontend/app/(portal)/name/page.tsx — same as Path: \"/name\"",
    )
    ∷ ("// хэрэглэгч + permissions", "// user + permissions")
    ∷ ("// хэл (mn/en)", "// language (mn/en)")
    ∷ ("// undefined | \"all\" | \"own\"", "// undefined | \"all\" | \"own\"")
    ∷ (
      "// api.get(`/api/apps/name/`) — cookie автоматаар, 401 бол login руу",
      "// api.get(`/api/apps/name/`) — cookie attached automatically, 401 redirects to login",
    )
    ∷ ("Эрхээр UI-гаа нуу:", "Hide UI by permission:")
    ∷ (
      "байхгүй бол товчоо бүү харуул (энэ нь UX — жинхэнэ хамгаалалт серверт)",
      "missing → don't render the button (this is UX — real enforcement is server-side)",
    )
    ∷ (
      "«Өөрийн» scope-той хэрэглэгчид засах/устгах товчийг",
      "For own-scope users, show edit/delete buttons only when",
    )
    ∷ ("үед л харуулна", "")
    ∷ ("Цэсний icon нэрээ", "Add your menu icon name to the map in")
    ∷ ("ийн map-д нэм (lucide icon)", "(a lucide icon)")
    ∷ ("Бэлэн загварууд:", "Ready-made styles:")
    ∷ ("амжилтад", "use")
    ∷ ("текстэд", "for success and")
    ∷ ("7. Бүртгэх ба асаах", "7. Register and run")
    ∷ ("// backend/apps/apps.go — нэг мөр:", "// backend/apps/apps.go — one line:")
    ∷ ("# модуль store-д гарч ирнэ", "# the module appears in the store")
    ∷ ("8. Store-д нийтлэх", "8. Publish to the store")
    ∷ (
      "SQL parse/encode бүх логикт unit тест бич.",
      "Write unit tests for all SQL/parse/encode logic.",
    )
    ∷ (
      "нь linux cross-build + vet + test + SDK-ийн хилийн шалгалт (модуль internal/* импортолбол унадаг) — push бүрийн өмнө заавал.",
      "runs a linux cross-build + vet + tests + the SDK boundary check (importing internal/* fails) — required before every push.",
    )
    ∷ ("Платформ", "Platform")
    ∷ ("Модуль бол", "A module is a Go package implementing the")
    ∷ ("interface-ийг хэрэгжүүлсэн Go package.", "interface.")
    ∷ (
      "Tenant тусгаарлалт, нэвтрэлт, суулгалт, RBAC оноолт, audit — платформ хийнэ; та бизнес логикоо л бичнэ. Хамгийн сайн заавар бол ажиллаж байгаа жишээ —",
      "Tenant isolation, auth, installation, RBAC grants, audit — the platform handles them; you write only business logic. The best guide is the working example —",
    )
    ∷ ("Хэн юу хариуцдаг вэ", "Who is responsible for what")
    ∷ ("МОДУЛЬ", "MODULE")
    ∷ ("ПЛАТФОРМ", "PLATFORM")
    ∷ ("Permission-оо тунхаглана", "Declares its permissions")
    ∷ ("Tenant тусгаарлалт (RLS)", "Tenant isolation (RLS)")
    ∷ ("Цэсээ зарлана", "Declares its menu")
    ∷ ("Нэвтрэлт, session", "Auth, sessions")
    ∷ ("Route-уудаа бүртгэнэ", "Registers its routes")
    ∷ ("Суулгалт, хамаарлын шийдэл", "Installation, dependency resolution")
    ∷ ("Өөрийн хүснэгт, миграц", "Its own tables and migrations")
    ∷ ("RBAC default оноолт, шалгалт", "RBAC default grants, enforcement")
    ∷ ("Бизнес логик", "Business logic")
    ∷ ("Audit гинж, app store", "Audit chain, app store")
    ∷ ("Файлын бүтэц", "File layout")
    ∷ (
      "Жижиг модуль нэг файлаас эхэлж болно; өсөхөөрөө ингэж хуваана:",
      "A small module can start as one file; as it grows, split it like this:",
    )
    ∷ ("Алхамууд", "Steps")
    ∷ ("1. Package үүсгэх", "1. Create the package")
    ∷ ("2. Permission тунхаглах", "2. Declare permissions")
    ∷ ("Дүрмүүд (зөрчвөл бинари асахгүй):", "Rules (the binary refuses to boot on violation):")
    ∷ ("3. Миграц", "3. Migrations")
    ∷ ("4. Route-ууд", "4. Routes")
    ∷ ("5. Цэс", "5. Menu")
    ∷ ("6. Бүртгэх ба асаах", "6. Register and run")
    ∷ ("7. Store-д нийтлэх", "7. Publish to the store")
    ∷ ("Тест", "Testing")
    ∷ ("Бэлэн үү?", "Ready?")
    ∷ (
      "devices-ийг хуулж эхлээд, дуусаад каталогт PR илгээгээрэй.",
      "Start by copying devices; when done, send a PR to the catalog.",
    )
    ∷ ("Markdown хувилбар", "Markdown version")
    ∷ ("Апп дэлгүүр үзэх", "Browse the app store")
    ∷ []
