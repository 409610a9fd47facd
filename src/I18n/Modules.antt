-- ===== src/I18n/Modules.antt =====
-- frontend/lib/i18n.tsx, lines 401 to 451: the devices module, the messages of the server and small additions.
use nexus_mini.Prelude.{[], ◌∷◌}
use nexus_mini.I18n.Entries.{Dict}

-- The devices module, the messages of the server and small additions.
abbrev pub en_modules : Dict
en_modules =
    (
      "миграц: цөм ok · devices ok · organisation ok",
      "migrations: core ok · devices ok · organisation ok",
    )
    ∷ ("платформын админ үүслээ", "platform admin created")
    ∷ ("модуль", "module")
    ∷ ("нэг бинари", "one binary")
    ∷ ("Тусгаарлалт DB давхаргад", "Isolation at the database layer")
    ∷ (
      "Байгууллага бүрийн өгөгдөл PostgreSQL Row-Level Security-ээр тусгаарлагдана — кодын алдаа ч хана даван харагдуулахгүй.",
      "Each organization's data is isolated with PostgreSQL Row-Level Security — even a code bug can't leak across the wall.",
    )
    ∷ ("Эрх тунхаглалаар, бүртгэл гинжээр", "Permissions by declaration, records by chain")
    ∷ (
      "Permission суулгах үед role-уудад автоматаар оноогдоно; бүх чухал үйлдэл hash chain-тэй audit бүртгэлд үлдэнэ.",
      "Permissions are granted to roles automatically on install; every important action lands in a hash-chained audit log.",
    )
    ∷ ("9 метод = таны модуль", "9 methods = your module")
    ∷ (
      "Go interface хэрэгжүүлээд каталогт PR илгээхэд л таны модуль store-д — нэг бинари, микросервисийн төвөггүй.",
      "Implement the Go interface and send a catalog PR — your module is in the store. One binary, no microservice overhead.",
    )
    ∷ ("имэйл эсвэл нууц үг буруу", "Wrong email or password")
    ∷ (
      "бүх талбарыг зөв бөглөнө үү (нууц үг 8+)",
      "Please fill in all fields correctly (password 8+)",
    )
    ∷ (
      "имэйл эсвэл байгууллагын slug бүртгэлтэй байна",
      "This email or organization slug is already registered",
    )
    ∷ ("бүртгэл амжилтгүй боллоо", "Sign-up failed")
    ∷ ("slug давхардаж байна", "This slug is already taken")
    ∷ ("нэр ба slug шаардлагатай", "Name and slug are required")
    ∷ ("энэ байгууллагын гишүүн биш", "You are not a member of this organization")
    ∷ ("апп олдсонгүй", "App not found")
    ∷ ("суулгалт амжилтгүй боллоо", "Installation failed")
    ∷ ("code давхардаж байна (эсвэл формат буруу)", "Code already exists (or has invalid format)")
    ∷ ("өвлөх role олдсонгүй", "The role to inherit from was not found")
    ∷ (
      "оноолт хадгалагдсангүй (permission код зөв үү?)",
      "Grants were not saved (is the permission code valid?)",
    )
    ∷ ("role олдсонгүй", "Role not found")
    ∷ ("зөв имэйл шаардлагатай", "A valid email is required")
    ∷ (
      "шинэ хэрэглэгчид нэр ба 8+ тэмдэгт түр нууц үг өгнө",
      "New users need a name and a temporary password (8+)",
    )
    ∷ ("хэрэглэгч үүсгэж чадсангүй", "Could not create the user")
    ∷ ("үл мэдэх role код байна", "Unknown role code")
    ∷ (
      "байгууллагад дор хаяж нэг админ үлдэх ёстой",
      "The organization must keep at least one admin",
    )
    ∷ ("гишүүн олдсонгүй", "Member not found")
    ∷ ("гишүүн олдсонгүй (өөрийгөө хасаж болохгүй)", "Member not found (you can't remove yourself)")
    ∷ ("нэр хоосон байж болохгүй", "Name can't be empty")
    ∷ ("шинэ нууц үг 8+ тэмдэгт байх ёстой", "New password must be 8+ characters")
    ∷ ("одоогийн нууц үг буруу", "Current password is wrong")
    ∷ ("солиход алдаа гарлаа", "Failed to change password")
    ∷ ("нэр, сериал шаардлагатай; статус буруу", "Name and serial are required; invalid status")
    ∷ ("сериал давхардаж байна", "This serial already exists")
    ∷ ("олдсонгүй эсвэл таны бүртгэл биш", "Not found, or not your record")
    ∷ ("хадгалж чадсангүй", "Could not save")
    ∷ ("Цайвар", "Light")
    ∷ ("Бараан", "Dark")
    ∷ ("Систем", "System")
    ∷ ("Агуулахын ажилтан", "Warehouse staff")
    ∷ []
