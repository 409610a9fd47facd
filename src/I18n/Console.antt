-- ===== src/I18n/Console.antt =====
-- admin/lib/i18n.tsx, the dictionary of the admin console.
use nexus_mini.Prelude.{[], ◌∷◌}
use nexus_mini.I18n.Entries.{Dict}

-- The dictionary of the admin console.
abbrev pub en_console : Dict
en_console =
    ("Апп алга", "No apps")
    ∷ ("Байгууллага алга", "No organizations")
    ∷ ("Бараан", "Dark")
    ∷ ("Бичлэг алга", "No entries")
    ∷ ("Дахин оролдох", "Try again")
    ∷ ("Зөвхөн унших", "Read-only")
    ∷ ("Имэйлийг энэ панелаас солих боломжгүй", "Email cannot be changed from this console")
    ∷ ("Каталогт хараахан апп нэмэгдээгүй байна.", "No apps have been added to the catalog yet.")
    ∷ (
      "Платформ дээр хараахан байгууллага үүсээгүй байна.",
      "No organizations have been created on the platform yet.",
    )
    ∷ (
      "Платформ дээр хараахан хэрэглэгч бүртгүүлээгүй байна.",
      "Nobody has signed up on the platform yet.",
    )
    ∷ ("Системийн", "System")
    ∷ ("Түдгэлзүүлэх", "Suspend")
    ∷ ("Хараахан бүртгэгдсэн үйлдэл байхгүй байна.", "No actions have been recorded yet.")
    ∷ ("Хэл", "Language")
    ∷ ("Хэрэглэгч алга", "No users")
    ∷ ("Цайвар", "Light")
    ∷ ("Цэс", "Menu")
    ∷ ("Цэс нээх", "Open menu")
    ∷ ("Эрх", "Role")
    ∷ ("Өнгө", "Theme")
    ∷ (
      "8+ тэмдэгт: латин үсэг, тоо, тусгай тэмдэгт (кирилл хориотой)",
      "8+ characters: Latin letters, digits and a special character (Cyrillic not allowed)",
    )
    ∷ ("Түр нууц үг", "Temporary password")
    ∷ ("Шинэ нууц үг", "New password")
    ∷ ("Платформын админ", "Platform admin")
    ∷ ("nexus-mini удирдлагын систем", "nexus-mini management console")
    ∷ (
      "Энэ систем зөвхөн платформын админд зориулагдсан",
      "This console is for platform admins only",
    )
    ∷ ("Имэйл", "Email")
    ∷ ("Нууц үг", "Password")
    ∷ ("Нэвтрэх", "Sign in")
    ∷ ("Гарах", "Log out")
    ∷ ("Навигац", "Navigation")
    ∷ ("Тойм", "Overview")
    ∷ ("Байгууллагууд", "Organizations")
    ∷ (
      "30 хоногийн дараа бүрмөсөн устгахаар товлох уу? Гишүүд тэр дороо хандах боломжгүй болно; хүртэл нь буцааж болно.",
      "schedule permanent deletion in 30 days? Members lose access immediately; it can be cancelled until then.",
    )
    ∷ ("устгалыг цуцлах уу?", "cancel the deletion?")
    ∷ ("Устгалд товлогдлоо (30 хоног)", "Scheduled for deletion (30 days)")
    ∷ ("Устгал цуцлагдлаа", "Deletion cancelled")
    ∷ ("устгал", "deletion")
    ∷ ("Устгал (30 хоногийн хүлээлт)", "Deletion (30-day grace)")
    ∷ ("Устгалыг цуцлах", "Cancel deletion")
    ∷ ("Устгалд товлох", "Schedule deletion")
    ∷ ("Төлөв хадгалагдлаа", "State saved")
    ∷ ("түдгэлзүүлсэн", "suspended")
    ∷ ("зөвхөн унших", "read-only")
    ∷ ("Төлөв", "State")
    ∷ (
      "Түдгэлзүүлэх — гишүүд өгөгдөлдөө хандаж чадахгүй",
      "Suspend — members cannot access their data",
    )
    ∷ ("Шалтгаан (гишүүдэд харагдана)", "Reason (shown to members)")
    ∷ (
      "Зөвхөн унших — бичих хүсэлт 503 (засвар, төлбөр)",
      "Read-only — write requests get 503 (maintenance, billing)",
    )
    ∷ ("Болих", "Cancel")
    ∷ (
      "нэрийн өмнөөс нэвтрэх үү? Үйлдэл бүр audit-д таны нэрээр тэмдэглэгдэнэ.",
      "sign in on their behalf? Every action is audited under your name.",
    )
    ∷ (
      "Handover холбоос нээгдлээ (60 секунд хүчинтэй)",
      "Handover link opened (valid for 60 seconds)",
    )
    ∷ ("Уншиж байна…", "Loading…")
    ∷ ("Гишүүн байхгүй", "No members")
    ∷ (
      "Энэ хэрэглэгчийн нэрийн өмнөөс portal-д нэвтрэх",
      "Sign in to the portal on behalf of this user",
    )
    ∷ ("Нэрийн өмнөөс нэвтрэх", "Sign in as")
    ∷ ("Хаах", "Close")
    ∷ ("Хэрэглэгчид", "Users")
    ∷ ("Каталог", "Catalog")
    ∷ ("Профайл", "Profile")
    ∷ ("Платформын ерөнхий үзүүлэлтүүд", "Platform-wide metrics")
    ∷ ("Байгууллага", "Organization")
    ∷ ("Хэрэглэгч", "Users")
    ∷ ("Бэлэн апп", "Available apps")
    ∷ ("Суулгалт", "Installs")
    ∷ ("Платформ дээрх бүх байгууллага", "All organizations on the platform")
    ∷ ("Нэр", "Name")
    ∷ ("Гишүүд", "Members")
    ∷ ("Аппууд", "Apps")
    ∷ ("Үүссэн", "Created")
    ∷ ("Платформ дээрх бүх бүртгэлтэй хэрэглэгч", "All registered users on the platform")
    ∷ ("Бүртгүүлсэн", "Registered")
    ∷ ("платформ админ", "platform admin")
    ∷ ("App store-ийн бүх апп, суулгалтын тоо", "Every app in the store with install counts")
    ∷ ("Апп", "App")
    ∷ ("Хувилбар", "Version")
    ∷ ("Бинарид", "In binary")
    ∷ ("Тийм", "Yes")
    ∷ ("Үгүй", "No")
    ∷ ("Бүх байгууллагын сүүлийн үйлдлүүд", "Recent actions across all organizations")
    ∷ ("Үйлдэл", "Action")
    ∷ ("Объект", "Object")
    ∷ ("Хэн", "Who")
    ∷ ("Хэзээ", "When")
    ∷ ("систем", "system")
    ∷ ("Ерөнхий мэдээлэл", "General")
    ∷ ("Хадгалах", "Save")
    ∷ ("Хадгалагдлаа", "Saved")
    ∷ ("Нууц үг солих", "Change password")
    ∷ ("Одоогийн нууц үг", "Current password")
    ∷ ("Шинэ нууц үг (8+)", "New password (8+)")
    ∷ ("Шинэ нууц үг (давталт)", "New password (repeat)")
    ∷ ("Солих", "Change")
    ∷ (
      "Нууц үг солигдлоо — бусад төхөөрөмжийн нэвтрэлт хаагдсан",
      "Password changed — sessions on other devices were closed",
    )
    ∷ ("Шинэ нууц үг давталттайгаа таарахгүй байна", "New password doesn't match its repeat")
    ∷ ("Алдаа гарлаа", "Something went wrong")
    ∷ ("Нэр хоосон байж болохгүй", "Name can't be empty")
    ∷ ("имэйл эсвэл нууц үг буруу", "Wrong email or password")
    ∷ ("нэр хоосон байж болохгүй", "Name can't be empty")
    ∷ ("шинэ нууц үг 8+ тэмдэгт байх ёстой", "New password must be 8+ characters")
    ∷ ("одоогийн нууц үг буруу", "Current password is wrong")
    ∷ ("солиход алдаа гарлаа", "Failed to change password")
    ∷ ("хадгалж чадсангүй", "Could not save")
    ∷ []
