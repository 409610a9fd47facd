-- ===== src/Slug.antt =====
-- frontend/lib/slug.ts
pub mod Shape
pub mod Accepted
pub mod Fixed
use nexus_mini.Prelude.{
  ℕ, String, Bool, true, false, ◌&&◌, ◌||◌, List, [], ◌∷◌, ◌++◌, leb, nat_eq, take, if◌then◌else◌,
}
use nexus_mini.Text.{Text, codes}

-- `translit`: the letter and what stands for it.
abbrev pub translit : List (Text × Text)
translit =
    (codes "а", codes "a")
    ∷ (codes "б", codes "b")
    ∷ (codes "в", codes "v")
    ∷ (codes "г", codes "g")
    ∷ (codes "д", codes "d")
    ∷ (codes "е", codes "ye")
    ∷ (codes "ё", codes "yo")
    ∷ (codes "ж", codes "j")
    ∷ (codes "з", codes "z")
    ∷ (codes "и", codes "i")
    ∷ (codes "й", codes "i")
    ∷ (codes "к", codes "k")
    ∷ (codes "л", codes "l")
    ∷ (codes "м", codes "m")
    ∷ (codes "н", codes "n")
    ∷ (codes "о", codes "o")
    ∷ (codes "ө", codes "u")
    ∷ (codes "п", codes "p")
    ∷ (codes "р", codes "r")
    ∷ (codes "с", codes "s")
    ∷ (codes "т", codes "t")
    ∷ (codes "у", codes "u")
    ∷ (codes "ү", codes "u")
    ∷ (codes "ф", codes "f")
    ∷ (codes "х", codes "kh")
    ∷ (codes "ц", codes "ts")
    ∷ (codes "ч", codes "ch")
    ∷ (codes "ш", codes "sh")
    ∷ (codes "щ", codes "sh")
    ∷ (codes "ъ", [])
    ∷ (codes "ы", codes "y")
    ∷ (codes "ь", [])
    ∷ (codes "э", codes "e")
    ∷ (codes "ю", codes "yu")
    ∷ (codes "я", codes "ya")
    ∷ []

is_letter : Text → ℕ → Bool
is_letter (a ∷ []) c = nat_eq a c
is_letter _ c = false

-- `translit[ch] ?? ch`, for one unit.
pub transliterate : List (Text × Text) → ℕ → Text
unfolding is_letter
transliterate [] ch = ch ∷ []
transliterate ((k, v) ∷ rest) ch =
    let other = transliterate rest ch in if is_letter k ch then v else other

-- `split("").map(…).join("")`
pub latinize : Text → Text
latinize [] = []
latinize (ch ∷ s) = transliterate translit ch ++ latinize s

abbrev pub dash : ℕ
dash = b'-'

-- The class `[a-z0-9]`.
pub is_word : ℕ → Bool
is_word c = (leb b'a' c && leb c b'z') || (leb b'0' c && leb c b'9')

-- `replace(/[^a-z0-9]+/g, "-")`; `inside` says that the unit before was in the run.
pub dash_runs : Bool → Text → Text
dash_runs inside [] = []
dash_runs inside (c ∷ s) =
    let word = c ∷ dash_runs false s in
    let gap = dash_runs true s in if is_word c then word else if inside then gap else dash ∷ gap

-- `replace(/^-+|-+$/g, "")`: the dashes at the start, then those at the end.
pub trim_start : Text → Text
trim_start [] = []
trim_start (c ∷ s) = let rest = trim_start s in if nat_eq c dash then rest else c ∷ s

pub keep_unless_dash : ℕ → Text → Text
keep_unless_dash c [] = if nat_eq c dash then [] else c ∷ []
keep_unless_dash c (d ∷ s) = c ∷ d ∷ s

pub trim_end : Text → Text
unfolding keep_unless_dash
trim_end [] = []
trim_end (c ∷ s) = keep_unless_dash c (trim_end s)

-- `slugify`; `lower` is `String.prototype.toLowerCase`.
unfoldable pub slugify : (Text → Text) → Text → Text
unfolding transliterate latinize is_word dash_runs trim_start trim_end
slugify lower s = take 40 (trim_end (trim_start (dash_runs false (latinize (lower s)))))
