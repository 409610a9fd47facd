-- ===== src/I18n/Entries.antt =====
-- An object literal of texts, as JavaScript reads it: the last entry of a key counts, and a spread
-- puts one object's entries before another's (frontend/lib/i18n.tsx, admin/lib/i18n.tsx).
use nexus_mini.Prelude.{
  String, ◌≡◌, refl, inl, inr, Bool, true, false, not, ◌&&◌, List, [], ◌∷◌, ◌++◌, Option, none,
  some, arith, ◌==◌, eq_refl, any, In, if◌then◌else◌,
}

abbrev pub Dict : Type 0
Dict = List (String × String)

abbrev pub or_else : Option String → Option String → Option String
or_else (some v) other = some v
or_else none other = other

-- `dict[key]`
unfoldable pub get : String → Dict → Option String
get key [] = none
get key ((k, v) ∷ rest) = or_else (get key rest) (if k == key then some v else none)

or_else-none : (o : Option String) → or_else o none ≡ o
or_else-none none = refl
or_else-none (some v) = refl

or_else_assoc : (a b c : Option String) → or_else (or_else a b) c ≡ or_else a (or_else b c)
or_else_assoc none b c = refl
or_else_assoc (some v) b c = refl

-- `{ ...a, ...b }` reads `b` first.
pub get-append : (key : String) (a b : Dict) → get key (a ++ b) ≡ or_else (get key b) (get key a)
unfolding get
get-append key [] b = rw or_else-none refl
get-append key ((k, v) ∷ a) b =
    rw (get-append key a b)
      (or_else_assoc (get key b) (get key a) (if k == key then some v else none))

-- No key stands twice.
unfoldable pub are_distinct : Dict → Bool
are_distinct [] = true
are_distinct ((k, v) ∷ rest) = not (any (λ e. e.0 == k) rest) && are_distinct rest

get_absent : (key : String) (d : Dict) → any (λ e. e.0 == key) d ≡ false → get key d ≡ none
unfolding get
get_absent key [] h = refl
get_absent key ((k, v) ∷ rest) h = ground (arith, get_absent key rest)

-- In a dictionary in which no key stands twice, every entry is found.
pub get_of_In : (d : Dict) (k v : String) → are_distinct d ≡ true → In (k, v) d → get k d ≡ some v
unfolding get are_distinct
get_of_In [] k v h i = absurd i
get_of_In ((j, w) ∷ rest) k v h (inl e) =
    let same_key : j ≡ k = cc in
    let same_value : w ≡ v = cc in
    let absent : any (λ x. x.0 == k) rest ≡ false = rw (← same_key) (ground arith) in
    rw (get_absent k rest absent) (rw (same_key, same_value) (ground (arith, eq_refl k)))
get_of_In ((j, w) ∷ rest) k v h (inr i) = rw (get_of_In rest k v (ground arith) i) refl
