-- ===== src/Console/Navigation.antt =====
-- The menu of the console (admin/components/shell.tsx).
use mathlib.Core.Path.{subst}
use nexus_mini.Prelude.{
  ◌≡◌, refl, sym, ap, ◌∙◌, inl, inr, Bool, true, false, not, ◌&&◌, ◌||◌, List, [], ◌∷◌, In, all,
  arith, Bool-cases,
}
use nexus_mini.Text.{Text, codes, text_eq, starts_with}
use nexus_mini.Text.Prefix.{text_eq_sound}
use nexus_mini.Console.{NavItem, nav, is_on}

-- Two beginnings of a text: one of them begins the other.
starts_with_both :
    (s p q : Text)
    → starts_with s p ≡ true
    → starts_with s q ≡ true
    → (starts_with p q || starts_with q p) ≡ true
starts_with_both s [] q h k = ground arith
starts_with_both s (a ∷ p) [] h k = refl
starts_with_both [] (a ∷ p) (b ∷ q) h k = absurd (let e = h in cc)
starts_with_both (c ∷ s) (a ∷ p) (b ∷ q) h k = ground (arith, starts_with_both s p q)

-- No path of the menu but the first begins another one.
abbrev apart : NavItem → NavItem → Bool
apart m n =
    text_eq m.path n.path
    || (not (text_eq m.path (codes "/"))
        && not (text_eq n.path (codes "/"))
        && not (starts_with m.path n.path || starts_with n.path m.path))
    || (text_eq m.path (codes "/") && not (starts_with (codes "/") n.path))
    || (text_eq n.path (codes "/") && not (starts_with (codes "/") m.path))

nav_table : all (λ m. all (apart m) nav) nav ≡ true
nav_table = refl

all-In : {A : Type 0} (f : A → Bool) (xs : List A) (x : A) → all f xs ≡ true → In x xs → f x ≡ true
all-In f [] x h i = absurd i
all-In f (y ∷ xs) x h (inl e) = ap f (sym e) ∙ ground arith
all-In f (y ∷ xs) x h (inr i) = all-In f xs x (ground arith) i

-- The rows of the table, with its tests as parameters.
module _ (e r s both m n : Bool)
    (row : (e || (not r && not s && not both) || (r && not n) || (s && not m)) ≡ true) where
  neither : r ≡ false → s ≡ false → both ≡ true → e ≡ true
  neither h k l = ground arith

  only_first : r ≡ true → s ≡ false → n ≡ true → e ≡ true
  only_first h k l = ground arith

  only_second : r ≡ false → s ≡ true → m ≡ true → e ≡ true
  only_second h k l = ground arith

on_root :
    (pathname p : Text)
    → text_eq p (codes "/") ≡ true
    → is_on pathname p ≡ true
    → pathname ≡ codes "/"
unfolding is_on
on_root pathname p r h = text_eq_sound pathname (codes "/") (let k = h in rw r at k)

on_other :
    (pathname p : Text)
    → text_eq p (codes "/") ≡ false
    → is_on pathname p ≡ true
    → starts_with pathname p ≡ true
unfolding is_on
on_other pathname p r h = let k = h in rw r at k

-- At most one entry of the menu is marked as the current page: any two that are have the same path.
pub is_on_once :
    (pathname : Text) (m n : NavItem)
    → In m nav
    → In n nav
    → is_on pathname m.path ≡ true
    → is_on pathname n.path ≡ true
    → m.path ≡ n.path
is_on_once pathname m n i j h k =
    let row = all-In (apart m) nav n (all-In (λ x. all (apart x) nav) nav m nav_table i) j in
    let root = codes "/" in
    elim (Bool-cases (text_eq m.path root)) [
      | inl r ↦ elim (Bool-cases (text_eq n.path root)) [
        | inl s ↦ text_eq_sound m.path root r ∙ sym (text_eq_sound n.path root s)
        | inr s ↦
            let here = on_root pathname m.path r h in
            let there : starts_with root n.path ≡ true =
              subst (λ x. starts_with x n.path ≡ true) here (on_other pathname n.path s k) in
            text_eq_sound m.path n.path (only_first _ _ _ _ _ _ row r s there)
      ]
      | inr r ↦ elim (Bool-cases (text_eq n.path root)) [
        | inl s ↦
            let here = on_root pathname n.path s k in
            let there : starts_with root m.path ≡ true =
              subst (λ x. starts_with x m.path ≡ true) here (on_other pathname m.path r h) in
            text_eq_sound m.path n.path (only_second _ _ _ _ _ _ row r s there)
        | inr s ↦ text_eq_sound m.path n.path (
            neither _ _ _ _ _ _ row r s (
              starts_with_both pathname m.path n.path (on_other pathname m.path r h)
                (on_other pathname n.path s k)))
      ]
    ]
