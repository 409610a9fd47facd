-- ===== src/Shell/Navigation.antt =====
-- What the workspace's menu shows, and which module and item count as active
-- (frontend/components/shell.tsx).
use nexus_mini.Prelude.{
  String, ◌≡◌, refl, ◌≢◌, inl, inr, Bool, true, List, [], ◌∷◌, Option, none, some, arith, any, find,
  In, In-append, In-append_left, In-append_right, ap, In-filter, filter-In, Bool-cases, ◌↔◌, sym,
  ◌∙◌,
}
use nexus_mini.Text.{Text}
use nexus_mini.Shell.{Scope}
use nexus_mini.Shell.Menu.{
  NavItem, NavSection, Module, is_on, needs, needed, meets, admin_items, allowed_items, items_of,
  has_active, or_module, active_module, active_item,
}

-- The administration menu shows an item exactly if it is one of the five and the visitor has the
-- permission that its page needs; the settings need none.
pub In-allowed_items_iff :
    (t : String → String) (perms : List (String × Scope)) (i : NavItem)
    → In i (allowed_items t perms)
      ↔ (In i (admin_items t) × (meets (needed needs i.path) perms ≡ true))
unfolding allowed_items
In-allowed_items_iff t perms i = (
  In-filter (λ j. meets (needed needs j.path) perms) i (admin_items t),
  λ h. filter-In (λ j. meets (needed needs j.path) perms) i (admin_items t) h.0 h.1,
)

module _ {A : Type 0} (p : A → Bool) where
  find_sound : (xs : List A) (x : A) → find p xs ≡ some x → In x xs × (p x ≡ true)
  find_sound [] x h = absurd (cc)
  find_sound (y ∷ xs) x h = elim (Bool-cases (p y)) [
    | inl e ↦
        let same : some y ≡ some x = rw e at h in let eq : y ≡ x = cc in (inl eq, ap p (sym eq) ∙ e)
    | inr e ↦ let (i, q) = find_sound xs x (rw e at h) in (inr i, q)
  ]

  find_complete : (xs : List A) (x : A) → In x xs → p x ≡ true → find p xs ≢ none
  find_complete [] x i e h = absurd i
  find_complete (y ∷ xs) x (inl same) e h =
      let here : p y ≡ true = ap p same ∙ e in let gone : some y ≡ none = rw here at h in cc
  find_complete (y ∷ xs) x (inr i) e h = elim (Bool-cases (p y)) [
    | inl here ↦ let gone : some y ≡ none = rw here at h in cc
    | inr there ↦ find_complete xs x i e (rw there at h)
  ]

  any_sound : (xs : List A) → any p xs ≡ true → (x : A) × In x xs × (p x ≡ true)
  any_sound [] h = absurd (cc)
  any_sound (y ∷ xs) h = elim (Bool-cases (p y)) [
    | inl e ↦ (y, inl refl, e)
    | inr e ↦ let (x, i, q) = any_sound xs (rw e at h) in (x, inr i, q)
  ]

  any_complete : (xs : List A) (x : A) → In x xs → p x ≡ true → any p xs ≡ true
  any_complete [] x i e = absurd i
  any_complete (y ∷ xs) x (inl same) e = let here : p y ≡ true = ap p same ∙ e in rw here refl
  any_complete (y ∷ xs) x (inr i) e = ground (arith, any_complete xs x i e)

In-items_of :
    (sections : List NavSection) (i : NavItem)
    → In i (items_of sections) ↔ ((s : NavSection) × In s sections × In i s.items)
unfolding items_of
In-items_of [] i = (λ h. absurd h, λ h. h.1)
In-items_of (s ∷ rest) i = (
  λ h. elim (In-append i s.items (items_of rest) h) [
    | inl l ↦ (s, inl refl, l)
    | inr r ↦ let (u, k, j) = (In-items_of rest i).0 r in (u, inr k, j)
  ],
  λ (u, k, j). elim k [
    | inl same ↦ In-append_left i s.items (items_of rest) (rw same j)
    | inr later ↦ In-append_right i s.items (items_of rest) ((In-items_of rest i).1 (u, later, j))
  ],
)

-- The page that the path names stands in a module's menu.
pub record IsInMenu (pathname : Text) (m : Module) : Type 0 where
  pub item : NavItem
  pub listed : In item (items_of m.sections)
  pub on : is_on pathname item.path ≡ true

has_active_iff :
    (pathname : Text) (m : Module) → (has_active pathname m ≡ true) ↔ IsInMenu pathname m
unfolding has_active
has_active_iff pathname m = (
  λ h.
      let (s, i, e) = any_sound (λ s. any (λ j. is_on pathname j.path) s.items) m.sections h in
      let (j, k, on) = any_sound (λ j. is_on pathname j.path) s.items e in
      record { item = j; listed = (In-items_of m.sections j).1 (s, i, k); on = on },
  λ r.
      let (s, i, k) = (In-items_of m.sections r.item).0 r.listed in
      any_complete (λ s. any (λ j. is_on pathname j.path) s.items) m.sections s i
        (any_complete (λ j. is_on pathname j.path) s.items r.item k r.on),
)

active_item_ne :
    (pathname : Text) (m : Module) → IsInMenu pathname m → active_item pathname m ≢ none
unfolding active_item
active_item_ne pathname m r =
    find_complete (λ i. is_on pathname i.path) (items_of m.sections) r.item r.listed r.on

found_module :
    (pathname : Text) (first : Module) (rest : List Module) (m : Module)
    → In m (first ∷ rest)
    → IsInMenu pathname m
    → (o : Option Module) → find (has_active pathname) (first ∷ rest) ≡ o
    → let active = or_module o first in
      In active (first ∷ rest) × IsInMenu pathname active × (active_item pathname active ≢ none)
found_module pathname first rest m i r none e =
    absurd
      (find_complete (has_active pathname) (first ∷ rest) m i ((has_active_iff pathname m).1 r) e)
found_module pathname first rest m i r (some a) e =
    let (j, on) = find_sound (has_active pathname) (first ∷ rest) a e in
    let there = (has_active_iff pathname a).0 on in (j, there, active_item_ne pathname a there)

-- If the page stands in any module's menu, then the active module is one of the modules, the page
-- stands in its menu too, and an active item is found there.
pub active_module_found :
    (pathname : Text) (first : Module) (rest : List Module) (m : Module)
    → In m (first ∷ rest)
    → IsInMenu pathname m
    → let active = active_module pathname first rest in
      In active (first ∷ rest) × IsInMenu pathname active × (active_item pathname active ≢ none)
unfolding active_module
active_module_found pathname first rest m i r =
    found_module pathname first rest m i r (find (has_active pathname) (first ∷ rest)) refl
