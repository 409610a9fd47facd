-- ===== src/Departments.antt =====
-- backend/apps/organisation/ui/pages/departments/page.tsx: the tree of departments.
pub mod Tree
pub mod Register
pub mod DeptDialog
use nexus_mini.Prelude.{
  ℕ, zero, suc, ◌+◌, String, ◌≡◌, refl, ◌↔◌, Bool, true, false, not, ◌&&◌, List, [], ◌∷◌, ◌++◌, map,
  Option, none, some, any, ltb, ◌==◌, eq_iff, if◌then◌else◌, arith, filter,
}
use nexus_mini.GroupBy.{Key, get, fill}

pub record Dept : Type 0 where
  pub id : String
  pub code : String
  pub name : String
  pub parent_id : Option String
  pub manager_membership_id : Option String
  pub manager_name : String
  pub active : Bool
  pub people : ℕ

pub record Entry : Type 0 where
  pub dept : Dept
  pub depth : ℕ

-- `string | null` as a key of a `Map`.
abbrev pub same_key : Option String → Option String → Bool
same_key none none = true
same_key none (some b) = false
same_key (some a) none = false
same_key (some a) (some b) = a == b

pub same_key_iff : (a b : Option String) → (same_key a b ≡ true) ↔ (a ≡ b)
same_key_iff none none = (λ h. refl, λ h. refl)
same_key_iff none (some b) = (λ h. cc, λ h. cc)
same_key_iff (some a) none = (λ h. cc, λ h. cc)
same_key_iff (some a) (some b) = (λ h. ground (arith, eq_iff a b), λ h. ground (arith, eq_iff a b))

abbrev pub parent_key : Key (Option String)
parent_key = record { same = same_key; same_iff = same_key_iff }

-- `d.parent_id && list.some(…) ? d.parent_id : null`; an empty id is false.
abbrev pub parent_in : List Dept → Option String → Option String
parent_in list none = none
parent_in list (some p) = if not (p == "") && any (λ x. x.id == p) list then some p else none

pub parent_of : List Dept → Dept → Option String
parent_of list d = parent_in list d.parent_id

abbrev pub flat_map {ℓ κ} : {A : Type ℓ} {B : Type κ} → (A → List B) → List A → List B
flat_map f [] = []
flat_map f (x ∷ xs) = f x ++ flat_map f xs

-- `walk`: the departments under `parent`, each followed by those under it. The fuel counts calls;
-- the test on the depth ends the walk before it does.
pub walk : ℕ → List (Option String × List Dept) → Option String → ℕ → List Entry
walk zero by_parent parent depth = []
walk (suc fuel) by_parent parent depth =
    flat_map
      (λ d.
        record { dept = d; depth = depth }
        ∷ elim (ltb depth 32) [ true ↦ walk fuel by_parent (some d.id) (depth + 1) | false ↦ [] ])
      (get parent_key parent by_parent)

-- `flatten`
unfoldable pub flatten : List Dept → List Entry
unfolding walk parent_of
flatten list = walk 33 (fill parent_key (parent_of list) [] list) none 0
