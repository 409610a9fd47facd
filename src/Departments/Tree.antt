-- ===== src/Departments/Tree.antt =====
-- What `flatten` of the departments page lists.
use nexus_mini.Prelude.{
  ℕ, zero, suc, ◌+◌, ◌-◌, ◌≤◌, String, ◌≡◌, refl, ◌↔◌, inl, inr, Bool, true, false, List, [], ◌∷◌,
  Option, none, some, arith, In, In-append, In-append_left, In-append_right, In-filter, filter-In,
  ltb, Bool-cases, sym,
}
use mathlib.Core.Path.{subst}
use native.Mathlib.Numerals.{add-one}
use nexus_mini.GroupBy.{get, fill, get-fill}
use nexus_mini.Departments.{
  Dept, Entry, same_key, same_key_iff, parent_key, parent_of, flat_map, walk, flatten,
}

-- The place of a department in the tree, read off the list alone: a root has no parent in the list,
-- and a child lies one deeper than its parent.
pub data Lies (list : List Dept) : Dept → ℕ → Type 0 where
  root : {d : Dept} → In d list → parent_of list d ≡ none → Lies list d 0
  child :
      {p d : Dept} {n : ℕ}
      → Lies list p n
      → In d list
      → parent_of list d ≡ some p.id
      → Lies list d (suc n)

module _ {A B : Type 0} (f : A → List B) (b : B) where
  In-flat_map : (xs : List A) → In b (flat_map f xs) → (a : A) × In a xs × In b (f a)
  In-flat_map [] h = absurd h
  In-flat_map (x ∷ xs) h = elim (In-append b (f x) (flat_map f xs) h) [
    | inl l ↦ (x, inl refl, l)
    | inr r ↦ let (a, i, j) = In-flat_map xs r in (a, inr i, j)
  ]

  flat_map-In : (xs : List A) (a : A) → In a xs → In b (f a) → In b (flat_map f xs)
  flat_map-In [] a h k = absurd h
  flat_map-In (x ∷ xs) a (inl e) k = In-append_left b (f x) (flat_map f xs) (rw e k)
  flat_map-In (x ∷ xs) a (inr h) k = In-append_right b (f x) (flat_map f xs) (flat_map-In xs a h k)

abbrev grouped : List Dept → List (Option String × List Dept)
grouped list = fill parent_key (parent_of list) [] list

In-get :
    (list : List Dept) (q : Option String) (x : Dept)
    → In x (get parent_key q (grouped list)) ↔ (In x list × (parent_of list x ≡ q))
In-get list q x =
    let test : Dept → Bool = λ v. same_key (parent_of list v) q in
    rw (get-fill parent_key (parent_of list) q list) (
      λ h. let (i, e) = In-filter test x list h in (i, (same_key_iff (parent_of list x) q).0 e),
      λ h. filter-In test x list h.0 ((same_key_iff (parent_of list x) q).1 h.1),
    )

-- One department of a walk, with all that is listed for it.
abbrev expand : List Dept → ℕ → ℕ → Dept → List Entry
expand list fuel depth d =
    record { dept = d; depth = depth }
    ∷ elim (ltb depth 32) [ true ↦ walk fuel (grouped list) (some d.id) (depth + 1) | false ↦ [] ]

walk_sound :
    (list : List Dept) (fuel : ℕ) (q : Option String) (depth : ℕ) (e : Entry)
    → depth ≤ 32
    → ((x : Dept) → In x list → parent_of list x ≡ q → Lies list x depth)
    → In e (walk fuel (grouped list) q depth)
    → Lies list e.dept e.depth × (e.depth ≤ 32)
unfolding walk
walk_sound list zero q depth e b place h = absurd h
walk_sound list (suc fuel) q depth e b place h =
    let (d, i, j) = In-flat_map (expand list fuel depth) e (get parent_key q (grouped list)) h in
    let (member, parent) = (In-get list q d).0 i in
    let here = place d member parent in
    elim j [
      | inl same ↦ rw (← same) (here, b)
      | inr below ↦ elim (Bool-cases (ltb depth 32)) [
        | inr stop ↦ absurd (rw stop at below)
        | inl go ↦
            walk_sound list fuel (some d.id) (depth + 1) e (ground arith)
              (λ x m q'. rw add-one (child here m q')) (rw go at below)
      ]
    ]

walk-suc :
    (list : List Dept) (fuel : ℕ) (q : Option String) (depth : ℕ)
    → walk (suc fuel) (grouped list) q depth
      ≡ flat_map (expand list fuel depth) (get parent_key q (grouped list))
unfolding walk
walk-suc list fuel q depth = refl

walk_complete :
    (list : List Dept) (total : ℕ) (x : Dept) (n fuel : ℕ) (e : Entry)
    → total ≤ 33
    → Lies list x n
    → suc (fuel + n) ≡ total
    → In e (expand list fuel n x)
    → In e (walk total (grouped list) none 0)
walk_complete list total x _ fuel e t (root m q) b h =
    let all' : total ≡ suc fuel = omega arith in
    rw (all', walk-suc) (flat_map-In (expand list fuel 0) e _ x ((In-get list none x).1 (m, q)) h)
walk_complete list total x _ fuel e t (child {p} {n} above m q) b h =
    let go : ltb n 32 ≡ true = ground arith in
    let deeper : n + 1 ≡ suc n = add-one n in
    walk_complete list total p n (suc fuel) e t above (omega arith) (
      inr (
        rw (go, walk-suc)
          (subst
            (λ k. In e (flat_map (expand list fuel k) (get parent_key (some p.id) (grouped list))))
            (sym deeper)
            (flat_map-In (expand list fuel (suc n)) e _ x ((In-get list (some p.id) x).1 (m, q))
              h))))

-- `flatten` lists a department at a depth exactly if it lies there in the tree of parents and the
-- depth is at most 32. So departments whose parents form a circle are not listed, nor is what lies
-- under them, nor what lies deeper than 32.
pub In-flatten_iff :
    (list : List Dept) (e : Entry)
    → In e (flatten list) ↔ (Lies list e.dept e.depth × (e.depth ≤ 32))
unfolding flatten
In-flatten_iff list e = (
  walk_sound list 33 none 0 e (omega arith) (λ x m q. root m q),
  λ h.
      walk_complete list 33 e.dept e.depth (32 - e.depth) e (omega arith) h.0 (omega arith)
        (inl refl),
)
