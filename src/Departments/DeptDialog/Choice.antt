-- ===== src/Departments/DeptDialog/Choice.antt =====
-- What the dialog of a department lets one choose, and what it sends
-- (backend/apps/organisation/ui/pages/departments/page.tsx).
use nexus_mini.Prelude.{
  ℕ, ◌≤◌, String, ◌≡◌, refl, ◌≢◌, ◌↔◌, ◌⊎◌, inl, inr, true, false, not, List, [], ◌∷◌, map, Option,
  none, some, ◌==◌, eq_iff, Bool-cases, In, In-filter, filter-In, filter,
}
use nexus_mini.Form.Blank.{IsGiven, or_null-or_blank}
use nexus_mini.Departments.{Dept, Entry, flatten}
use nexus_mini.Departments.Tree.{Lies, In-flatten_iff}
use nexus_mini.Departments.Register.{form_of}
use nexus_mini.Departments.DeptDialog.{body_of, none_value, is_other, entry, parents, chosen, shown}

-- Opening the form of a department and sending it unchanged sends what the department has, unless
-- its parent or its manager is the empty text.
pub body_of-form_of :
    (d : Dept)
    → IsGiven d.parent_id
    → IsGiven d.manager_membership_id
    → body_of (form_of d) ≡ record {
      code = d.code;
      name = d.name;
      parent_id = d.parent_id;
      manager_membership_id = d.manager_membership_id;
      active = d.active;
    }
unfolding body_of form_of
body_of-form_of d p m =
    rw (or_null-or_blank d.parent_id p, or_null-or_blank d.manager_membership_id m) refl

-- The department is not the one that the form is about.
abbrev pub IsOther : Option String → Dept → Type 0
IsOther none d = Unit
IsOther (some id) d = d.id ≢ id

is_other_iff : (id : Option String) (x : Entry) → (is_other id x ≡ true) ↔ IsOther id x.dept
is_other_iff none x = (λ h. tt, λ h. refl)
is_other_iff (some id) x = elim (Bool-cases (x.dept.id == id)) [
  | inl e ↦ (
    λ h. absurd (let f : not true ≡ true = rw e at h in cc),
    λ n. absurd (n ((eq_iff x.dept.id id).0 e)),
  )
  | inr e ↦ (λ h k. absurd (let same = (eq_iff x.dept.id id).1 k in cc), λ n. rw e refl)
]

In-map_iff :
    {A B : Type 0} (f : A → B) (b : B) (xs : List A)
    → In b (map f xs) ↔ ((a : A) × In a xs × (f a ≡ b))
In-map_iff f b [] = (λ h. absurd h, λ (a, i, e). absurd i)
In-map_iff f b (x ∷ xs) = (
  λ h. elim h [
    | inl e ↦ (x, inl refl, e)
    | inr i ↦ let (a, j, e) = (In-map_iff f b xs).0 i in (a, inr j, e)
  ],
  λ (a, i, e). elim i [ inl s ↦ inl (rw s e) | inr j ↦ inr ((In-map_iff f b xs).1 (a, j, e)) ],
)

-- The select for the parent has the entry for no parent and then one for each department that lies
-- in the tree at a depth of at most 32, but for the department that is edited: its own descendants
-- are among them, so that the choice of a circle is left to the server to refuse.
pub In-parents_iff :
    (t : String → String) (id : Option String) (ds : List Dept) (o : String × String)
    → In o (parents t id (flatten ds)) ↔ (
        ((none_value, t "— байхгүй (дээд түвшин) —") ≡ o)
        ⊎ ((d : Dept) × (n : ℕ) × Lies ds d n × (n ≤ 32) × IsOther id d × ((d.id, d.name) ≡ o)))
unfolding parents
In-parents_iff t id ds o =
    let mapped = In-map_iff (entry t) o (filter (is_other id) (flatten ds)) in
    (
      λ h. elim h [
        | inl e ↦ inl e
        | inr i ↦
            let (x, j, e) = mapped.0 i in
            let (k, b) = In-filter (is_other id) x (flatten ds) j in
            let (l, n) = (In-flatten_iff ds x).0 k in
            inr (x.dept, x.depth, l, n, (is_other_iff id x).0 b, e)
      ],
      λ h. elim h [
        | inl e ↦ inl e
        | inr (d, n, l, b, other, e) ↦
            let x : Entry = record { dept = d; depth = n } in
            inr (
              mapped.1 (
                x,
                filter-In (is_other id) x (flatten ds) ((In-flatten_iff ds x).1 (l, b))
                    ((is_other_iff id x).1 other),
                e,
              ))
      ],
    )

-- Choosing what the select shows changes nothing, unless an id is the very marker.
pub chosen-shown : (v : String) → (v == none_value) ≡ false → chosen (shown v) ≡ v
unfolding chosen shown
chosen-shown v n = elim (Bool-cases (v == "")) [
  | inl e ↦ let same = (eq_iff v "").0 e in rw same refl
  | inr e ↦ rw (e, n) refl
]
