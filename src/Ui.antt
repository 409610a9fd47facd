-- ===== src/Ui.antt =====
-- What a page draws, as far as a visitor can tell: texts, alerts, fields and buttons in their order,
-- without layout and styling. The components themselves (@gerege-systems/ui) are not part of the
-- repository; a button that is disabled or busy takes no click.
pub mod Offers
use nexus_mini.Text.{Text}
use nexus_mini.Prelude.{
  ℕ, String, refl, ◌⊎◌, inl, inr, Bool, true, false, List, [], ◌∷◌, ◌++◌, In, if◌then◌else◌,
  In-append, In-append_left, In-append_right,
}

-- What the browser checks of an input before it calls the handler of the form: `type="email"`,
-- `required`, `minLength`, `maxLength` and `pattern`.
pub data Check : Type 0 where
  email_type is_required : Check
  min_length max_length : ℕ → Check
  pattern_of : String → Check

-- `A` is the page's actions: what a click or a change asks for.
pub data Element (A : Type 0) : Type 0 where
  text : String → Element A
  link : String → Text → Element A  -- label, href
  units : Text → Element A  -- a text that its page takes apart
  code : String → Element A
  number : ℕ → Element A
  badge : String → String → Element A  -- tone, label
  alert : String → String → Element A  -- variant, message
  spinner : String → Element A
  empty_state : String → String → Element A  -- title, description
  button : String → Bool → A → Element A  -- label, disabled or busy, onClick
  dismissal : A → Element A  -- `onOpenChange` of a dialog: the Escape key, or a click outside of it
  field : String → String → (String → A) → Element A  -- label, value, onChange
  checked : List Check → Element A → Element A  -- a field with what is checked of it
  readonly_field : String → String → Element A
  area : String → Text → (Text → A) → Element A  -- a text of several lines
  select : String → String → List (String × String) → (String → A) → Element A  -- value and text of each entry
  checkbox : String → Bool → (Bool → A) → Element A

abbrev pub View : Type 0 → Type 0
View A = List (Element A)

module _ {A : Type 0} where
  -- The actions that a click can ask for.
  abbrev pub click_of : Element A → List A
  click_of (button label off a) = if off then [] else a ∷ []
  click_of (dismissal a) = a ∷ []
  click_of _ = []

  unfoldable pub offered : View A → List A
  offered [] = []
  offered (e ∷ es) = click_of e ++ offered es

  -- `{cond && …}`
  abbrev pub when : Bool → View A → View A
  when true v = v
  when false v = []

  pub offered-append :
      (a : A) (v w : View A) → In a (offered (v ++ w)) → In a (offered v) ⊎ In a (offered w)
  unfolding offered
  offered-append a [] w h = inr h
  offered-append a (e ∷ v) w h = elim (In-append a (click_of e) (offered (v ++ w)) h) [
    | inl l ↦ inl (In-append_left a (click_of e) (offered v) l)
    | inr r ↦ elim (offered-append a v w r) [
      | inl l ↦ inl (In-append_right a (click_of e) (offered v) l)
      | inr k ↦ inr k
    ]
  ]

  pub offered-append_left : (a : A) (v w : View A) → In a (offered v) → In a (offered (v ++ w))
  unfolding offered
  offered-append_left a [] w h = absurd h
  offered-append_left a (e ∷ v) w h = elim (In-append a (click_of e) (offered v) h) [
    | inl l ↦ In-append_left a (click_of e) (offered (v ++ w)) l
    | inr r ↦ In-append_right a (click_of e) (offered (v ++ w)) (offered-append_left a v w r)
  ]

  pub offered-append_right : (a : A) (v w : View A) → In a (offered w) → In a (offered (v ++ w))
  unfolding offered
  offered-append_right a [] w h = h
  offered-append_right a (e ∷ v) w h =
      In-append_right a (click_of e) (offered (v ++ w)) (offered-append_right a v w h)

-- `array.map((x) => …)`, the parts of a page one after the other.
abbrev pub each : {A X : Type 0} → (X → View A) → List X → View A
each f [] = []
each f (x ∷ xs) = f x ++ each f xs

module _ {A X : Type 0} (f : X → View A) (a : A) where
  pub offered-each :
      (xs : List X) → In a (offered (each f xs)) → (x : X) × In x xs × In a (offered (f x))
  unfolding offered
  offered-each [] h = absurd h
  offered-each (x ∷ xs) h = elim (offered-append a (f x) (each f xs) h) [
    | inl l ↦ (x, inl refl, l)
    | inr r ↦ let (y, i, k) = offered-each xs r in (y, inr i, k)
  ]

  pub each-offered :
      (xs : List X) (x : X) → In x xs → In a (offered (f x)) → In a (offered (each f xs))
  each-offered [] x i h = absurd i
  each-offered (y ∷ xs) x (inl e) h = offered-append_left a (f y) (each f xs) (rw e h)
  each-offered (y ∷ xs) x (inr i) h =
      offered-append_right a (f y) (each f xs) (each-offered xs x i h)
