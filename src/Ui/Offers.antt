-- ===== src/Ui/Offers.antt =====
-- What the parts of a page offer, each exactly.
use nexus_mini.Prelude.{
  ◌≡◌, refl, ◌↔◌, ◌⊎◌, inl, inr, Bool, true, false, String, List, [], ◌∷◌, ◌++◌, In,
}
use nexus_mini.Ui.{
  View, button, offered, offered-append, offered-append_left, offered-append_right, offered-each,
  each-offered, when, each,
}

module _ {A : Type 0} (a : A) where
  abbrev pub Offers : View A → Type 0
  Offers v = In a (offered v)

  pub Offers-append : (v w : View A) → Offers (v ++ w) ↔ (Offers v ⊎ Offers w)
  Offers-append v w = (
    offered-append a v w,
    λ h. elim h [ inl l ↦ offered-append_left a v w l | inr r ↦ offered-append_right a v w r ],
  )

  pub Offers-when : (b : Bool) (v : View A) → Offers (when b v) ↔ ((b ≡ true) × Offers v)
  unfolding offered
  Offers-when true v = (λ h. (refl, h), λ h. h.1)
  Offers-when false v = (λ h. absurd h, λ h. absurd (let e = h.0 in cc))

  pub Offers-each :
      {X : Type 0} (f : X → View A) (xs : List X)
      → Offers (each f xs) ↔ ((x : X) × In x xs × Offers (f x))
  Offers-each f xs = (offered-each f a xs, λ (x, i, h). each-offered f a xs x i h)

  pub Offers-one : (l : String) (x : A) → Offers (button l false x ∷ []) ↔ (x ≡ a)
  unfolding offered
  Offers-one l x = (λ h. elim h [ inl e ↦ e | inr k ↦ absurd k ], λ e. inl e)

  pub Offers-two :
      (l m : String) (x y : A)
      → Offers (button l false x ∷ button m false y ∷ []) ↔ ((x ≡ a) ⊎ (y ≡ a))
  unfolding offered
  Offers-two l m x y = (
    λ h. elim h [ inl e ↦ inl e | inr k ↦ elim k [ inl e ↦ inr e | inr n ↦ absurd n ] ],
    λ h. elim h [ inl e ↦ inl e | inr e ↦ inr (inl e) ],
  )
