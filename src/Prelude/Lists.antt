-- ===== src/Prelude/Lists.antt =====
-- Lists as the sources use arrays: `length`, `find`, `filter`, `some` and the predicate `All`.
use Prim.Native.Nat.{ℕ, zero, suc, ◌≤◌}
use mathlib.Core.Path.{◌≡◌, refl, sym, ap, ◌∙◌, subst}
use mathlib.Core.Bool.{Bool, true, false, ◌&&◌, ◌||◌}
use mathlib.Core.Logic.{◌⊎◌, inl, inr}
use mathlib.Core.Option.{Option, none, some}
use mathlib.Core.List.{List, [], ◌∷◌, ◌++◌}
use native.Mathlib.Omega.{arith}
use nexus_mini.Prelude.Tests.{if◌then◌else◌, Bool-cases}

module _ {ℓ} {A : Type ℓ} where
  abbrev pub length : List A → ℕ
  length [] = 0
  length (x ∷ xs) = suc (length xs)

  abbrev pub take : ℕ → List A → List A
  take zero xs = []
  take (suc n) [] = []
  take (suc n) (x ∷ xs) = x ∷ take n xs

  pub length-take-le : (n : ℕ) (xs : List A) → length (take n xs) ≤ n
  length-take-le zero xs = omega arith
  length-take-le (suc n) [] = omega arith
  length-take-le (suc n) (x ∷ xs) = omega (arith, length-take-le n xs)

  abbrev pub filter : (A → Bool) → List A → List A
  filter p [] = []
  filter p (x ∷ xs) = let rest = filter p xs in if p x then x ∷ rest else rest

  abbrev pub any : (A → Bool) → List A → Bool
  any p [] = false
  any p (x ∷ xs) = p x || any p xs

  abbrev pub all : (A → Bool) → List A → Bool
  all p [] = true
  all p (x ∷ xs) = p x && all p xs

  abbrev pub find : (A → Bool) → List A → Option A
  find p [] = none
  find p (x ∷ xs) = let rest = find p xs in if p x then some x else rest

  abbrev pub is_empty : List A → Bool
  is_empty [] = true
  is_empty (x ∷ xs) = false

  abbrev pub head_or : A → List A → A
  head_or d [] = d
  head_or d (x ∷ xs) = x

module _ {ℓ κ} {A : Type ℓ} (P : A → Type κ) where
  abbrev pub All : List A → Type κ
  All [] = Unit
  All (x ∷ xs) = P x × All xs

  pub All-append : (xs ys : List A) → All xs → All ys → All (xs ++ ys)
  All-append [] ys h k = k
  All-append (x ∷ xs) ys (p, h) k = (p, All-append xs ys h k)

  pub All-take : (n : ℕ) (xs : List A) → All xs → All (take n xs)
  All-take zero xs h = tt
  All-take (suc n) [] h = tt
  All-take (suc n) (x ∷ xs) (p, h) = (p, All-take n xs h)

-- Membership that can be taken apart into data.
abbrev pub In : {A : Type 0} → A → List A → Type 0
In a [] = ⊥
In a (x ∷ xs) = (x ≡ a) ⊎ In a xs

pub In-append : {A : Type 0} (a : A) (xs ys : List A) → In a (xs ++ ys) → In a xs ⊎ In a ys
In-append a [] ys h = inr h
In-append a (x ∷ xs) ys (inl e) = inl (inl e)
In-append a (x ∷ xs) ys (inr h) = elim (In-append a xs ys h) [ inl l ↦ inl (inr l) | inr r ↦ inr r ]

pub In-append_left : {A : Type 0} (a : A) (xs ys : List A) → In a xs → In a (xs ++ ys)
In-append_left a [] ys h = absurd h
In-append_left a (x ∷ xs) ys (inl e) = inl e
In-append_left a (x ∷ xs) ys (inr h) = inr (In-append_left a xs ys h)

pub In-append_right : {A : Type 0} (a : A) (xs ys : List A) → In a ys → In a (xs ++ ys)
In-append_right a [] ys h = h
In-append_right a (x ∷ xs) ys h = inr (In-append_right a xs ys h)

pub In-one : {A : Type 0} (a x : A) → In a (x ∷ []) → x ≡ a
In-one a x (inl e) = e
In-one a x (inr h) = absurd h

module _ {κ} {A : Type 0} (P : A → Type κ) where
  pub All-In : (xs : List A) (a : A) → All P xs → In a xs → P a
  All-In [] a h i = absurd i
  All-In (x ∷ xs) a (p, h) (inl e) = subst P e p
  All-In (x ∷ xs) a (p, h) (inr i) = All-In xs a h i

  pub All-of_In : (xs : List A) → ((a : A) → In a xs → P a) → All P xs
  All-of_In [] f = tt
  All-of_In (x ∷ xs) f = (f x (inl refl), All-of_In xs (λ a i. f a (inr i)))

module _ {A : Type 0} (p : A → Bool) (a : A) where
  pub In-filter : (xs : List A) → In a (filter p xs) → In a xs × (p a ≡ true)
  In-filter [] h = absurd h
  In-filter (x ∷ xs) h = elim (Bool-cases (p x)) [
    | inr e ↦ let (i, q) = In-filter xs (rw e at h) in (inr i, q)
    | inl e ↦ elim (in_kept e) [
      | inl same ↦ (inl same, ap p (sym same) ∙ e)
      | inr r ↦ let (i, q) = In-filter xs r in (inr i, q)
    ]
  ]
    where
      in_kept : p x ≡ true → (x ≡ a) ⊎ In a (filter p xs)
      in_kept e = rw e at h

  pub filter-In : (xs : List A) → In a xs → p a ≡ true → In a (filter p xs)
  filter-In [] h q = absurd h
  filter-In (x ∷ xs) (inl same) q = let e : p x ≡ true = ap p same ∙ q in rw e (inl same)
  filter-In (x ∷ xs) (inr h) q = elim (Bool-cases (p x)) [
    | inl e ↦ rw e (inr (filter-In xs h q))
    | inr e ↦ rw e (filter-In xs h q)
  ]
