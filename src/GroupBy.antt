-- ===== src/GroupBy.antt =====
-- A `Map` from keys to lists that is filled in one pass over an array, and keeps the order in which
-- the keys came (the pages' `byParent` and `groups`).
use nexus_mini.Prelude.{
  ◌≡◌, refl, ◌↔◌, Bool, true, List, [], ◌∷◌, ◌++◌, filter, arith, if◌then◌else◌, Bool-cases, inl,
  inr, sym, ap, In, All, All-append, All-In, All-of_In, filter-In,
}
use mathlib.Core.List.{append-nil, append_assoc}

-- Keys with the test that the `Map` makes.
pub record Key (K : Type 0) : Type 0 where
  pub same : K → K → Bool
  pub same_iff : (a b : K) → (same a b ≡ true) ↔ (a ≡ b)

module _ {K V : Type 0} (k : Key K) where
  -- `map.get(key) ?? []`
  unfoldable pub get : K → List (K × List V) → List V
  get key [] = []
  get key ((j, vs) ∷ rest) = let other = get key rest in if k.same j key then vs else other

  -- `map.set(key, [...(map.get(key) ?? []), v])`
  pub push : K → V → List (K × List V) → List (K × List V)
  push key v [] = (key, v ∷ []) ∷ []
  push key v ((j, vs) ∷ rest) =
      let other = push key v rest in
      if k.same j key then (j, vs ++ v ∷ []) ∷ rest else (j, vs) ∷ other

  -- The loop over the array, with the map filled so far.
  unfoldable pub fill : (V → K) → List (K × List V) → List V → List (K × List V)
  unfolding push
  fill key_of m [] = m
  fill key_of m (v ∷ vs) = fill key_of (push (key_of v) v m) vs

  get-push :
      (key j : K) (v : V) (m : List (K × List V))
      → get j (push key v m) ≡ (if k.same key j then get j m ++ v ∷ [] else get j m)
  unfolding get push
  get-push key j v [] = elim (Bool-cases (k.same key j)) [ inl e ↦ rw e refl | inr e ↦ rw e refl ]
  get-push key j v ((i, vs) ∷ rest) =
      ground (arith, k.same_iff key j, k.same_iff i key, k.same_iff i j, get-push key j v rest)

  get-fill_from :
      (key_of : V → K) (j : K) (m : List (K × List V)) (vs : List V)
      → get j (fill key_of m vs) ≡ get j m ++ filter (λ v. k.same (key_of v) j) vs
  unfolding fill
  get-fill_from key_of j m [] = sym (append-nil _)
  get-fill_from key_of j m (v ∷ vs) =
      let ih = get-fill_from key_of j (push (key_of v) v m) vs in
      elim (Bool-cases (k.same (key_of v) j)) [
        | inl e ↦
            rw (ih, get-push)
              (rw e (append_assoc (get j m) (v ∷ []) (filter (λ x. k.same (key_of x) j) vs)))
        | inr e ↦ rw (ih, get-push) (rw e refl)
      ]

  -- Filling the map from an array collects, under each key, that key's values in their order.
  pub get-fill :
      (key_of : V → K) (j : K) (vs : List V)
      → get j (fill key_of [] vs) ≡ filter (λ v. k.same (key_of v) j) vs
  unfolding get
  get-fill key_of j vs = get-fill_from key_of j [] vs

  get-In :
      (key : K) (v : V) (m : List (K × List V))
      → In v (get key m)
      → (vs : List V) × In (key, vs) m × In v vs
  unfolding get
  get-In key v [] h = absurd h
  get-In key v ((j, vs) ∷ rest) h = elim (Bool-cases (k.same j key)) [
    | inl e ↦ (vs, inl (ap (λ i. (i, vs)) ((k.same_iff j key).0 e)), rw e at h)
    | inr e ↦ let (us, i, l) = get-In key v rest (rw e at h) in (us, inr i, l)
  ]

  module _ (P : V → Type 0) where
    abbrev AllIn : List (K × List V) → Type 0
    AllIn m = All (λ e. All P e.1) m

    push-AllIn : (key : K) (v : V) (m : List (K × List V)) → P v → AllIn m → AllIn (push key v m)
    unfolding push
    push-AllIn key v [] p h = ((p, tt), tt)
    push-AllIn key v ((j, vs) ∷ rest) p (here, later) = elim (Bool-cases (k.same j key)) [
      | inl e ↦ rw e (All-append P vs (v ∷ []) here (p, tt), later)
      | inr e ↦ rw e (here, push-AllIn key v rest p later)
    ]

    fill-AllIn :
        (key_of : V → K) (m : List (K × List V)) (vs : List V)
        → AllIn m
        → All P vs
        → AllIn (fill key_of m vs)
    unfolding fill
    fill-AllIn key_of m [] h ps = h
    fill-AllIn key_of m (v ∷ vs) h (p, ps) =
        fill-AllIn key_of (push (key_of v) v m) vs (push-AllIn (key_of v) v m p h) ps

  -- The groups hold the array's values: each value stands under its key, and nothing else does.
  pub In-fill :
      (key_of : V → K) (vs : List V) (v : V)
      → In v vs
      → (us : List V) × In (key_of v, us) (fill key_of [] vs) × In v us
  In-fill key_of vs v i =
      let member : In v (get (key_of v) (fill key_of [] vs)) =
        rw get-fill
          (filter-In (λ x. k.same (key_of x) (key_of v)) v vs i ((k.same_iff _ _).1 refl)) in
      get-In (key_of v) v (fill key_of [] vs) member

  pub fill-In :
      (key_of : V → K) (vs : List V) (e : K × List V) (v : V)
      → In e (fill key_of [] vs)
      → In v e.1
      → In v vs
  fill-In key_of vs e v i j =
      All-In (λ x. In x vs) e.1 v
        (All-In (λ f. All (λ x. In x vs) f.1) (fill key_of [] vs) e
          (fill-AllIn (λ x. In x vs) key_of [] vs tt (All-of_In (λ x. In x vs) vs (λ a h. h))) i)
        j
