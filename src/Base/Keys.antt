-- ===== src/Base/Keys.antt =====
-- Lists whose elements have distinct keys.
use mathlib.Core.Path.{◌≡◌, refl, subst}
use mathlib.Core.Bool.{Bool, true, false}
use mathlib.Core.Option.{some}
use mathlib.Core.Logic.{inl, inr}
use mathlib.Core.List.{List, [], ◌∷◌, ◌++◌, map}
use native.Mathlib.Omega.{arith}
use ferris_agent_bridge.Base.Search.{All-map}
use ferris_agent_bridge.Base.Tests.{Bool-cases}
use ferris_agent_bridge.Base.Lists.{any, find, is_some, update_first, All}
use ferris_agent_bridge.Base.Equality.{PartialEq, ◌==◌, contains}
use ferris_agent_bridge.Base.Loops.{Distinct}

module _ {A K : Type 0} ⦃e : PartialEq K⦄ (key : A → K) where
  -- A search by key and the set of the keys.
  pub any_key-contains :
      (k : K) (xs : List A) → any (λ x. key x == k) xs ≡ false → contains k (map key xs) ≡ false
  unfolding any contains
  any_key-contains k [] h = refl
  any_key-contains k (x ∷ xs) h =
      ground (arith, any_key-contains k xs, e.eq_iff (key x) k, e.eq_iff k (key x))

  pub find_key-contains :
      (k : K) (xs : List A)
      → is_some (find (λ x. key x == k) xs) ≡ false
      → contains k (map key xs) ≡ false
  unfolding find contains
  find_key-contains k [] h = refl
  find_key-contains k (x ∷ xs) h =
      ground (arith, find_key-contains k xs, e.eq_iff (key x) k, e.eq_iff k (key x))

  contains_keys-snoc :
      (k : K) (x : A) (xs : List A)
      → contains k (map key xs) ≡ false
      → (k == key x) ≡ false
      → contains k (map key (xs ++ x ∷ [])) ≡ false
  unfolding contains
  contains_keys-snoc k x [] h n = ground arith
  contains_keys-snoc k x (y ∷ xs) h n = ground (arith, contains_keys-snoc k x xs)

  pub Distinct-keys-snoc :
      (x : A) (xs : List A)
      → Distinct (map key xs)
      → contains (key x) (map key xs) ≡ false
      → Distinct (map key (xs ++ x ∷ []))
  unfolding contains
  Distinct-keys-snoc x [] d h = (refl, tt)
  Distinct-keys-snoc x (y ∷ xs) d h = (
    contains_keys-snoc (key y) x xs d.0
        (ground (arith, e.eq_iff (key x) (key y), e.eq_iff (key y) (key x))),
    Distinct-keys-snoc x xs d.1 (ground arith),
  )

  contains-replaced :
      (p : A → Bool) (x v : A) (xs : List A)
      → find p xs ≡ some x
      → contains (key v) (map key (update_first p v xs)) ≡ true
  unfolding contains find update_first
  contains-replaced p x v [] h = absurd (cc)
  contains-replaced p x v (y ∷ xs) h = elim (Bool-cases (p y)) [
    | inl hit ↦ rw hit (ground (arith, e.eq_iff (key v) (key v)))
    | inr miss ↦ rw miss (ground (arith, contains-replaced p x v xs))
  ]

  -- An element that replaces the first hit is found by its key.
  pub find_key-update_first :
      (p : A → Bool) (x v : A) (xs : List A)
      → find p xs ≡ some x
      → Distinct (map key (update_first p v xs))
      → find (λ y. key y == key v) (update_first p v xs) ≡ some v
  unfolding contains find update_first
  find_key-update_first p x v [] h d = absurd (cc)
  find_key-update_first p x v (y ∷ xs) h d = elim (Bool-cases (p y)) [
    | inl hit ↦ rw hit (ground (arith, e.eq_iff (key v) (key v)))
    | inr miss ↦
        let there = contains-replaced p x v xs (ground arith) in
        let here : map key (update_first p v (y ∷ xs)) ≡ key y ∷ map key (update_first p v xs) =
          rw miss refl in
        let (apart, rest) = subst (λ l. Distinct l) here d in
        let other : (key y == key v) ≡ false = elim (Bool-cases (key y == key v)) [
          | inl same ↦ let keys : key y ≡ key v = (e.eq_iff (key y) (key v)).0 same in absurd (cc)
          | inr differs ↦ differs
        ] in
        rw miss (rw other (find_key-update_first p x v xs (ground arith) rest))
  ]

  find-contains :
      (k : K) (x : A) (xs : List A)
      → find (λ y. key y == k) xs ≡ some x
      → contains k (map key xs) ≡ true
  unfolding contains find
  find-contains k x [] h = absurd (cc)
  find-contains k x (y ∷ xs) h =
      ground (arith, find-contains k x xs, e.eq_iff (key y) k, e.eq_iff k (key y))

  -- Where the keys are distinct each element is found by its key.
  pub find_key-All :
      (xs : List A) → Distinct (map key xs) → All (λ x. find (λ y. key y == key x) xs ≡ some x) xs
  unfolding find
  find_key-All [] d = tt
  find_key-All (x ∷ xs) d = (
    ground (arith, e.eq_iff (key x) (key x)),
    All-map (λ y. find (λ z. key z == key y) xs ≡ some y)
        (λ y. find (λ z. key z == key y) (x ∷ xs) ≡ some y) xs (passed x xs d.0)
        (find_key-All xs d.1),
  )
    where
      passed :
          (x : A) (xs : List A)
          → contains (key x) (map key xs) ≡ false
          → (y : A) → find (λ z. key z == key y) xs ≡ some y
          → find (λ z. key z == key y) (x ∷ xs) ≡ some y
      passed x xs apart y h = elim (Bool-cases (key x == key y)) [
        | inl same ↦
            let keys : key x ≡ key y = (e.eq_iff (key x) (key y)).0 same in
            let there = find-contains (key y) y xs h in absurd (cc)
        | inr other ↦ rw other h
      ]
