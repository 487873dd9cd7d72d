-- ===== src/Base/Search.antt =====
-- Searches and updates of lists: what `find`, `any` and `update_first` tell of the elements.
use mathlib.Core.Logic.{inl, inr}
use mathlib.Core.Path.{◌≡◌, refl, subst}
use mathlib.Core.Bool.{Bool, true, false, ◌||◌}
use mathlib.Core.List.{List, [], ◌∷◌, ◌++◌, map}
use mathlib.Core.Option.{some}
use native.Mathlib.Omega.{arith}
use ferris_agent_bridge.Base.Tests.{Bool-cases}
use ferris_agent_bridge.Base.Lists.{All, find, any, update_first}

module _ {A : Type 0} where
  pub All-append : (P : A → Type 0) (xs ys : List A) → All P xs → All P ys → All P (xs ++ ys)
  All-append P [] ys h k = k
  All-append P (x ∷ xs) ys h k = (h.0, All-append P xs ys h.1 k)

  pub All-map : (P Q : A → Type 0) (xs : List A) → ((x : A) → P x → Q x) → All P xs → All Q xs
  All-map P Q [] f h = tt
  All-map P Q (x ∷ xs) f h = (f x h.0, All-map P Q xs f h.1)

  pub All-update_first :
      (P : A → Type 0) (p : A → Bool) (v : A) (xs : List A)
      → P v
      → All P xs
      → All P (update_first p v xs)
  unfolding update_first
  All-update_first P p v [] h k = tt
  All-update_first P p v (x ∷ xs) h k = elim (Bool-cases (p x)) [
    | inl e ↦ rw e (h, k.1)
    | inr e ↦ rw e (k.0, All-update_first P p v xs h k.1)
  ]

  pub find-All :
      (P : A → Type 0) (p : A → Bool) (xs : List A) (x : A) → All P xs → find p xs ≡ some x → P x
  unfolding find
  find-All P p [] x h e = absurd (cc)
  find-All P p (y ∷ xs) x h e = elim (Bool-cases (p y)) [
    | inl t ↦ subst P (ground arith) h.0
    | inr t ↦ find-All P p xs x h.1 (ground arith)
  ]

  pub find-test : (p : A → Bool) (xs : List A) (x : A) → find p xs ≡ some x → p x ≡ true
  unfolding find
  find-test p [] x e = absurd (cc)
  find-test p (y ∷ xs) x e = ground (arith, find-test p xs x)

  pub any-append : (p : A → Bool) (xs ys : List A) → any p (xs ++ ys) ≡ (any p xs || any p ys)
  unfolding any
  any-append p [] ys = refl
  any-append p (x ∷ xs) ys = ground (arith, any-append p xs ys)

  -- An update replaces the element that is found, and keeps what a projection says of it.
  pub map-update_first :
      {B : Type 0} (f : A → B) (p : A → Bool) (v : A) (xs : List A) (x : A)
      → find p xs ≡ some x
      → f v ≡ f x
      → map f (update_first p v xs) ≡ map f xs
  unfolding find update_first
  map-update_first f p v [] x e k = absurd (cc)
  map-update_first f p v (y ∷ xs) x e k = ground (arith, map-update_first f p v xs x)

  -- A test that fails for the new element where it failed for the old one finds no more than before.
  pub any-update_first :
      (q p : A → Bool) (v : A) (xs : List A) (x : A)
      → find p xs ≡ some x
      → (q x ≡ false → q v ≡ false)
      → any q xs ≡ false
      → any q (update_first p v xs) ≡ false
  unfolding find any update_first
  any-update_first q p v [] x e k h = absurd (cc)
  any-update_first q p v (y ∷ xs) x e k h = ground (arith, any-update_first q p v xs x)

  pub find-update_first :
      (p : A → Bool) (v : A) (xs : List A) (x : A)
      → find p xs ≡ some x
      → p v ≡ true
      → find p (update_first p v xs) ≡ some v
  unfolding find update_first
  find-update_first p v [] x e h = absurd (cc)
  find-update_first p v (y ∷ xs) x e h = ground (arith, find-update_first p v xs x)

  pub find-update_first_ne :
      (p q : A → Bool) (v : A) (xs : List A)
      → ((x : A) → p x ≡ true → q x ≡ false)
      → q v ≡ false
      → find q (update_first p v xs) ≡ find q xs
  unfolding find update_first
  find-update_first_ne p q v [] d h = refl
  find-update_first_ne p q v (y ∷ xs) d h = ground (arith, d y, find-update_first_ne p q v xs d)
