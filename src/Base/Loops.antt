-- ===== src/Base/Loops.antt =====
-- Loops of the form `if !seen.insert(x) { return Err(..); }`.
use mathlib.Core.Path.{◌≡◌, refl}
use mathlib.Core.Logic.{◌↔◌}
use mathlib.Core.Bool.{false}
use mathlib.Core.List.{List, [], ◌∷◌, ◌++◌}
use native.Mathlib.Omega.{arith}
use ferris_agent_bridge.Base.Lists.{All}
use ferris_agent_bridge.Base.Results.{Result, ok, ◌>>◌, fail_if, >>-eq-ok, fail_if-eq-ok}
use ferris_agent_bridge.Base.Equality.{PartialEq, eq_iff, contains}

module _ {A : Type 0} ⦃e : PartialEq A⦄ where
  -- The loop, with the elements that it has seen.
  unfoldable pub ensure_distinct : {E : Type 0} → E → List A → List A → Result E (Unit {0})
  ensure_distinct e seen [] = ok tt
  ensure_distinct e seen (x ∷ xs) = do fail_if (contains x seen) e; ensure_distinct e (x ∷ seen) xs

  -- No element stands twice in the list.
  abbrev pub Distinct : List A → Type 0
  Distinct [] = Unit
  Distinct (x ∷ xs) = (contains x xs ≡ false) × Distinct xs

  -- No element of the list has been seen.
  abbrev pub Apart : List A → List A → Type 0
  Apart seen = All (λ x. contains x seen ≡ false)

  Apart-cons :
      (x : A) (seen xs : List A) → Apart (x ∷ seen) xs → Apart seen xs × (contains x xs ≡ false)
  unfolding contains
  Apart-cons x seen [] h = (tt, refl)
  Apart-cons x seen (y ∷ xs) h = ground (arith, eq_iff x y, eq_iff y x, Apart-cons x seen xs h.1)

  Apart-of_cons :
      (x : A) (seen xs : List A) → Apart seen xs → contains x xs ≡ false → Apart (x ∷ seen) xs
  unfolding contains
  Apart-of_cons x seen [] h k = tt
  Apart-of_cons x seen (y ∷ xs) h k =
      ground (arith, eq_iff x y, eq_iff y x, Apart-of_cons x seen xs h.1)

  ensure_distinct_sound :
      {E : Type 0} (e : E) (seen xs : List A)
      → ensure_distinct e seen xs ≡ ok tt
      → Distinct xs × Apart seen xs
  unfolding ensure_distinct
  ensure_distinct_sound e seen [] h = (tt, tt)
  ensure_distinct_sound e seen (x ∷ xs) h =
      let (fresh, rest) =
        >>-eq-ok (fail_if (contains x seen) e) (ensure_distinct e (x ∷ seen) xs) h in
      let (distinct, apart) = ensure_distinct_sound e (x ∷ seen) xs rest in
      let (apart', new) = Apart-cons x seen xs apart in
      ((new, distinct), (fail_if-eq-ok (contains x seen) e fresh, apart'))

  ensure_distinct_complete :
      {E : Type 0} (e : E) (seen xs : List A)
      → Distinct xs
      → Apart seen xs
      → ensure_distinct e seen xs ≡ ok tt
  unfolding ensure_distinct
  ensure_distinct_complete e seen [] d a = refl
  ensure_distinct_complete e seen (x ∷ xs) d a =
      rw a.0 (ensure_distinct_complete e (x ∷ seen) xs d.1 (Apart-of_cons x seen xs a.1 d.0))

  Apart-nil : (xs : List A) → Apart [] xs
  unfolding contains
  Apart-nil [] = tt
  Apart-nil (x ∷ xs) = (refl, Apart-nil xs)

  -- Started with nothing seen, the loop accepts exactly the lists of distinct elements.
  pub ensure_distinct_iff :
      {E : Type 0} (e : E) (xs : List A) → (ensure_distinct e [] xs ≡ ok tt) ↔ Distinct xs
  ensure_distinct_iff e xs = (
    λ h. (ensure_distinct_sound e [] xs h).0,
    λ d. ensure_distinct_complete e [] xs d (Apart-nil xs),
  )

  -- Distinct elements, none of them seen: one round of such a loop.
  abbrev pub New : List A → List A → Type 0
  New seen xs = Distinct xs × Apart seen xs

  pub New-cons :
      (x : A) (seen xs : List A) → contains x seen ≡ false → New (x ∷ seen) xs → New seen (x ∷ xs)
  New-cons x seen xs fresh (distinct, apart) =
      let (apart', new) = Apart-cons x seen xs apart in ((new, distinct), (fresh, apart'))

  contains-append :
      (x : A) (xs ys : List A)
      → contains x xs ≡ false
      → contains x ys ≡ false
      → contains x (xs ++ ys) ≡ false
  unfolding contains
  contains-append x [] ys h k = k
  contains-append x (y ∷ xs) ys h k = ground (arith, contains-append x xs ys)

  -- Distinct elements, followed by distinct ones that are none of them.
  pub Distinct-append : (xs ys : List A) → Distinct xs → New xs ys → Distinct (xs ++ ys)
  Distinct-append [] ys d n = n.0
  Distinct-append (x ∷ xs) ys (new, d) (d', apart) =
      let (apart', new') = Apart-cons x xs ys apart in
      (contains-append x xs ys new new', Distinct-append xs ys d (d', apart'))
