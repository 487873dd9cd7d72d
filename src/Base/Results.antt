-- ===== src/Base/Results.antt =====
-- Results: an early return with an error, and the chain of `?`.
use mathlib.Core.Path.{◌≡◌, refl}
use mathlib.Core.Logic.{◌⊎◌, inl, inr}
use mathlib.Core.Bool.{Bool, true, false}
use mathlib.Core.Option.{Option, none, some}
use mathlib.Core.List.{List, [], ◌∷◌}

-- `Result<A, E>`.
pub data Result {ℓ} (E : Type ℓ) (A : Type ℓ) : Type ℓ where
  ok : A → Result E A
  err : E → Result E A

module _ {E : Type 0} where
  infixl 5 ◌>>=◌ ◌>>◌
  abbrev pub ◌>>=◌ : {A B : Type 0} → Result E A → (A → Result E B) → Result E B
  ok a >>= f = f a
  err e >>= f = err e

  abbrev pub ◌>>◌ : {B : Type 0} → Result E (Unit {0}) → Result E B → Result E B
  m >> k = m >>= λ _. k

  -- `if c { return Err(e); }`
  abbrev pub fail_if : Bool → E → Result E (Unit {0})
  fail_if true e = err e
  fail_if false e = ok tt

  -- `r?` where the callee's error is one of the caller's.
  abbrev pub map_err : {F A : Type 0} → (F → E) → Result F A → Result E A
  map_err f (ok a) = ok a
  map_err f (err x) = err (f x)

  abbrev pub map_ok : {A B : Type 0} → (A → B) → Result E A → Result E B
  map_ok f (ok a) = ok (f a)
  map_ok f (err x) = err x

  pub map_err-eq-ok :
      {F A : Type 0} (f : F → E) (m : Result F A) {a : A} → map_err f m ≡ ok a → m ≡ ok a
  map_err-eq-ok f (ok b) h = cc
  map_err-eq-ok f (err x) h = absurd (cc)

  -- `o.ok_or_else(..)`
  abbrev pub ok_or : {A : Type 0} → Option A → E → Result E A
  ok_or none e = err e
  ok_or (some a) e = ok a

  -- `if let Some(x) = o { .. }`
  abbrev pub when_some : {A : Type 0} → Option A → (A → Result E (Unit {0})) → Result E (Unit {0})
  when_some none f = ok tt
  when_some (some a) f = f a

  -- `for x in xs { f(x)?; }`
  unfoldable pub for_each : {A : Type 0} → (A → Result E (Unit {0})) → List A → Result E (Unit {0})
  for_each f [] = ok tt
  for_each f (x ∷ xs) = f x >> for_each f xs

  -- The chain goes on only after a success.
  pub >>=-eq-ok :
      {A B : Type 0} (first : Result E A) (next : A → Result E B) {y : B}
      → (first >>= next) ≡ ok y
      → (x : A) × (first ≡ ok x) × (next x ≡ ok y)
  >>=-eq-ok (err x) next e = cc
  >>=-eq-ok (ok x) next e = (x, refl, e)

  pub >>-eq-ok :
      {B : Type 0} (m : Result E (Unit {0})) (k : Result E B) {b : B}
      → (m >> k) ≡ ok b
      → (m ≡ ok tt) × (k ≡ ok b)
  >>-eq-ok (ok tt) k h = (refl, h)
  >>-eq-ok (err e) k h = cc

  pub fail_if-eq-ok : (c : Bool) (e : E) → fail_if c e ≡ ok tt → c ≡ false
  fail_if-eq-ok true e h = cc
  fail_if-eq-ok false e h = refl

  pub ok_or-eq-ok : {A : Type 0} (o : Option A) (e : E) {a : A} → ok_or o e ≡ ok a → o ≡ some a
  ok_or-eq-ok none e h = absurd (cc)
  ok_or-eq-ok (some b) e h = cc

  pub Result-cases :
      {A : Type 0} (m : Result E A) → ((a : A) × (m ≡ ok a)) ⊎ ((e : E) × (m ≡ err e))
  Result-cases (ok a) = inl (a, refl)
  Result-cases (err e) = inr (e, refl)

  pub ok-inj : {A : Type 0} {a b : A} → Path (Result E A) (ok a) (ok b) → a ≡ b
  ok-inj h = cc
