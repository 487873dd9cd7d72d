-- ===== src/Base/Equality.antt =====
-- `PartialEq`: a Boolean test that decides equality, and the derived instances of containers.
use mathlib.Core.Path.{◌≡◌, refl, ap}
use mathlib.Core.Logic.{◌↔◌}
use mathlib.Core.Bool.{Bool, true, false, ◌&&◌, ◌||◌}
use mathlib.Core.Option.{Option, none, some}
use mathlib.Core.List.{List, [], ◌∷◌}
use Prim.Native.Nat.{ℕ}
use native.Mathlib.Omega.{arith}
use ferris_agent_bridge.Base.Tests.{nat_eq, nat_eq_iff}

pub record PartialEq {ℓ} (A : Type ℓ) : Type ℓ where
  pub eq : A → A → Bool
  pub eq_iff : (a b : A) → (eq a b ≡ true) ↔ (a ≡ b)

infix 50 ◌==◌
abbrev pub ◌==◌ {ℓ} : {A : Type ℓ} ⦃e : PartialEq A⦄ → A → A → Bool
◌==◌ ⦃e⦄ = e.eq

pub eq_iff {ℓ} : {A : Type ℓ} ⦃e : PartialEq A⦄ (a b : A) → ((a == b) ≡ true) ↔ (a ≡ b)
eq_iff ⦃e⦄ a b = e.eq_iff a b

pub eq_refl {ℓ} : {A : Type ℓ} ⦃e : PartialEq A⦄ (a : A) → (a == a) ≡ true
eq_refl ⦃e⦄ a = (e.eq_iff a a).1 refl

pub eq_sound {ℓ} : {A : Type ℓ} ⦃e : PartialEq A⦄ (a b : A) → (a == b) ≡ true → a ≡ b
eq_sound ⦃e⦄ a b h = (e.eq_iff a b).0 h

instance abbrev pub nat_partial_eq : PartialEq ℕ
nat_partial_eq = record { eq = nat_eq; eq_iff = nat_eq_iff }

module _ {A : Type 0} ⦃e : PartialEq A⦄ where
  unfoldable pub list_eq : List A → List A → Bool
  list_eq [] [] = true
  list_eq [] (b ∷ t) = false
  list_eq (a ∷ s) [] = false
  list_eq (a ∷ s) (b ∷ t) = a == b && list_eq s t

  pub list_eq_iff : (s t : List A) → (list_eq s t ≡ true) ↔ (s ≡ t)
  unfolding list_eq
  list_eq_iff [] [] = (λ _. refl, λ _. refl)
  list_eq_iff [] (b ∷ t) = (λ h. cc, λ h. cc)
  list_eq_iff (a ∷ s) [] = (λ h. cc, λ h. cc)
  list_eq_iff (a ∷ s) (b ∷ t) = (
    λ h. ground (arith, e.eq_iff a b, list_eq_iff s t),
    λ h. ground (arith, e.eq_iff a b, list_eq_iff s t),
  )

  unfoldable pub option_eq : Option A → Option A → Bool
  option_eq none none = true
  option_eq none (some b) = false
  option_eq (some a) none = false
  option_eq (some a) (some b) = a == b

  pub option_eq_iff : (s t : Option A) → (option_eq s t ≡ true) ↔ (s ≡ t)
  unfolding option_eq
  option_eq_iff none none = (λ _. refl, λ _. refl)
  option_eq_iff none (some b) = (λ h. cc, λ h. cc)
  option_eq_iff (some a) none = (λ h. cc, λ h. cc)
  option_eq_iff (some a) (some b) = (λ h. ap some ((e.eq_iff a b).0 h), λ h. (e.eq_iff a b).1 (cc))

  -- Membership, as in a `BTreeSet`.
  unfoldable pub contains : A → List A → Bool
  contains a [] = false
  contains a (b ∷ s) = a == b || contains a s

instance abbrev pub list_partial_eq : {A : Type 0} ⦃e : PartialEq A⦄ → PartialEq (List A)
list_partial_eq = record { eq = list_eq; eq_iff = list_eq_iff }

instance abbrev pub option_partial_eq : {A : Type 0} ⦃e : PartialEq A⦄ → PartialEq (Option A)
option_partial_eq = record { eq = option_eq; eq_iff = option_eq_iff }
