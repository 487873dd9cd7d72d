-- ===== src/Base/Text.antt =====
-- A `String` is the list of its UTF-8 bytes.
use Prim.Native.Nat.{ℕ, compare, Ordering}
use mathlib.Core.Path.{◌≡◌, refl}
use mathlib.Core.List.{List, [], ◌∷◌}
use ferris_agent_bridge.Base.Equality.{PartialEq, nat_partial_eq, list_partial_eq}
use Prim.Native.Char.{code}
use Prim.Native.String.{String}
use native.Mathlib.Omega.{arith}

abbrev pub Text : Type 0
Text = List ℕ

-- `Ord for str`: bytes, from the left.
unfoldable pub text_compare : Text → Text → Ordering
text_compare [] [] = Ordering.eq
text_compare [] (b ∷ t) = Ordering.lt
text_compare (a ∷ s) [] = Ordering.gt
text_compare (a ∷ s) (b ∷ t) =
    let rest = text_compare s t in
    elim (compare a b) [
      | Ordering.lt ↦ Ordering.lt
      | Ordering.gt ↦ Ordering.gt
      | Ordering.eq ↦ rest
    ]

-- The bytes of an ASCII literal.
abbrev pub codes : String → Text
codes String.[] = []
codes (String.◌∷◌ c s) = code c ∷ codes s

pub text_compare_refl : (s : Text) → text_compare s s ≡ Ordering.eq
unfolding text_compare
text_compare_refl [] = refl
text_compare_refl (a ∷ s) = ground (arith, text_compare_refl s)

pub text_compare-eq : (s t : Text) → text_compare s t ≡ Ordering.eq → s ≡ t
unfolding text_compare
text_compare-eq [] [] h = refl
text_compare-eq [] (b ∷ t) h = cc
text_compare-eq (a ∷ s) [] h = cc
text_compare-eq (a ∷ s) (b ∷ t) h = ground (arith, text_compare-eq s t)

pub text_compare-gt : (s t : Text) → text_compare s t ≡ Ordering.gt → text_compare t s ≡ Ordering.lt
unfolding text_compare
text_compare-gt [] [] h = cc
text_compare-gt [] (b ∷ t) h = cc
text_compare-gt (a ∷ s) [] h = refl
text_compare-gt (a ∷ s) (b ∷ t) h = ground (arith, text_compare-gt s t)

instance abbrev pub text_partial_eq : PartialEq Text
text_partial_eq = list_partial_eq

pub text_compare_trans :
    (r s t : Text)
    → text_compare r s ≡ Ordering.lt
    → text_compare s t ≡ Ordering.lt
    → text_compare r t ≡ Ordering.lt
unfolding text_compare
text_compare_trans [] [] t h k = cc
text_compare_trans [] (b ∷ s) [] h k = cc
text_compare_trans [] (b ∷ s) (c ∷ t) h k = refl
text_compare_trans (a ∷ r) [] t h k = cc
text_compare_trans (a ∷ r) (b ∷ s) [] h k = cc
text_compare_trans (a ∷ r) (b ∷ s) (c ∷ t) h k = ground (arith, text_compare_trans r s t)
