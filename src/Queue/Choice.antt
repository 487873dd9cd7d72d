-- ===== src/Queue/Choice.antt =====
-- The order of the candidates, by time and then by session id, and the earliest of a list.
use mathlib.Core.Option.{some-injective}
use ferris_agent_bridge.Base.{
  ◌≡◌, refl, sym, true, false, inl, inr, List, [], ◌∷◌, none, some, arith, All, Bool-cases, subst,
}
use ferris_agent_bridge.Base.Text.{
  text_compare_refl, text_compare-eq, text_compare-gt, text_compare_trans,
}
use ferris_agent_bridge.Queue.{Candidate, before, earliest, min_by}

before_trans : (a b c : Candidate) → before a b ≡ true → before b c ≡ true → before a c ≡ true
unfolding before
before_trans a b c h k = ground (arith, text_compare_trans a.session_id b.session_id c.session_id)

-- Candidates of which neither is before the other have the same key.
before-connex :
    (a b : Candidate)
    → before a b ≡ false
    → before b a ≡ false
    → (a.ready_at_unix ≡ b.ready_at_unix) × (a.session_id ≡ b.session_id)
unfolding before
before-connex a b h k =
    ground
      (arith, text_compare-eq a.session_id b.session_id, text_compare-gt a.session_id b.session_id)

before_same_key :
    (a b c : Candidate)
    → a.ready_at_unix ≡ b.ready_at_unix
    → a.session_id ≡ b.session_id
    → before c a ≡ before c b
unfolding before
before_same_key a b c h k = rw (h, k)

pub before_irrefl : (a : Candidate) → before a a ≡ false
unfolding before
before_irrefl a = ground (arith, text_compare_refl a.session_id)

-- No candidate is between `d` and one that is not before it.
not_before_trans :
    (d c r : Candidate) → before d c ≡ false → before c r ≡ false → before d r ≡ false
not_before_trans d c r h k = elim (Bool-cases (before d r)) [
  | inr e ↦ e
  | inl e ↦ elim (Bool-cases (before r c)) [
    | inl f ↦ absurd (cc (before_trans d r c e f))
    | inr f ↦ let key = before-connex r c f k in cc (before_same_key r c d key.0 key.1)
  ]
]

before-asymm : (a b : Candidate) → before a b ≡ true → before b a ≡ false
before-asymm a b h = elim (Bool-cases (before b a)) [
  | inr e ↦ e
  | inl e ↦ absurd (cc (before_trans a b a h e, before_irrefl a))
]

earliest_replaced :
    (c d : Candidate) (ds : List Candidate)
    → before d c ≡ true
    → earliest c (d ∷ ds) ≡ earliest d ds
unfolding earliest
earliest_replaced c d ds h = rw h

earliest_kept :
    (c d : Candidate) (ds : List Candidate)
    → before d c ≡ false
    → earliest c (d ∷ ds) ≡ earliest c ds
unfolding earliest
earliest_kept c d ds h = rw h

abbrev pub NoneBefore : List Candidate → Candidate → Type 0
NoneBefore ds m = All (λ d. before d m ≡ false) ds

earliest-not_before : (c : Candidate) (ds : List Candidate) → NoneBefore (c ∷ ds) (earliest c ds)
unfolding earliest
earliest-not_before c [] = (before_irrefl c, tt)
earliest-not_before c (d ∷ ds) = elim (Bool-cases (before d c)) [
  | inl h ↦
      let (first, rest) = earliest-not_before d ds in
      subst (NoneBefore (c ∷ d ∷ ds)) (sym (earliest_replaced c d ds h))
        (not_before_trans c d (earliest d ds) (before-asymm d c h) first, (first, rest))
  | inr h ↦
      let (first, rest) = earliest-not_before c ds in
      subst (NoneBefore (c ∷ d ∷ ds)) (sym (earliest_kept c d ds h))
        (first, (not_before_trans d c (earliest c ds) h first, rest))
]

earliest-All {ℓ} :
    (P : Candidate → Type ℓ) (c : Candidate) (ds : List Candidate)
    → P c
    → All P ds
    → P (earliest c ds)
unfolding earliest
earliest-All P c [] h hs = h
earliest-All P c (d ∷ ds) h hs = elim (Bool-cases (before d c)) [
  | inl e ↦ rw e (earliest-All P d ds hs.0 hs.1)
  | inr e ↦ rw e (earliest-All P c ds h hs.1)
]

-- The minimum has what all elements have.
pub min_by-All {ℓ} :
    (P : Candidate → Type ℓ) (cs : List Candidate) {c : Candidate}
    → All P cs
    → min_by cs ≡ some c
    → P c
unfolding min_by
min_by-All P [] h e = absurd (cc)
min_by-All P (d ∷ ds) {c} h e =
    subst P (some-injective (earliest d ds) c e) (earliest-All P d ds h.0 h.1)

-- No element is before the minimum.
pub min_by-not_before : (cs : List Candidate) {c : Candidate} → min_by cs ≡ some c → NoneBefore cs c
unfolding min_by
min_by-not_before [] e = tt
min_by-not_before (d ∷ ds) {c} e =
    subst (NoneBefore (d ∷ ds)) (some-injective (earliest d ds) c e) (earliest-not_before d ds)

pub min_by-none : (cs : List Candidate) → min_by cs ≡ none → cs ≡ []
unfolding min_by
min_by-none [] e = refl
min_by-none (d ∷ ds) e = absurd (cc)
