-- ===== src/Store/Kept.antt =====
-- The records in what the loops of `preserve_*_from` (runtime/state/model.rs) leave.
use ferris_agent_bridge.Store.Merging.{merge_record-append, merge_records-append}
use mathlib.Core.List.{append_assoc}
use ferris_agent_bridge.Event.{record_partial_eq}
use ferris_agent_bridge.Queue.{input_partial_eq}
use ferris_agent_bridge.State.Merge.{merge_records, merge_record}
use ferris_agent_bridge.State.{touch_at, run, RuntimeState}
use ferris_agent_bridge.Base.Text.{text_partial_eq}
use ferris_agent_bridge.Base.{
  ◌≡◌, refl, sym, ap, ◌∙◌, Option, none, some, List, [], ◌∷◌, ◌++◌, arith, ok, ◌==◌, nat_partial_eq,
  PartialEq, find, >>=-eq-ok, ok-inj, is_some, Bool-cases, inl, inr, Bool, true, subst, eq_refl,
}
use ferris_agent_bridge.State

find-append_left :
    {A : Type 0} (p : A → Bool) (xs ys : List A)
    → is_some (find p xs) ≡ true
    → is_some (find p (xs ++ ys)) ≡ true
unfolding find
find-append_left p [] ys h = absurd (cc)
find-append_left p (x ∷ xs) ys h = ground (arith, find-append_left p xs ys)

pub find-append_right :
    {A : Type 0} (p : A → Bool) (xs : List A) (y : A)
    → p y ≡ true
    → is_some (find p (xs ++ y ∷ [])) ≡ true
unfolding find
find-append_right p [] y h = rw h refl
find-append_right p (x ∷ xs) y h = ground (arith, find-append_right p xs y)

-- The merge of one record finds it by its key.
merge_record-has :
    {A K : Type 0} ⦃e : PartialEq A⦄ ⦃k : PartialEq K⦄ (key : A → K) (x : State.Error)
    (existing more : List A) (c : A) {m : List A}
    → merge_record x c (existing ++ more) (find (λ y. key y == key c) existing) ≡ ok m
    → is_some (find (λ y. key y == key c) m) ≡ true
unfolding merge_record
merge_record-has {A = A} key x existing more c {m} h =
    after (find (λ y. key y == key c) existing) refl h
  where
    after :
        (found : Option A)
        → find (λ y. key y == key c) existing ≡ found
        → merge_record x c (existing ++ more) found ≡ ok m
        → is_some (find (λ y. key y == key c) m) ≡ true
    after none at k =
        ap (λ l. is_some (find (λ y. key y == key c) l)) (sym (ok-inj k))
        ∙ find-append_right (λ y. key y == key c) (existing ++ more) c (eq_refl (key c))
    after (some y) at k =
        let same : existing ++ more ≡ m = ground arith in
        ap (λ l. is_some (find (λ y. key y == key c) l)) (sym same)
        ∙ find-append_left (λ y. key y == key c) existing more (ap is_some at)

-- What the merge is given it finds by its key.
pub merge_records-has :
    {A K : Type 0} ⦃e : PartialEq A⦄ ⦃k : PartialEq K⦄ (key : A → K) (x : State.Error)
    (existing more cs : List A) (id : K) {m : List A}
    → merge_records key x existing (existing ++ more) cs ≡ ok m
    → is_some (find (λ y. key y == id) cs) ≡ true
    → is_some (find (λ y. key y == id) m) ≡ true
unfolding merge_records find
merge_records-has key x existing more [] id h has = absurd (cc)
merge_records-has ⦃k = k⦄ key x existing more (c ∷ cs) id {m} h has =
    let found = find (λ y. key y == key c) existing in
    let (n, first, rest) = >>=-eq-ok (merge_record x c (existing ++ more) found) _ h in
    let (here, e') = merge_record-append x c (existing ++ more) found first in
    let split : n ≡ existing ++ (more ++ here) = e' ∙ append_assoc existing more here in
    elim (Bool-cases (key c == id)) [
      | inl same ↦
          let (added, e'') = merge_records-append key x existing n cs rest in
          let keys : key c ≡ id = (k.eq_iff (key c) id).0 same in
          let in_n = merge_record-has key x existing more c first in
          subst (λ i. is_some (find (λ y. key y == i) m) ≡ true) keys
            (ap (λ l. is_some (find (λ y. key y == key c) l)) e''
              ∙ find-append_left (λ y. key y == key c) n added in_n)
      | inr other ↦
          merge_records-has key x existing (more ++ here) cs id
            (subst (λ l. merge_records key x existing l cs ≡ ok m) split rest) (ground arith)
    ]
