-- ===== src/State/MergeRuns.antt =====
-- The runs in what `preserve_runs_from` (runtime/state/model.rs) leaves.
use ferris_agent_bridge.Base.{
  ◌≡◌, refl, sym, ap, ◌∙◌, subst, true, false, ◌⊎◌, inl, inr, List, [], ◌∷◌, some, Result, ok, err,
  map_ok, ◌==◌, eq_refl, eq_sound, arith, All, find, Bool-cases, >>=-eq-ok,
}
use ferris_agent_bridge.Base.Text.{text_partial_eq}
use ferris_agent_bridge.Run.{RunId, RunRecord, is_descendant_of}
use ferris_agent_bridge.Run
use ferris_agent_bridge.Run.Descent.{is_descendant_of_order}
use ferris_agent_bridge.State.{Error, find_run}
use ferris_agent_bridge.State.Merge.{newer_run, merge_run, merge_runs}

-- `v` is the run `r` or a later version of it.
abbrev pub IsNewer : RunRecord → RunRecord → Type 0
IsNewer v r = (v ≡ r) ⊎ (is_descendant_of v r ≡ true)

IsNewer-trans : (a b c : RunRecord) → IsNewer a b → IsNewer b c → IsNewer a c
IsNewer-trans a b c (inl h) k = subst (λ x. IsNewer x c) (sym h) k
IsNewer-trans a b c (inr h) (inl k) = subst (IsNewer a) k (inr h)
IsNewer-trans a b c (inr h) (inr k) = inr (is_descendant_of_order c b a k h).0

-- What the merge holds of a run.
pub record Kept (r : RunRecord) (m : List RunRecord) : Type 0 where
  pub version : RunRecord
  pub found : find_run r.id m ≡ some version
  pub newer : IsNewer version r

newer_run-IsNewer :
    (c r : RunRecord) {v : RunRecord}
    → newer_run c r ≡ ok v
    → IsNewer v r × IsNewer v c × ((v ≡ r) ⊎ (v ≡ c))
unfolding newer_run
newer_run-IsNewer c r {v} h = elim (Bool-cases (◌==◌ ⦃e = Run.record_partial_eq⦄ r c)) [
  | inl same ↦
      let r_c : r ≡ c = eq_sound ⦃e = Run.record_partial_eq⦄ r c same in
      let v_r : v ≡ r = ground arith in (inl v_r, inl (v_r ∙ r_c), inl v_r)
  | inr other ↦ elim (Bool-cases (is_descendant_of c r)) [
    | inl down ↦
        let v_c : v ≡ c = ground arith in
        (inr (subst (λ x. is_descendant_of x r ≡ true) (sym v_c) down), inl v_c, inr v_c)
    | inr no_down ↦
        let up : is_descendant_of r c ≡ true = ground arith in
        let v_r : v ≡ r = ground arith in
        (inl v_r, inr (subst (λ x. is_descendant_of x c ≡ true) (sym v_r) up), inl v_r)
  ]
]

map_ok-eq-ok :
    {A B : Type 0} (f : A → B) (m : Result Error A) {b : B}
    → map_ok f m ≡ ok b
    → (a : A) × (m ≡ ok a) × (b ≡ f a)
map_ok-eq-ok f (ok a) h = (a, refl, ground arith)
map_ok-eq-ok f (err e) h = cc

-- One round of the merge.
record Round (c : RunRecord) (m m' : List RunRecord) : Type 0 where
  candidate : Kept c m'
  others :
      (id : RunId) (r : RunRecord)
      → find_run id m ≡ some r
      → (v : RunRecord) × (find_run id m' ≡ some v) × IsNewer v r

replaced-Round :
    (c x v : RunRecord) (m : List RunRecord)
    → (x.id == c.id) ≡ true
    → v.id ≡ x.id
    → IsNewer v x
    → IsNewer v c
    → Round c (x ∷ m) (v ∷ m)
unfolding find_run find
replaced-Round c x v m hit same newer_x newer_c = record {
  candidate = record { version = v; found = rw same (rw hit refl); newer = newer_c };
  others = λ id r e. elim (Bool-cases (x.id == id)) [
    | inl t ↦
        let r_x : r ≡ x = ground arith in
        (v, rw same (rw t refl), subst (IsNewer v) (sym r_x) newer_x)
    | inr f ↦ (r, rw same (rw f (ground arith)), inl refl)
  ];
}

passed-Round :
    (c x : RunRecord) (m rest : List RunRecord)
    → (x.id == c.id) ≡ false
    → Round c m rest
    → Round c (x ∷ m) (x ∷ rest)
unfolding find_run find
passed-Round c x m rest miss round = record {
  candidate = record {
    version = round.candidate.version;
    found = rw miss round.candidate.found;
    newer = round.candidate.newer;
  };
  others = λ id r e. elim (Bool-cases (x.id == id)) [
    | inl t ↦ let r_x : r ≡ x = ground arith in (x, rw t refl, inl (sym r_x))
    | inr f ↦ let (v, found, newer) = round.others id r (ground arith) in (v, rw f found, newer)
  ];
}

merge_run-Round :
    (c : RunRecord) (m : List RunRecord) {m' : List RunRecord}
    → merge_run c m ≡ ok m'
    → Round c m m'
unfolding merge_run find_run find
merge_run-Round c [] {m'} h = record {
  candidate = record { version = c; found = ground (arith, eq_refl c.id); newer = inl refl };
  others = λ id r e. cc;
}
merge_run-Round c (x ∷ m) {m'} h = elim (Bool-cases (x.id == c.id)) [
  | inl hit ↦
      let head : map_ok (λ (v : RunRecord). v ∷ m) (newer_run c x) ≡ ok m' = ground arith in
      let (v, chosen, after) = map_ok-eq-ok (λ v. v ∷ m) (newer_run c x) head in
      let (newer_x, newer_c, which) = newer_run-IsNewer c x chosen in
      subst (Round c (x ∷ m)) (sym after)
        (replaced-Round c x v m hit (same_id v hit which) newer_x newer_c)
  | inr miss ↦
      let tail : map_ok (λ (t : List RunRecord). x ∷ t) (merge_run c m) ≡ ok m' = ground arith in
      let (rest, merged, after) = map_ok-eq-ok (λ t. x ∷ t) (merge_run c m) tail in
      subst (Round c (x ∷ m)) (sym after)
        (passed-Round c x m rest miss (merge_run-Round c m merged))
]
  where
    same_id : (v : RunRecord) → (x.id == c.id) ≡ true → (v ≡ x) ⊎ (v ≡ c) → v.id ≡ x.id
    same_id v hit (inl e) = ap (λ r. r.id) e
    same_id v hit (inr e) = ap (λ r. r.id) e ∙ sym (eq_sound x.id c.id hit)

-- What the rest of the merge leaves of a run that is there.
pub merge_runs-keeps :
    (m cs : List RunRecord) {m' : List RunRecord} (id : RunId) (r : RunRecord)
    → merge_runs m cs ≡ ok m'
    → find_run id m ≡ some r
    → (v : RunRecord) × (find_run id m' ≡ some v) × IsNewer v r
unfolding merge_runs
merge_runs-keeps m [] id r h found = (r, ground arith, inl refl)
merge_runs-keeps m (c ∷ cs) {m'} id r h found =
    let (n, first, rest) = >>=-eq-ok (merge_run c m) (λ t. merge_runs t cs) h in
    let (v, found', newer) = (merge_run-Round c m first).others id r found in
    let (w, found'', newer') = merge_runs-keeps n cs id v rest found' in
    (w, found'', IsNewer-trans w v r newer' newer)

pub merge_runs-Kept :
    (m cs : List RunRecord) {m' : List RunRecord}
    → merge_runs m cs ≡ ok m'
    → All (λ c. Kept c m') cs
unfolding merge_runs
merge_runs-Kept m [] h = tt
merge_runs-Kept m (c ∷ cs) {m'} h =
    let (n, first, rest) = >>=-eq-ok (merge_run c m) (λ t. merge_runs t cs) h in
    let k = (merge_run-Round c m first).candidate in
    let (v, found, newer) = merge_runs-keeps n cs c.id k.version rest k.found in
    (
      record { version = v; found = found; newer = IsNewer-trans v k.version c newer k.newer },
      merge_runs-Kept n cs rest,
    )
