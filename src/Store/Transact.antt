-- ===== src/Store/Transact.antt =====
-- What an operation of the store that succeeds has done.
use ferris_agent_bridge.Format.Current.{SerdeJson}
use ferris_agent_bridge.Store.{
  transact, Disk, Env, Effect, perform, lock_error, both, load, write_state, leave,
}
use ferris_agent_bridge.State.{RuntimeState}
use ferris_agent_bridge.Base.Text.{text_partial_eq}
use ferris_agent_bridge.Base.{
  ◌≡◌, refl, ap, Result, ok, err, ◌>>=◌, ◌>>◌, fail_if, nat_partial_eq, >>=-eq-ok, >>-eq-ok, ok-inj,
  false, ◌∙◌,
}
use ferris_agent_bridge.Store

both-eq-ok :
    {B A : Type 0} (a : A) (p : B × Result Store.Error (Unit {0})) {a' : A}
    → (both a p).1 ≡ ok a'
    → (a ≡ a') × (p.1 ≡ ok tt) × ((both a p).0 ≡ p.0)
both-eq-ok a (d, ok u) h = (ok-inj h, refl, refl)
both-eq-ok a (d, err x) h = absurd (cc)

decided-eq-ok :
    {B A : Type 0} (m : Result Store.Error (Effect × A)) (disk : B)
    (go : Effect → B × Result Store.Error (Unit {0})) {a : A}
    → (elim m as (λ _. B × Result Store.Error A) [
      | err x ↦ (disk, err x)
      | ok found ↦ both found.1 (go found.0)
    ]).1
      ≡ ok a
    → (f : Effect) × (m ≡ ok (f, a))
      × ((go f).1 ≡ ok tt)
      × ((elim m as (λ _. B × Result Store.Error A) [
        | err x ↦ (disk, err x)
        | ok found ↦ both found.1 (go found.0)
      ]).0
          ≡ (go f).0)
decided-eq-ok (err x) disk go h = absurd (cc)
decided-eq-ok (ok (f, a)) disk go h =
    let (same, done, left) = both-eq-ok a (go f) h in (f, ap (λ b. ok (f, b)) same, done, left)

pub transact-eq-ok :
    (J : SerdeJson) {A : Type 0} (e : Env) (disk : Disk J)
    (decide : RuntimeState → Result Store.Error (Effect × A)) {a : A}
    → (transact J e disk decide).1 ≡ ok a
    → (s : RuntimeState) × (f : Effect) × (decide s ≡ ok (f, a))
      × ((perform J e disk f).1 ≡ ok tt)
      × ((transact J e disk decide).0 ≡ (perform J e disk f).0)
      × (load J e disk ≡ ok s)
unfolding transact
transact-eq-ok J e disk decide h =
    let (f, decided, done, left) =
      decided-eq-ok (fail_if e.lock_poisoned lock_error >> (load J e disk >>= decide)) disk
        (perform J e disk) h in
    let (free, go) = >>-eq-ok (fail_if e.lock_poisoned lock_error) _ decided in
    let (s, loaded, end) = >>=-eq-ok (load J e disk) decide go in (s, f, end, done, left, loaded)

-- What an operation does where its decision is known.
pub transact_lem :
    (J : SerdeJson) {A : Type 0} (e : Env) (disk : Disk J)
    (decide : RuntimeState → Result Store.Error (Effect × A)) (s : RuntimeState) {f : Effect}
    {a : A}
    → e.lock_poisoned ≡ false
    → load J e disk ≡ ok s
    → decide s ≡ ok (f, a)
    → transact J e disk decide ≡ both a (perform J e disk f)
unfolding transact
transact_lem J e disk decide s {f} {a} unlocked loaded decided =
    let found : (fail_if e.lock_poisoned lock_error >> (load J e disk >>= decide)) ≡ ok (f, a) =
      ap (λ b. fail_if b lock_error >> (load J e disk >>= decide)) unlocked
      ∙ ap (λ m. m >>= decide) loaded
      ∙ decided in
    rw (transact, found) refl
