-- ===== src/Store/Save.antt =====
-- What `save` of runtime/state/store/core.rs leaves of the state on disk.
use ferris_agent_bridge.Format.{RuntimeStateFileWire}
use ferris_agent_bridge.Format.Versioned.{decode_persisted_collections}
use ferris_agent_bridge.State.Parts.{from_persisted_parts, PersistedStateParts}
use ferris_agent_bridge.State.Consistent.{validate-Consistent}
use ferris_agent_bridge.State.Merge.{merge_runs}
use ferris_agent_bridge.State.Validate.{validate}
use ferris_agent_bridge.State.MergeRuns.{merge_runs-keeps, Kept, merge_runs-Kept}
use ferris_agent_bridge.Run.{RunRecord}
use ferris_agent_bridge.Event.{record_partial_eq}
use ferris_agent_bridge.Queue.{input_partial_eq}
use ferris_agent_bridge.Store.{
  merge_existing, Env, save, write_unlocked, save_unlocked, write_json_atomic, is_replaced,
  write_outcome, Disk, state_error, merged, snapshot, load_existing_for_merge, WriteStep, Error,
  read_to_string, validate_snapshot_outbound_additions, validate_snapshot_run_input_additions,
  validate_snapshot_agent_run_transitions, validate_snapshot_run_output_additions,
}
use ferris_agent_bridge.State.{RuntimeState, find_run}
use ferris_agent_bridge.Format.Current.{
  SerdeJson, parse_state_file, state_file_from_state, into_state, check_records, check_shape,
}
use ferris_agent_bridge.Base.Text.{text_partial_eq}
use ferris_agent_bridge.Base.{
  ◌≡◌, refl, sym, ap, ◌∙◌, inl, inr, Option, none, some, arith, Result, ok, err, if◌then◌else◌,
  nat_partial_eq, Bool-cases, >>=-eq-ok, >>-eq-ok, map_err-eq-ok, All, All-map, List, find,
  find_key-All, ok_or, subst, ok-inj, ◌==◌,
}
use ferris_agent_bridge.Format
use ferris_agent_bridge.Store.Merging.{Merged, merge_existing-Merged}

-- A chain that stops at an error and leaves the disk then.
pub chain-eq-ok :
    {F A B : Type 0} (m : Result F A) (disk : B) (g : F → Error)
    (f : A → B × Result Error (Unit {0}))
    → (elim m as (λ _. B × Result Error (Unit {0})) [ err x ↦ (disk, err (g x)) | ok a ↦ f a ]).1
      ≡ ok tt
    → (a : A) × (m ≡ ok a)
      × ((f a).1 ≡ ok tt)
      × ((elim m as (λ _. B × Result Error (Unit {0})) [ err x ↦ (disk, err (g x)) | ok a ↦ f a ]).0
          ≡ (f a).0)
chain-eq-ok (ok a) disk g f h = (a, refl, h, refl)
chain-eq-ok (err x) disk g f h = absurd (cc)

written-eq-ok :
    {B : Type 0} (m : Option WriteStep) (new disk : B)
    → write_outcome m ≡ ok tt
    → (if is_replaced m then new else disk) ≡ new
unfolding write_outcome is_replaced
written-eq-ok none new disk h = refl
written-eq-ok (some step) new disk h = absurd (cc)

pub write_unlocked-eq-ok :
    (J : SerdeJson) (e : Env) (disk : Disk J) (s : RuntimeState)
    → (write_unlocked J e disk s).1 ≡ ok tt
    → (validate s ≡ ok tt) × ((write_unlocked J e disk s).0 ≡ some (state_file_from_state J s))
unfolding write_unlocked write_json_atomic
write_unlocked-eq-ok J e disk s h =
    let (u, v, done, same) =
      chain-eq-ok (validate s) disk state_error
        (λ _. write_json_atomic J e disk (state_file_from_state J s)) h in
    (v, same ∙ written-eq-ok e.write_fails (some (state_file_from_state J s)) disk done)

pub load_existing-eq-ok :
    (J : SerdeJson) (e : Env) (bytes : J.Bytes) (existing : RuntimeState)
    (found : Option RuntimeState)
    → parse_state_file J bytes ≡ ok existing
    → load_existing_for_merge J e (some bytes) ≡ ok found
    → found ≡ some existing
unfolding load_existing_for_merge read_to_string
load_existing-eq-ok J e bytes existing found p h = elim (Bool-cases e.reread_fails) [
  | inl bad ↦ absurd (ground arith)
  | inr good ↦ ground arith
]

snapshot-eq-ok :
    (J : SerdeJson) (e : Env) (bytes : J.Bytes) (existing s s' : RuntimeState)
    → parse_state_file J bytes ≡ ok existing
    → snapshot J e (some bytes) s ≡ ok s'
    → merge_existing s existing ≡ ok s'
unfolding snapshot merged
snapshot-eq-ok J e bytes existing s s' p h =
    let (found, loaded, h1) = >>=-eq-ok (load_existing_for_merge J e (some bytes)) _ h in
    let is_existing = load_existing-eq-ok J e bytes existing found p loaded in
    let (a, h2) = >>-eq-ok (validate_snapshot_outbound_additions s found) _ h1 in
    let (b, h3) = >>-eq-ok (validate_snapshot_run_input_additions s found) _ h2 in
    let (c, h4) = >>-eq-ok (validate_snapshot_agent_run_transitions s found) _ h3 in
    let (d, h5) = >>-eq-ok (validate_snapshot_run_output_additions s found) _ h4 in
    map_err-eq-ok state_error (merge_existing s existing) (ap (merged s) (sym is_existing) ∙ h5)

save-eq-ok :
    (J : SerdeJson) (e : Env) (bytes : J.Bytes) (existing s : RuntimeState)
    → parse_state_file J bytes ≡ ok existing
    → (save J e (some bytes) s).1 ≡ ok tt
    → (s' : RuntimeState) × (merge_existing s existing ≡ ok s')
      × (validate s' ≡ ok tt)
      × ((save J e (some bytes) s).0 ≡ some (state_file_from_state J s'))
unfolding save save_unlocked
save-eq-ok J e bytes existing s p h = elim (Bool-cases e.lock_poisoned) [
  | inl bad ↦ absurd (ground arith)
  | inr good ↦
      let free : (save_unlocked J e (some bytes) s).1 ≡ ok tt = ground arith in
      let (s', made, done, same) =
        chain-eq-ok (snapshot J e (some bytes) s) (some bytes) (λ x. x)
          (λ t. write_unlocked J e (some bytes) t) free in
      let (valid, left) = write_unlocked-eq-ok J e (some bytes) s' done in
      (s', snapshot-eq-ok J e bytes existing s s' p made, valid, rw good (same ∙ left))
]

from_persisted_parts-valid :
    (p : PersistedStateParts) {s : RuntimeState}
    → from_persisted_parts p ≡ ok s
    → validate s ≡ ok tt
unfolding from_persisted_parts
from_persisted_parts-valid p {s} h =
    let (valid, same) = >>-eq-ok (validate _) _ h in
    subst (λ x. validate x ≡ ok tt) (ok-inj same) valid

into_state-valid :
    (w : RuntimeStateFileWire) {s : RuntimeState} → into_state w ≡ ok s → validate s ≡ ok tt
unfolding into_state
into_state-valid w {s} h =
    let (c, _, made) = >>=-eq-ok (decode_persisted_collections w) _ h in
    let p : PersistedStateParts = record {
      state = record {
        sessions = w.sessions;
        runs = c.runs;
        run_inputs = c.run_inputs;
        inbound_events = c.inbound_events;
        queued_messages = c.queued_messages;
        outbound_deliveries = c.outbound_deliveries;
        updated_at_unix = w.updated_at_unix;
      };
      normalize_aggregate_updated_at = c.normalize_aggregate_updated_at;
    } in
    from_persisted_parts-valid p (map_err-eq-ok Format.state_error (from_persisted_parts p) made)

-- A state that was read is valid.
parse_state_file-valid :
    (J : SerdeJson) (bytes : J.Bytes) {s : RuntimeState}
    → parse_state_file J bytes ≡ ok s
    → validate s ≡ ok tt
unfolding parse_state_file
parse_state_file-valid J bytes {s} h =
    let (w, _, h1) = >>=-eq-ok (ok_or (J.from_str bytes) Format.not_json) _ h in
    let (_, h2) = >>-eq-ok (check_records w) _ h1 in
    let (_, h3) = >>-eq-ok (check_shape J bytes w.version) _ h2 in into_state-valid w h3

-- What a merge with a valid state leaves of its runs.
existing_runs-Kept :
    (existing : RuntimeState) (rs : List RunRecord) {m : List RunRecord}
    → validate existing ≡ ok tt
    → merge_runs existing.runs rs ≡ ok m
    → All (λ r. Kept r m) existing.runs
unfolding find_run
existing_runs-Kept existing rs {m} valid merged =
    All-map (λ r. find (λ x. x.id == r.id) existing.runs ≡ some r) (λ r. Kept r m) existing.runs
      kept
      (find_key-All (λ r. r.id) existing.runs (validate-Consistent existing valid).runs_ok.distinct)
  where
    kept : (r : RunRecord) → find (λ x. x.id == r.id) existing.runs ≡ some r → Kept r m
    kept r found =
        let (v, there, newer) = merge_runs-keeps existing.runs rs r.id r merged found in
        record { version = v; found = there; newer = newer }

-- A save of a state `s` that succeeds over the file of a state `existing` leaves the file of a valid
-- state that loses nothing: each run of `existing` and each run of `s` is found, as it was or in a
-- later version, and the run inputs, the ledger and the deliveries are those of `existing` with new
-- ones after them.
pub save-keeps :
    (J : SerdeJson) (e : Env) (bytes : J.Bytes) (existing s : RuntimeState)
    → parse_state_file J bytes ≡ ok existing
    → (save J e (some bytes) s).1 ≡ ok tt
    → (s' : RuntimeState) × ((save J e (some bytes) s).0 ≡ some (state_file_from_state J s'))
      × (validate s' ≡ ok tt)
      × All (λ r. Kept r s'.runs) existing.runs
      × All (λ r. Kept r s'.runs) s.runs
      × Merged existing s s'
save-keeps J e bytes existing s p h =
    let (s', made, valid, left) = save-eq-ok J e bytes existing s p h in
    let merged = merge_existing-Merged s existing s' made in
    (
      s',
      left,
      valid,
      existing_runs-Kept existing s.runs (parse_state_file-valid J bytes p) merged.runs,
      merge_runs-Kept existing.runs s.runs merged.runs,
      merged,
    )
