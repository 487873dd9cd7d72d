-- ===== src/Store.antt =====
-- runtime/state/store/core.rs and runtime/persistence.rs: how the store loads, saves and writes the
-- state. The disk is the content of the state file, if there is one. What the operating system does in
-- one operation is an `Env`; the lock orders the operations of a process, so that an operation here
-- runs on the disk that the one before it left.
pub mod Deliveries
pub mod Messages
pub mod Calls
pub mod Transact
pub mod Marks
pub mod Replay
pub mod Safety
pub mod Merging
pub mod Kept
pub mod Save
pub mod Runs
use ferris_agent_bridge.Outbox.{status_partial_eq}
use ferris_agent_bridge.State.Validate.{validate}
use ferris_agent_bridge.State.Merge.{
  validate_shared_inbound_event_identity, preserve_runs_from, preserve_run_inputs_from,
  preserve_inbound_events_from, preserve_queued_messages_from, preserve_outbound_deliveries_from,
}
use ferris_agent_bridge.Format.Current.{SerdeJson, state_file_from_state, parse_state_file}
use ferris_agent_bridge.Run.{RunRecord, is_descendant_of, record_partial_eq}
use ferris_agent_bridge.Base.Text.{text_partial_eq}
use ferris_agent_bridge.Base.{
  ℕ, zero, suc, ◌+◌, ◌-◌, ◌≤◌, ◌<◌, max, ◌≡◌, ◌≢◌, refl, sym, ap, ◌∙◌, subst, ◌↔◌, ◌⊎◌, inl, inr,
  Bool, true, false, not, ◌&&◌, ◌||◌, Option, none, some, List, [], ◌∷◌, ◌++◌, map, arith, Result,
  ok, err, ◌>>=◌, ◌>>◌, fail_if, ok_or, map_err, map_ok, when_some, for_each, if◌then◌else◌, ltb,
  leb, ◌==◌, nat_partial_eq, PartialEq, find, any, is_some, is_nil, contains, All, All-map,
  All-append, Bool-cases, >>=-eq-ok, >>-eq-ok, fail_if-eq-ok, ok_or-eq-ok, map_err-eq-ok, eq_refl,
  eq_sound, option_partial_eq, list_partial_eq,
}
use ferris_agent_bridge.State.{RuntimeState, run_input, outbound_delivery, run}
use ferris_agent_bridge.State
use ferris_agent_bridge.Run
use ferris_agent_bridge.Outbox
use ferris_agent_bridge.Format
use mathlib.Core.Option

-- The steps of `write_json_atomic`, each of which may fail. The temporary file has a fresh name that
-- nothing reads, so that it does not show in the disk.
pub data WriteStep : Type 0 where
  parent_dir open_temp permissions write_all sync_all replace_file parent_sync : WriteStep

pub record Env : Type 0 where
  pub lock_poisoned : Bool
  pub read_fails : Bool
  -- The second read, in `load_existing_for_merge`.
  pub reread_fails : Bool
  pub write_fails : Option WriteStep
  pub exists_fails : Bool
  pub sync_fails : Bool
  -- `unix_seconds_now()` in `RuntimeState::new` and in the other operations of the state.
  pub created : ℕ
  pub now : ℕ

pub data Error : Type 0 where
  lock_error read_error : Error
  parse_error : Format.Error → Error
  write_error : WriteStep → Error
  exists_error sync_error : Error
  state_error : State.Error → Error
  new_delivery_not_pending new_run_input new_run_outputs handoff_or_completion : Error
  missing_run : Error
  no_input input_session start_too_early : Error
  no_messages not_agent_authored not_of_session : Error
  finished_elsewhere other_outputs lost_output other_output : Error
  outcome_too_early other_outcome not_running : Error
  delivery_error : Outbox.Error → Error
  resolution_empty other_resolution cannot_resolve : Error

-- Whether the new content is in place after a write: only the last step comes after the replacement.
unfoldable pub is_replaced : Option WriteStep → Bool
is_replaced none = true
is_replaced (some parent_sync) = true
is_replaced (some _) = false

unfoldable pub write_outcome : Option WriteStep → Result Error (Unit {0})
write_outcome none = ok tt
write_outcome (some step) = err (write_error step)

-- `fs::read_to_string`: `none` is `ErrorKind::NotFound`.
unfoldable pub read_to_string : {B : Type 0} → Bool → Option B → Result Error (Option B)
read_to_string fails disk = do fail_if fails read_error; ok disk

unfoldable pub confirm_existing_file_durable :
    {B : Type 0} → Env → Option B → Result Error (Unit {0})
confirm_existing_file_durable e disk = do
  fail_if e.exists_fails exists_error
  fail_if (is_some disk && e.sync_fails) sync_error

-- `existing.and_then(|state| ..).is_some()`
abbrev pub in_existing : {A : Type 0} → (RuntimeState → Option A) → Option RuntimeState → Option A
in_existing look none = none
in_existing look (some s) = look s

unfoldable pub validate_snapshot_outbound_additions :
    RuntimeState → Option RuntimeState → Result Error (Unit {0})
unfolding for_each
validate_snapshot_outbound_additions candidate existing =
    for_each
      (λ d.
        fail_if
          (not (is_some (in_existing (λ s. outbound_delivery s d.id) existing))
            && not (d.status == Outbox.pending))
          new_delivery_not_pending)
      candidate.outbound_deliveries

unfoldable pub validate_snapshot_run_input_additions :
    RuntimeState → Option RuntimeState → Result Error (Unit {0})
unfolding for_each
validate_snapshot_run_input_additions candidate existing =
    for_each
      (λ i.
        fail_if (not (is_some (in_existing (λ s. run_input s i.run_id) existing))) new_run_input)
      candidate.run_inputs

unfoldable pub validate_snapshot_run_output_additions :
    RuntimeState → Option RuntimeState → Result Error (Unit {0})
unfolding for_each
validate_snapshot_run_output_additions candidate existing =
    for_each
      (λ r.
        fail_if
          (not (is_nil r.output_delivery_ids)
            && not (
                Option.map (λ x. x.output_delivery_ids) (in_existing (λ s. run s r.id) existing)
                == some r.output_delivery_ids))
          new_run_outputs)
      candidate.runs

-- One round of `validate_snapshot_agent_run_transitions`. `missing_run` stands for the panic of
-- `expect`.
unfoldable pub check_agent_run : RuntimeState → RunRecord → Result Error (Unit {0})
check_agent_run existing r = if not (is_some (run_input existing r.id)) then ok tt else do
  x ← ok_or (run existing r.id) missing_run
  fail_if
      (not (r == x || is_descendant_of x r)
        && (Run.status_eq r.status Run.running || Run.status_eq r.status Run.completed))
      handoff_or_completion

unfoldable pub validate_snapshot_agent_run_transitions :
    RuntimeState → Option RuntimeState → Result Error (Unit {0})
unfolding for_each check_agent_run
validate_snapshot_agent_run_transitions candidate none = ok tt
validate_snapshot_agent_run_transitions candidate (some existing) =
    for_each (check_agent_run existing) candidate.runs

-- The chain of the `preserve` operations.
unfoldable pub merge_existing : RuntimeState → RuntimeState → Result State.Error RuntimeState
merge_existing s existing = do
  validate_shared_inbound_event_identity s existing
  s1 ← preserve_runs_from s existing
  s2 ← preserve_run_inputs_from s1 existing
  s3 ← preserve_inbound_events_from s2 existing
  s4 ← preserve_queued_messages_from s3 existing
  preserve_outbound_deliveries_from s4 existing

unfoldable pub merged : RuntimeState → Option RuntimeState → Result Error RuntimeState
unfolding merge_existing
merged s none = ok s
merged s (some existing) = map_err state_error (merge_existing s existing)

-- What an operation does to the file when its decision is made.
pub data Effect : Type 0 where
  leave confirm_file : Effect
  save_state write_state : RuntimeState → Effect

abbrev pub both : {B : Type 0} {A : Type 0} → A → B × Result Error (Unit {0}) → B × Result Error A
both a (d, ok u) = (d, ok a)
both a (d, err x) = (d, err x)

module _ (J : SerdeJson) where
  abbrev pub Disk : Type 0
  Disk = Option J.Bytes

  unfoldable pub write_json_atomic : Env → Disk → J.Bytes → Disk × Result Error (Unit {0})
  unfolding is_replaced write_outcome
  write_json_atomic e disk encoded =
      (if is_replaced e.write_fails then some encoded else disk, write_outcome e.write_fails)

  unfoldable pub load : Env → Disk → Result Error RuntimeState
  unfolding read_to_string
  load e disk = do
    input ← read_to_string e.read_fails disk
    elim input [
      | none ↦ ok (State.new e.created)
      | some bytes ↦ map_err parse_error (parse_state_file J bytes)
    ]

  unfoldable pub load_existing_for_merge : Env → Disk → Result Error (Option RuntimeState)
  unfolding read_to_string
  load_existing_for_merge e disk = do
    input ← read_to_string e.reread_fails disk
    elim input [
      | none ↦ ok none
      | some bytes ↦ map_ok some (map_err parse_error (parse_state_file J bytes))
    ]

  -- The content that `write_unlocked` puts in place, and whether it succeeds.
  unfoldable pub write_unlocked : Env → Disk → RuntimeState → Disk × Result Error (Unit {0})
  unfolding write_json_atomic state_file_from_state
  write_unlocked e disk s = elim (validate s) [
    | err x ↦ (disk, err (state_error x))
    | ok u ↦ write_json_atomic e disk (state_file_from_state J s)
  ]

  -- What `save_unlocked` writes.
  unfoldable pub snapshot : Env → Disk → RuntimeState → Result Error RuntimeState
  unfolding load_existing_for_merge
  snapshot e disk s = do
    existing ← load_existing_for_merge e disk
    validate_snapshot_outbound_additions s existing
    validate_snapshot_run_input_additions s existing
    validate_snapshot_agent_run_transitions s existing
    validate_snapshot_run_output_additions s existing
    merged s existing

  unfoldable pub save_unlocked : Env → Disk → RuntimeState → Disk × Result Error (Unit {0})
  unfolding snapshot write_unlocked
  save_unlocked e disk s = elim (snapshot e disk s) [
    | err x ↦ (disk, err x)
    | ok s' ↦ write_unlocked e disk s'
  ]

  -- `StateStore::save`
  unfoldable pub save : Env → Disk → RuntimeState → Disk × Result Error (Unit {0})
  unfolding save_unlocked
  save e disk s = if e.lock_poisoned then (disk, err lock_error) else save_unlocked e disk s

  unfoldable pub perform : Env → Disk → Effect → Disk × Result Error (Unit {0})
  unfolding confirm_existing_file_durable save_unlocked write_unlocked
  perform e disk leave = (disk, ok tt)
  perform e disk confirm_file = (disk, confirm_existing_file_durable e disk)
  perform e disk (save_state s) = save_unlocked e disk s
  perform e disk (write_state s) = write_unlocked e disk s

  -- The shape of every operation that takes the lock: load the state, decide on it, then do one thing
  -- to the file and return.
  unfoldable pub transact :
      {A : Type 0} → Env → Disk → (RuntimeState → Result Error (Effect × A)) → Disk × Result Error A
  unfolding load perform
  transact e disk decide =
      let decided = do fail_if e.lock_poisoned lock_error; s ← load e disk; decide s
      in elim decided [ err x ↦ (disk, err x) | ok found ↦ both found.1 (perform e disk found.0) ]
