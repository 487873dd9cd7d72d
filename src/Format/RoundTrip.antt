-- ===== src/Format/RoundTrip.antt =====
-- Reading what runtime/state/format/current.rs has written.
use ferris_agent_bridge.State.Parts.{from_persisted_parts}
use ferris_agent_bridge.Format.Versioned.{
  required, decode_persisted_collections, decode_8, decode_rest,
}
use ferris_agent_bridge.Run.{RunRecord}
use ferris_agent_bridge.State.{RuntimeState}
use ferris_agent_bridge.Format.{runtime_state_file_version, into_required}
use ferris_agent_bridge.Format.Current.{
  SerdeJson, output_delivery_ids_key, from_state, check_shape, require_current_run_output_fields,
  into_state, parse_state_file, state_file_from_state,
}
use ferris_agent_bridge.State.Validate.{validate}
use ferris_agent_bridge.Base.Text.{text_partial_eq}
use ferris_agent_bridge.Base.{
  ℕ, zero, suc, ◌+◌, ◌-◌, ◌≤◌, ◌<◌, max, ◌≡◌, ◌≢◌, refl, sym, ap, ◌∙◌, subst, ◌↔◌, ◌⊎◌, inl, inr,
  Bool, true, false, not, ◌&&◌, ◌||◌, Option, none, some, List, [], ◌∷◌, ◌++◌, map, arith, Result,
  ok, err, ◌>>=◌, ◌>>◌, fail_if, ok_or, map_err, map_ok, when_some, for_each, if◌then◌else◌, ltb,
  leb, ◌==◌, nat_partial_eq, PartialEq, find, any, is_some, is_nil, contains, All, All-map,
  All-append, Bool-cases, >>=-eq-ok, >>-eq-ok, fail_if-eq-ok, ok_or-eq-ok, map_err-eq-ok, eq_refl,
  eq_sound,
}
use ferris_agent_bridge.Format.Records.{wire_of, run_keys, IsFaithful, records_ok}

run_keys_hit : contains output_delivery_ids_key run_keys ≡ true
unfolding contains ferris_agent_bridge.Base.list_eq
run_keys_hit = refl

shape_ok :
    (i : ℕ) (rs : List RunRecord)
    → require_current_run_output_fields i (map (λ r. some run_keys) rs) ≡ ok tt
unfolding require_current_run_output_fields
shape_ok i [] = refl
shape_ok i (r ∷ rs) = rw run_keys_hit (shape_ok (suc i) rs)

shown :
    (J : SerdeJson) (s : RuntimeState)
    → IsFaithful J
    → check_shape J (J.to_vec_pretty (from_state s)) runtime_state_file_version ≡ ok tt
unfolding check_shape from_state
shown J s faithful = rw (faithful.shows (from_state s)) (shape_ok 0 s.runs)

into_ok : (s : RuntimeState) → validate s ≡ ok tt → into_state (wire_of (from_state s)) ≡ ok s
unfolding into_state decode_persisted_collections decode_8 required decode_rest into_required
    from_persisted_parts from_state
into_ok s h = rw h refl

-- What `parse_state_file` reads of the file that `state_file_from_state` writes for a valid state is
-- that state, as it was, where `serde_json` reads what it writes.
pub parse-state_file_from_state :
    (J : SerdeJson) (s : RuntimeState)
    → IsFaithful J
    → validate s ≡ ok tt
    → parse_state_file J (state_file_from_state J s) ≡ ok s
unfolding parse_state_file state_file_from_state check_shape
parse-state_file_from_state J s faithful h =
    rw (faithful.reads (from_state s)) (rw (records_ok s h) (rw (shown J s faithful) (into_ok s h)))
