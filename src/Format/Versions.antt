-- ===== src/Format/Versions.antt =====
-- What the versions of the state file can hold.
use ferris_agent_bridge.Format.{
  RuntimeStateFileWire, PersistedCollections, run_records, event_records, delivery_records,
  message_records, input_records,
}
use ferris_agent_bridge.Format.Versioned.{
  reject_interrupted_runs, reject_output_linked_runs, required, decode_7, decode_8, decode_6,
  decode_persisted_collections, decode_rest,
}
use ferris_agent_bridge.Base.Text.{text_partial_eq}
use ferris_agent_bridge.Base.{
  ◌≡◌, subst, inl, inr, arith, ok, ◌==◌, nat_partial_eq, All, Bool-cases, >>=-eq-ok, >>-eq-ok,
  eq_sound,
}
use ferris_agent_bridge.Format.Fields.{
  NotInterrupted, NoOutputs, Decoded, interrupted-All, linked-All, by_now,
}
use ferris_agent_bridge.Format.Early.{
  decode_1-Decoded, decode_2-Decoded, decode_3-Decoded, decode_4-Decoded, decode_5-Decoded,
}

decode_6-Decoded :
    (w : RuntimeStateFileWire) {c : PersistedCollections}
    → w.version ≡ 6
    → decode_6 w ≡ ok c
    → Decoded w c
unfolding decode_6 decode_rest
decode_6-Decoded w {c} v h =
    let (runs, has_runs, h1) = >>=-eq-ok (required 6 run_records w.runs) _ h in
    let (uninterrupted, h2) = >>-eq-ok (reject_interrupted_runs 6 runs) _ h1 in
    let (unlinked, h3) = >>-eq-ok (reject_output_linked_runs 6 runs) _ h2 in
    let (events, has_events, h4) = >>=-eq-ok (required 6 event_records w.inbound_events) _ h3 in
    let (deliveries, has_deliveries, h5) =
      >>=-eq-ok (required 6 delivery_records w.outbound_deliveries) _ h4 in
    let (messages, has_messages, h6) =
      >>=-eq-ok (required 6 message_records w.queued_messages) _ h5 in
    let (inputs, has_inputs, h7) = >>=-eq-ok (required 6 input_records w.run_inputs) _ h6 in
    let same : runs ≡ c.runs = ground arith in
    record {
      oldest = ground arith;
      newest = ground arith;
      runs = by_now run_records w.runs runs c.runs v (omega arith) has_runs (ground arith);
      inbound_events =
          by_now event_records w.inbound_events events c.inbound_events v (omega arith) has_events
            (ground arith);
      outbound_deliveries =
          by_now delivery_records w.outbound_deliveries deliveries c.outbound_deliveries v
            (omega arith) has_deliveries (ground arith);
      queued_messages =
          by_now message_records w.queued_messages messages c.queued_messages v (omega arith)
            has_messages (ground arith);
      run_inputs =
          by_now input_records w.run_inputs inputs c.run_inputs v (omega arith) has_inputs
            (ground arith);
      interrupted_late =
          inr (subst (All NotInterrupted) same (interrupted-All 6 runs uninterrupted));
      outputs_late = inr (subst (All NoOutputs) same (linked-All 6 runs unlinked));
      normalized = ground arith;
    }

decode_7-Decoded :
    (w : RuntimeStateFileWire) {c : PersistedCollections}
    → w.version ≡ 7
    → decode_7 w ≡ ok c
    → Decoded w c
unfolding decode_7 decode_rest
decode_7-Decoded w {c} v h =
    let (runs, has_runs, h1) = >>=-eq-ok (required 7 run_records w.runs) _ h in
    let (unlinked, h2) = >>-eq-ok (reject_output_linked_runs 7 runs) _ h1 in
    let (events, has_events, h3) = >>=-eq-ok (required 7 event_records w.inbound_events) _ h2 in
    let (deliveries, has_deliveries, h4) =
      >>=-eq-ok (required 7 delivery_records w.outbound_deliveries) _ h3 in
    let (messages, has_messages, h5) =
      >>=-eq-ok (required 7 message_records w.queued_messages) _ h4 in
    let (inputs, has_inputs, h6) = >>=-eq-ok (required 7 input_records w.run_inputs) _ h5 in
    let same : runs ≡ c.runs = ground arith in
    record {
      oldest = ground arith;
      newest = ground arith;
      runs = by_now run_records w.runs runs c.runs v (omega arith) has_runs (ground arith);
      inbound_events =
          by_now event_records w.inbound_events events c.inbound_events v (omega arith) has_events
            (ground arith);
      outbound_deliveries =
          by_now delivery_records w.outbound_deliveries deliveries c.outbound_deliveries v
            (omega arith) has_deliveries (ground arith);
      queued_messages =
          by_now message_records w.queued_messages messages c.queued_messages v (omega arith)
            has_messages (ground arith);
      run_inputs =
          by_now input_records w.run_inputs inputs c.run_inputs v (omega arith) has_inputs
            (ground arith);
      interrupted_late = inl (ground arith);
      outputs_late = inr (subst (All NoOutputs) same (linked-All 7 runs unlinked));
      normalized = ground arith;
    }

decode_8-Decoded :
    (w : RuntimeStateFileWire) {c : PersistedCollections}
    → w.version ≡ 8
    → decode_8 w ≡ ok c
    → Decoded w c
unfolding decode_8 decode_rest
decode_8-Decoded w {c} v h =
    let (runs, has_runs, h1) = >>=-eq-ok (required 8 run_records w.runs) _ h in
    let (events, has_events, h2) = >>=-eq-ok (required 8 event_records w.inbound_events) _ h1 in
    let (deliveries, has_deliveries, h3) =
      >>=-eq-ok (required 8 delivery_records w.outbound_deliveries) _ h2 in
    let (messages, has_messages, h4) =
      >>=-eq-ok (required 8 message_records w.queued_messages) _ h3 in
    let (inputs, has_inputs, h5) = >>=-eq-ok (required 8 input_records w.run_inputs) _ h4 in
    record {
      oldest = ground arith;
      newest = ground arith;
      runs = by_now run_records w.runs runs c.runs v (omega arith) has_runs (ground arith);
      inbound_events =
          by_now event_records w.inbound_events events c.inbound_events v (omega arith) has_events
            (ground arith);
      outbound_deliveries =
          by_now delivery_records w.outbound_deliveries deliveries c.outbound_deliveries v
            (omega arith) has_deliveries (ground arith);
      queued_messages =
          by_now message_records w.queued_messages messages c.queued_messages v (omega arith)
            has_messages (ground arith);
      run_inputs =
          by_now input_records w.run_inputs inputs c.run_inputs v (omega arith) has_inputs
            (ground arith);
      interrupted_late = inl (ground arith);
      outputs_late = inl (ground arith);
      normalized = ground arith;
    }

-- Only the versions 1 to 8 are decoded. Each collection of the result is empty before the version that
-- brought its records (and the file must then not have the field), and is what the field holds from
-- that version on (and the file must then have it). Runs are interrupted only from the version 7 on
-- and own outputs only from the version 8 on, and the time of the state is made up to its records
-- exactly for the versions 1 and 2.
pub decode-Decoded :
    (w : RuntimeStateFileWire) (c : PersistedCollections)
    → decode_persisted_collections w ≡ ok c
    → Decoded w c
unfolding decode_persisted_collections
decode-Decoded w c h = elim (Bool-cases (w.version == 1)) [
  | inl t1 ↦ decode_1-Decoded w (eq_sound w.version 1 t1) (ground arith)
  | inr f1 ↦ elim (Bool-cases (w.version == 2)) [
    | inl t2 ↦ decode_2-Decoded w (eq_sound w.version 2 t2) (ground arith)
    | inr f2 ↦ elim (Bool-cases (w.version == 3)) [
      | inl t3 ↦ decode_3-Decoded w (eq_sound w.version 3 t3) (ground arith)
      | inr f3 ↦ elim (Bool-cases (w.version == 4)) [
        | inl t4 ↦ decode_4-Decoded w (eq_sound w.version 4 t4) (ground arith)
        | inr f4 ↦ elim (Bool-cases (w.version == 5)) [
          | inl t5 ↦ decode_5-Decoded w (eq_sound w.version 5 t5) (ground arith)
          | inr f5 ↦ elim (Bool-cases (w.version == 6)) [
            | inl t6 ↦ decode_6-Decoded w (eq_sound w.version 6 t6) (ground arith)
            | inr f6 ↦ elim (Bool-cases (w.version == 7)) [
              | inl t7 ↦ decode_7-Decoded w (eq_sound w.version 7 t7) (ground arith)
              | inr f7 ↦ elim (Bool-cases (w.version == 8)) [
                | inl t8 ↦ decode_8-Decoded w (eq_sound w.version 8 t8) (ground arith)
                | inr f8 ↦ ground arith
              ]
            ]
          ]
        ]
      ]
    ]
  ]
]
