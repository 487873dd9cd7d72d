-- ===== src/Format/Early.antt =====
-- What the versions 1 to 5 hold.
use ferris_agent_bridge.Format.{
  RuntimeStateFileWire, PersistedCollections, run_records, event_records, delivery_records,
  message_records, input_records,
}
use ferris_agent_bridge.Format.Versioned.{
  absent, reject_interrupted_runs, reject_output_linked_runs, decode_1, required, decode_5,
  decode_2, decode_3, decode_4,
}
use ferris_agent_bridge.Base.Text.{text_partial_eq}
use ferris_agent_bridge.Base.{
  ◌≡◌, sym, subst, inr, [], arith, ok, nat_partial_eq, All, >>=-eq-ok, >>-eq-ok,
}
use ferris_agent_bridge.Format.Fields.{
  NotInterrupted, NoOutputs, Decoded, interrupted-All, linked-All, not_yet, by_now,
}

pub decode_1-Decoded :
    (w : RuntimeStateFileWire) {c : PersistedCollections}
    → w.version ≡ 1
    → decode_1 w ≡ ok c
    → Decoded w c
unfolding decode_1
decode_1-Decoded w {c} v h =
    let (no_runs, h1) = >>-eq-ok (absent 1 run_records w.runs) _ h in
    let (no_events, h2) = >>-eq-ok (absent 1 event_records w.inbound_events) _ h1 in
    let (no_deliveries, h3) = >>-eq-ok (absent 1 delivery_records w.outbound_deliveries) _ h2 in
    let (no_messages, h4) = >>-eq-ok (absent 1 message_records w.queued_messages) _ h3 in
    let (no_inputs, h5) = >>-eq-ok (absent 1 input_records w.run_inputs) _ h4 in
    let no_runs_left : c.runs ≡ [] = ground arith in
    record {
      oldest = ground arith;
      newest = ground arith;
      runs = not_yet run_records w.runs c.runs v (omega arith) no_runs (ground arith);
      inbound_events =
          not_yet event_records w.inbound_events c.inbound_events v (omega arith) no_events
            (ground arith);
      outbound_deliveries =
          not_yet delivery_records w.outbound_deliveries c.outbound_deliveries v (omega arith)
            no_deliveries (ground arith);
      queued_messages =
          not_yet message_records w.queued_messages c.queued_messages v (omega arith) no_messages
            (ground arith);
      run_inputs =
          not_yet input_records w.run_inputs c.run_inputs v (omega arith) no_inputs (ground arith);
      interrupted_late = inr (subst (All NotInterrupted) (sym no_runs_left) tt);
      outputs_late = inr (subst (All NoOutputs) (sym no_runs_left) tt);
      normalized = ground arith;
    }

pub decode_2-Decoded :
    (w : RuntimeStateFileWire) {c : PersistedCollections}
    → w.version ≡ 2
    → decode_2 w ≡ ok c
    → Decoded w c
unfolding decode_2
decode_2-Decoded w {c} v h =
    let (runs, has_runs, h1) = >>=-eq-ok (required 2 run_records w.runs) _ h in
    let (uninterrupted, h2) = >>-eq-ok (reject_interrupted_runs 2 runs) _ h1 in
    let (unlinked, h3) = >>-eq-ok (reject_output_linked_runs 2 runs) _ h2 in
    let (no_events, h4) = >>-eq-ok (absent 2 event_records w.inbound_events) _ h3 in
    let (no_deliveries, h5) = >>-eq-ok (absent 2 delivery_records w.outbound_deliveries) _ h4 in
    let (no_messages, h6) = >>-eq-ok (absent 2 message_records w.queued_messages) _ h5 in
    let (no_inputs, h7) = >>-eq-ok (absent 2 input_records w.run_inputs) _ h6 in
    let same : runs ≡ c.runs = ground arith in
    record {
      oldest = ground arith;
      newest = ground arith;
      runs = by_now run_records w.runs runs c.runs v (omega arith) has_runs (ground arith);
      inbound_events =
          not_yet event_records w.inbound_events c.inbound_events v (omega arith) no_events
            (ground arith);
      outbound_deliveries =
          not_yet delivery_records w.outbound_deliveries c.outbound_deliveries v (omega arith)
            no_deliveries (ground arith);
      queued_messages =
          not_yet message_records w.queued_messages c.queued_messages v (omega arith) no_messages
            (ground arith);
      run_inputs =
          not_yet input_records w.run_inputs c.run_inputs v (omega arith) no_inputs (ground arith);
      interrupted_late =
          inr (subst (All NotInterrupted) same (interrupted-All 2 runs uninterrupted));
      outputs_late = inr (subst (All NoOutputs) same (linked-All 2 runs unlinked));
      normalized = ground arith;
    }

pub decode_3-Decoded :
    (w : RuntimeStateFileWire) {c : PersistedCollections}
    → w.version ≡ 3
    → decode_3 w ≡ ok c
    → Decoded w c
unfolding decode_3
decode_3-Decoded w {c} v h =
    let (runs, has_runs, h1) = >>=-eq-ok (required 3 run_records w.runs) _ h in
    let (uninterrupted, h2) = >>-eq-ok (reject_interrupted_runs 3 runs) _ h1 in
    let (unlinked, h3) = >>-eq-ok (reject_output_linked_runs 3 runs) _ h2 in
    let (events, has_events, h4) = >>=-eq-ok (required 3 event_records w.inbound_events) _ h3 in
    let (no_deliveries, h5) = >>-eq-ok (absent 3 delivery_records w.outbound_deliveries) _ h4 in
    let (no_messages, h6) = >>-eq-ok (absent 3 message_records w.queued_messages) _ h5 in
    let (no_inputs, h7) = >>-eq-ok (absent 3 input_records w.run_inputs) _ h6 in
    let same : runs ≡ c.runs = ground arith in
    record {
      oldest = ground arith;
      newest = ground arith;
      runs = by_now run_records w.runs runs c.runs v (omega arith) has_runs (ground arith);
      inbound_events =
          by_now event_records w.inbound_events events c.inbound_events v (omega arith) has_events
            (ground arith);
      outbound_deliveries =
          not_yet delivery_records w.outbound_deliveries c.outbound_deliveries v (omega arith)
            no_deliveries (ground arith);
      queued_messages =
          not_yet message_records w.queued_messages c.queued_messages v (omega arith) no_messages
            (ground arith);
      run_inputs =
          not_yet input_records w.run_inputs c.run_inputs v (omega arith) no_inputs (ground arith);
      interrupted_late =
          inr (subst (All NotInterrupted) same (interrupted-All 3 runs uninterrupted));
      outputs_late = inr (subst (All NoOutputs) same (linked-All 3 runs unlinked));
      normalized = ground arith;
    }

pub decode_4-Decoded :
    (w : RuntimeStateFileWire) {c : PersistedCollections}
    → w.version ≡ 4
    → decode_4 w ≡ ok c
    → Decoded w c
unfolding decode_4
decode_4-Decoded w {c} v h =
    let (runs, has_runs, h1) = >>=-eq-ok (required 4 run_records w.runs) _ h in
    let (uninterrupted, h2) = >>-eq-ok (reject_interrupted_runs 4 runs) _ h1 in
    let (unlinked, h3) = >>-eq-ok (reject_output_linked_runs 4 runs) _ h2 in
    let (events, has_events, h4) = >>=-eq-ok (required 4 event_records w.inbound_events) _ h3 in
    let (deliveries, has_deliveries, h5) =
      >>=-eq-ok (required 4 delivery_records w.outbound_deliveries) _ h4 in
    let (no_messages, h6) = >>-eq-ok (absent 4 message_records w.queued_messages) _ h5 in
    let (no_inputs, h7) = >>-eq-ok (absent 4 input_records w.run_inputs) _ h6 in
    let same : runs ≡ c.runs = ground arith in
    record {
      oldest = ground arith;
      newest = ground arith;
      runs = by_now run_records w.runs runs c.runs v (omega arith) has_runs (ground arith);
      inbound_events =
          by_now event_records w.inbound_events events c.inbound_events v (omega arith) has_events
            (ground arith);
      outbound_deliveries =
          by_now delivery_records w.outbound_deliveries deliveries c.outbound_deliveries v
            (omega arith) has_deliveries (ground arith);
      queued_messages =
          not_yet message_records w.queued_messages c.queued_messages v (omega arith) no_messages
            (ground arith);
      run_inputs =
          not_yet input_records w.run_inputs c.run_inputs v (omega arith) no_inputs (ground arith);
      interrupted_late =
          inr (subst (All NotInterrupted) same (interrupted-All 4 runs uninterrupted));
      outputs_late = inr (subst (All NoOutputs) same (linked-All 4 runs unlinked));
      normalized = ground arith;
    }

pub decode_5-Decoded :
    (w : RuntimeStateFileWire) {c : PersistedCollections}
    → w.version ≡ 5
    → decode_5 w ≡ ok c
    → Decoded w c
unfolding decode_5
decode_5-Decoded w {c} v h =
    let (runs, has_runs, h1) = >>=-eq-ok (required 5 run_records w.runs) _ h in
    let (uninterrupted, h2) = >>-eq-ok (reject_interrupted_runs 5 runs) _ h1 in
    let (unlinked, h3) = >>-eq-ok (reject_output_linked_runs 5 runs) _ h2 in
    let (events, has_events, h4) = >>=-eq-ok (required 5 event_records w.inbound_events) _ h3 in
    let (messages, has_messages, h5) =
      >>=-eq-ok (required 5 message_records w.queued_messages) _ h4 in
    let (deliveries, has_deliveries, h6) =
      >>=-eq-ok (required 5 delivery_records w.outbound_deliveries) _ h5 in
    let (no_inputs, h7) = >>-eq-ok (absent 5 input_records w.run_inputs) _ h6 in
    let same : runs ≡ c.runs = ground arith in
    record {
      oldest = ground arith;
      newest = ground arith;
      runs = by_now run_records w.runs runs c.runs v (omega arith) has_runs (ground arith);
      inbound_events =
          by_now event_records w.inbound_events events c.inbound_events v (omega arith) has_events
            (ground arith);
      outbound_deliveries =
          by_now delivery_records w.outbound_deliveries deliveries c.outbound_deliveries v
            (omega arith) has_deliveries (ground arith);
      queued_messages =
          by_now message_records w.queued_messages messages c.queued_messages v (omega arith)
            has_messages (ground arith);
      run_inputs =
          not_yet input_records w.run_inputs c.run_inputs v (omega arith) no_inputs (ground arith);
      interrupted_late =
          inr (subst (All NotInterrupted) same (interrupted-All 5 runs uninterrupted));
      outputs_late = inr (subst (All NoOutputs) same (linked-All 5 runs unlinked));
      normalized = ground arith;
    }
