-- ===== src/Worker/Ending.antt =====
-- The last step of a round of runtime/outbox/worker.rs: the answer of the adapter is marked and returned.
use ferris_agent_bridge.Adapter
use ferris_agent_bridge.Adapter.{ImAdapter, OutboundDeliveryFailure}
use ferris_agent_bridge.Worker
use ferris_agent_bridge.Worker.{finish, marked, Round, finished, OutboxWorkerOutcome}
use ferris_agent_bridge.Outbox
use ferris_agent_bridge.Outbox.{
  OutboundDeliveryAttempt, OutboundDeliveryRecord, OutboundDeliveryStatus, Transition,
}
use ferris_agent_bridge.Outbox.Retry.{OutboundRetryPolicy}
use ferris_agent_bridge.State
use ferris_agent_bridge.State.{RuntimeState, outbound_delivery, find_delivery, touch_at}
use ferris_agent_bridge.State.Deliveries.{update_delivery}
use ferris_agent_bridge.Store
use ferris_agent_bridge.Store.{Disk, Env, load, parent_sync}
use ferris_agent_bridge.Store.Deliveries
use ferris_agent_bridge.Store.Deliveries.{write_marked}
use ferris_agent_bridge.Store.Marks.{Refused, write_marked-Marking}
use ferris_agent_bridge.Format.Current.{SerdeJson}
use ferris_agent_bridge.Base.Text.{text_partial_eq, Text}
use ferris_agent_bridge.Base.{◌≡◌, refl, sym, ap, ◌⊎◌, inl, inr, none, some, Result, ok, err, subst}
use ferris_agent_bridge.Worker.Recorded.{
  Answer, answered, outcome_of, marks, IsRecorded, marked-IsRecorded,
}

module _ (J : SerdeJson) (A : ImAdapter) (policy : OutboundRetryPolicy) (w : Round) (disk : Disk J)
    (a : OutboundDeliveryAttempt) where
  unconfirmed : Answer → Store.Error → Worker.Error
  unconfirmed (ok u) = Worker.delivered_unconfirmed
  unconfirmed (err failure) = elim failure.kind [
    | Adapter.retryable ↦ Worker.failed_unconfirmed
    | Adapter.uncertain ↦ Worker.uncertain_unconfirmed
  ]

  -- How a round ends that got `answer` from the adapter. Either it returns an error and leaves the
  -- file, for a reason that the store has; or the answer is in the file, and the round says so, unless
  -- the synchronization of the directory failed.
  abbrev pub IsEnd : Answer → Disk J → Result Worker.Error OutboxWorkerOutcome → Type 0
  IsEnd answer left m =
      ((left ≡ disk)
        × ((x : Worker.Error) × (m ≡ err x))
        × Refused J w.marking disk (marks w.marking a.delivery_id (finished J A policy w) answer))
      ⊎ ((k : IsRecorded J w.marking disk left a.delivery_id (finished J A policy w) answer) × (((m
                ≡ ok
                    (outcome_of policy a answer (answered (finished J A policy w) answer k.before)))
              × (w.marking.write_fails ≡ none))
            ⊎ ((x : Worker.Error) × (m ≡ err x) × (w.marking.write_fails ≡ some parent_sync))))

  finish_lem :
      (adapter : A.Self) (answer : Answer)
      → finish J A policy w disk a (adapter, answer)
        ≡ marked J A policy adapter
            (write_marked J w.marking disk
              (marks w.marking a.delivery_id (finished J A policy w) answer))
            (unconfirmed answer)
            (outcome_of policy a answer)
  unfolding finish unconfirmed Outbox.apply Deliveries.mark_outbound_delivery_delivered
      Deliveries.mark_outbound_delivery_failed Deliveries.mark_outbound_delivery_uncertain
      State.Deliveries.mark_outbound_delivery_delivered
      State.Deliveries.mark_outbound_delivery_failed
      State.Deliveries.mark_outbound_delivery_uncertain
  finish_lem adapter (ok u) = refl
  finish_lem adapter (err failure) = by_kind failure.kind failure.message
    where
      by_kind :
          (kind : Adapter.OutboundDeliveryFailureKind) (message : Text)
          → let answer : Answer = err (record { kind = kind; message = message }) in
            finish J A policy w disk a (adapter, answer)
            ≡ marked J A policy adapter
                (write_marked J w.marking disk
                  (marks w.marking a.delivery_id (finished J A policy w) answer))
                (unconfirmed answer)
                (outcome_of policy a answer)
      by_kind Adapter.retryable message = refl
      by_kind Adapter.uncertain message = refl

  marked-IsEnd :
      (adapter : A.Self) (answer : Answer)
      → let p =
          marked J A policy adapter
            (write_marked J w.marking disk
              (marks w.marking a.delivery_id (finished J A policy w) answer))
            (unconfirmed answer)
            (outcome_of policy a answer) in
        (p.adapter ≡ adapter) × IsEnd answer p.disk p.answer
  unfolding marked
  marked-IsEnd adapter answer = (
    refl,
    elim (write_marked-Marking J w.marking disk
        (marks w.marking a.delivery_id (finished J A policy w) answer)) [
          | inl (kept, (x, failed), why) ↦ inl (kept, (unconfirmed answer x, rw failed refl), why)
          | inr (k, said) ↦
              let (r, same) =
                marked-IsRecorded J w.marking disk _ a.delivery_id (finished J A policy w) answer
                  k in
              inr (
                r,
                elim said [
                  | inl (done, clean) ↦
                      inl (rw done (ap (λ d. ok (outcome_of policy a answer d)) same), clean)
                  | inr (x, failed, unsynced) ↦ inr (unconfirmed answer x, rw failed refl, unsynced)
                ],
              )
        ],
  )

  -- A round that has the answer of the adapter does not call it again, and ends as it should.
  pub finish-IsEnd :
      (adapter : A.Self) (answer : Answer)
      → let p = finish J A policy w disk a (adapter, answer) in
        (p.adapter ≡ adapter) × IsEnd answer p.disk p.answer
  finish-IsEnd adapter answer =
      subst (λ p. (p.adapter ≡ adapter) × IsEnd answer p.disk p.answer)
        (sym (finish_lem adapter answer)) (marked-IsEnd adapter answer)
