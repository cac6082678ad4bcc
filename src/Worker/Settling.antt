-- ===== src/Worker/Settling.antt =====
-- A turn of the outbox leaves none of its events in the worker's hands.
use gift_hub.Prelude.{
  ℕ, ◌∙◌, String, ◌≡◌, refl, sym, ap, subst, List, [], ◌∷◌, str_eq, All, update_rows, inl,
  if◌then◌else◌,
}
use gift_hub.Prelude.Dict.{lookup}
use gift_hub.Outbox.{
  OutboxEvent, has_id, finish, fail_row, mark_processed, mark_failed, claim_pending_events, seconds,
}
use gift_hub.Session.{Session, Result, ok, err, continue}
use gift_hub.Session.Keeps.{Keeps, lift, branch, ◌>>=◌, ◌>>◌}
use gift_hub.Session.Returns.{Returns, if-Returns, lift-Returns, after-Returns}
use gift_hub.Fulfillment.{Answer, Client, catching, fulfill_order_automated}
use gift_hub.Fulfillment.Events.{Same, fulfill-Same, guard}
use gift_hub.Worker.Outcomes.{
  Open, IsSettled, ids, fail_row-Outcome, fail_row-id, mark-settles, mark-keeps, ids-update,
  claim-ids,
}
use gift_hub.Worker.{
  Tools, is_success, to_int, processed_event, failed_event, settle, error_of, request_delivery,
  is_message, send_message, handle_event, process_event, claim_events, for_each,
  process_outbox_events,
}

-- What the client is asked for: it leaves the table of events alone.
abbrev pub KeepsEvents : Client → Type 0
KeepsEvents client = (events : List OutboxEvent) (i : ℕ) → Keeps (Same events) (client i)

module _ (t : Tools) where
  abbrev clock : ℕ
  clock = t.call.env.now

  processed-settles : (i : ℕ) (s : Session) → IsSettled clock i (processed_event t.call i s).1
  unfolding mark_processed finish
  processed-settles i s =
      mark-settles clock i (finish clock) (λ e. refl) (λ e. inl refl) s.db.outbox_events

  failed-settles :
      (i : ℕ) (s : Session) (error : String) → IsSettled clock i (failed_event t.call i error s).1
  unfolding mark_failed
  failed-settles i s error =
      mark-settles clock i (fail_row clock error) (fail_row-id clock error)
        (fail_row-Outcome clock error) s.db.outbox_events

  settle-settles :
      (i : ℕ) (a : Answer) (s : Session)
      → Returns (λ u s'. IsSettled clock i s') (settle t.call i a s)
  settle-settles i a s =
      if-Returns (λ u s'. IsSettled clock i s') (is_success a) _ _ s (processed-settles i s)
        (failed-settles i s _)

  handle-settles :
      (ev : OutboxEvent) (s : Session)
      → Returns (λ u s'. IsSettled clock ev.id s') (handle_event t ev s)
  unfolding handle_event
  handle-settles ev s =
      let Q = λ (u : Unit {0}) (s' : Session). IsSettled clock ev.id s' in
      let done = processed_event t.call ev.id in
      if-Returns Q (str_eq ev.event_type "ORDER_FULFILLMENT_REQUESTED") (request_delivery t ev)
        (if is_message ev.event_type then send_message t ev else done) s
        (lift-Returns Q (to_int (lookup "order_id" ev.payload)) _ s (λ order_id.
          after-Returns Q (fulfill_order_automated t.client t.call order_id s) (settle t.call ev.id)
            (settle-settles ev.id)))
        (if-Returns Q (is_message ev.event_type) (send_message t ev) done s
          (lift-Returns Q (t.notify ev) (λ u. done) s (λ u. processed-settles ev.id s))
          (processed-settles ev.id s))

  catching-settles :
      (i : ℕ) (r : Result (Unit {0}) × Session)
      → Returns (λ u s'. IsSettled clock i s') r
      → let q = catching r.0 (λ e. failed_event t.call i (t.call.describe e)) r.1 in
        (q.0 ≡ ok tt) × IsSettled clock i q.1
  catching-settles i (ok u, s) h = (refl, h)
  catching-settles i (err e, s) h = (refl, failed-settles i s (t.call.describe e))

  process-settles :
      (ev : OutboxEvent) (s : Session)
      → ((process_event t ev s).0 ≡ ok tt) × IsSettled clock ev.id (process_event t ev s).1
  unfolding process_event
  process-settles ev s = catching-settles ev.id (handle_event t ev s) (handle-settles ev s)

  -- What the marks of the worker keep of the table of events, its turn keeps.
  module _ (keeps : KeepsEvents t.client) (Q : List OutboxEvent → Type 0)
      (finished : (i : ℕ) (es : List OutboxEvent) → Q es → Q (mark_processed clock i es))
      (delayed : (i : ℕ) (error : String) (es : List OutboxEvent)
        → Q es
        → Q (update_rows (has_id i) (fail_row clock error) es)) where
    abbrev Kept : Session → Type 0
    Kept s = Q s.db.outbox_events

    processed-Keeps : (i : ℕ) → Keeps Kept (processed_event t.call i)
    processed-Keeps i s h = finished i s.db.outbox_events h

    failed-Keeps : (i : ℕ) (error : String) → Keeps Kept (failed_event t.call i error)
    unfolding mark_failed
    failed-Keeps i error s h = delayed i error s.db.outbox_events h

    settle-Keeps : (i : ℕ) (a : Answer) → Keeps Kept (settle t.call i a)
    settle-Keeps i a =
        (branch (is_success a) (processed_event t.call i, processed-Keeps i)
          (
            failed_event t.call i (error_of "Fulfillment failed" a),
            failed-Keeps i (error_of "Fulfillment failed" a),
          )).1

    fulfill-Keeps : (i : ℕ) → Keeps Kept (fulfill_order_automated t.client t.call i)
    fulfill-Keeps i s h =
        let same =
          fulfill-Same s.db.outbox_events t.client (keeps s.db.outbox_events) t.call i s refl in
        subst Q (sym same) h

    handle-Keeps : (ev : OutboxEvent) → Keeps Kept (handle_event t ev)
    unfolding handle_event
    handle-Keeps ev =
        (branch (str_eq ev.event_type "ORDER_FULFILLMENT_REQUESTED")
          (do
            order_id ← lift (to_int (lookup "order_id" ev.payload))
            res ← (fulfill_order_automated t.client t.call order_id, fulfill-Keeps order_id)
            (settle t.call ev.id res, settle-Keeps ev.id res))
          (branch (is_message ev.event_type)
            (do lift (t.notify ev); (processed_event t.call ev.id, processed-Keeps ev.id))
            (processed_event t.call ev.id, processed-Keeps ev.id))).1

    process-Keeps : (ev : OutboxEvent) → Keeps Kept (process_event t ev)
    unfolding process_event
    process-Keeps ev =
        (guard (handle_event t ev, handle-Keeps ev)
          (λ e. (
            failed_event t.call ev.id (t.call.describe e),
            failed-Keeps ev.id (t.call.describe e),
          ))).1

    for_each-Keeps : (evs : List OutboxEvent) → Keeps Kept (for_each (process_event t) evs)
    for_each-Keeps [] = λ s h. h
    for_each-Keeps (ev ∷ evs) =
        (do
          (process_event t ev, process-Keeps ev)
          (for_each (process_event t) evs, for_each-Keeps evs)).1

  module _ (keeps : KeepsEvents t.client) where
    for_each-IsSettled :
        (j : ℕ) (evs : List OutboxEvent)
        → Keeps (IsSettled clock j) (for_each (process_event t) evs)
    unfolding mark_processed finish
    for_each-IsSettled j evs =
        for_each-Keeps keeps (All (Open clock j))
          (λ i. mark-keeps clock i (finish clock) (λ e. refl) (λ e. inl refl) j)
          (λ i error.
            mark-keeps clock i (fail_row clock error) (fail_row-id clock error)
              (fail_row-Outcome clock error) j)
          evs

    for_each-ids :
        (evs : List OutboxEvent) (s : Session)
        → ids (for_each (process_event t) evs s).1.db.outbox_events ≡ ids s.db.outbox_events
    unfolding mark_processed finish
    for_each-ids evs s =
        for_each-Keeps keeps (λ es. ids es ≡ ids s.db.outbox_events)
          (λ i es h. ids-update (has_id i) (finish clock) es (λ e. refl) ∙ h)
          (λ i error es h.
            ids-update (has_id i) (fail_row clock error) es (fail_row-id clock error) ∙ h)
          evs s refl

    for_each-settles :
        (evs : List OutboxEvent) (s : Session)
        → let r = for_each (process_event t) evs s in
          (r.0 ≡ ok tt) × All (λ ev. IsSettled clock ev.id r.1) evs
    for_each-settles [] s = (refl, tt)
    for_each-settles (ev ∷ evs) s =
        let p = process-settles ev s in
        let q = (process_event t ev s).1 in
        let rest = for_each-settles evs q in
        let same : for_each (process_event t) (ev ∷ evs) s ≡ for_each (process_event t) evs q =
          ap (λ r. continue r (λ _. for_each (process_event t) evs) q) p.0 in
        subst (λ r. (r.0 ≡ ok tt) × All (λ e. IsSettled clock e.id r.1) (ev ∷ evs)) (sym same)
          (rest.0, (for_each-IsSettled ev.id evs q p.1, rest.1))

    -- With a client that leaves the table of events alone, a turn of the outbox returns whatever
    -- the deliveries and the messages end with; no event's row disappears or appears; and each event
    -- that it claimed is processed, or has failed with its retries used up, or waits for a retry at
    -- a later time, however the later events of the turn go.
    pub outbox-IsSettled :
        (s : Session)
        → let claimed =
            (claim_pending_events clock "worker-main" 10
              (seconds 300)
              t.held
              s.db.outbox_events).0 in
          let r = process_outbox_events t s in
          (r.0 ≡ ok tt)
          × (ids r.1.db.outbox_events ≡ ids s.db.outbox_events)
          × All (λ ev. IsSettled clock ev.id r.1) claimed
    unfolding process_outbox_events claim_events
    outbox-IsSettled s =
        let q = for_each-settles _ _ in
        (
          q.0,
          for_each-ids _ _
              ∙ claim-ids clock "worker-main" 10 (seconds 300) t.held s.db.outbox_events,
          q.1,
        )
