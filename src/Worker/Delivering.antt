-- ===== src/Worker/Delivering.antt =====
-- A request for a delivery on its way through the worker and the client of Fragment.
use gift_hub.Prelude.{
  ℕ, ◌<◌, String, ◌≡◌, refl, ap, Bool, [], ◌∷◌, Bool-cases, inl, inr, arith, true, some, List, All,
  find,
}
use gift_hub.Prelude.Dict.{lookup}
use gift_hub.Prelude.Texts.{show}
use gift_hub.Prelude.Texts.Numerals.{int_of-show, is_digit-show}
use gift_hub.Dlq.{FailedJob}
use gift_hub.Models.Orders.{Order}
use gift_hub.Outbox.{OutboxEvent, has_id, processed, finish, mark_processed}
use gift_hub.Orders.{has_order_id}
use gift_hub.Session.{Session, Result, ok, continue}
use gift_hub.Fulfillment.{Answer, Call, fulfilled, catching, fulfill_order_automated}
use gift_hub.Fulfillment.Attempts.{IsWaiting}
use gift_hub.Fragment.{FragmentSetting}
use gift_hub.Fragment.Automatic
use gift_hub.Fragment.Automatic.{automatic_delivery}
use gift_hub.Worker.{
  Tools, to_int, settle, processed_event, failed_event, handle_event, process_event,
}

-- The event asks for the delivery of the order, as a checkout and a payment write it.
pub record Requests (i : ℕ) (ev : OutboxEvent) : Type 0 where
  pub kind : ev.event_type ≡ "ORDER_FULFILLMENT_REQUESTED"
  pub of_order : lookup "order_id" ev.payload ≡ some (show i)

to_int-show : (i : ℕ) → to_int (some (show i)) ≡ ok i
to_int-show i = rw (is_digit-show i) (ap ok (int_of-show i))

requested :
    (t : Tools) (ev : OutboxEvent) (i : ℕ) (s : Session) (tx : String)
    → Requests i ev
    → (fulfill_order_automated t.client t.call i s).0 ≡ ok (fulfilled tx)
    → process_event t ev s
      ≡ processed_event t.call ev.id (fulfill_order_automated t.client t.call i s).1
unfolding process_event handle_event
requested t ev i s tx q e =
    let r = fulfill_order_automated t.client t.call i s in
    let end = λ (a : Result Answer).
      let c = continue a (settle t.call ev.id) r.1 in
      catching c.0 (λ x. failed_event t.call ev.id (t.call.describe x)) c.1 in
    rw (q.kind) (rw (q.of_order) (rw (to_int-show i) (ap end e)))

all-finished :
    (now i : ℕ) (es : List OutboxEvent)
    → All (λ e. has_id i e ≡ true → e.status ≡ processed) (mark_processed now i es)
unfolding mark_processed finish
all-finished now i [] = tt
all-finished now i (e ∷ es) = elim (Bool-cases (has_id i e)) [
  | inl y ↦ rw y (λ h. refl, all-finished now i es)
  | inr n ↦ rw n (λ h. ground arith, all-finished now i es)
]

-- The order is marked as delivered with the transaction, and the request for it as processed.
pub record IsServed (i : ℕ) (ev : OutboxEvent) (tx : String) (s : Session) : Type 0 where
  pub row : Order
  pub found : find (has_order_id i) s.db.orders ≡ some row
  pub status : row.fulfillment_status ≡ "fulfilled"
  pub hash : row.fragment_tx_hash ≡ some tx
  pub request : All (λ e. has_id ev.id e ≡ true → e.status ≡ processed) s.db.outbox_events

module _ (now : ℕ) (number : String) (link : Order → String) (setting : FragmentSetting)
    (automatic : setting.is_auto_buy ≡ true) where
  abbrev pub tools : Call → (OutboxEvent → Result (Unit {0})) → (ℕ → Bool) → Tools
  tools c notify held = record {
    client = Automatic.client now number link setting automatic;
    call = c;
    notify = notify;
    held = held;
  }

  -- With automatic purchases switched on, an event that requests the delivery of a paid order, of
  -- which fewer than three deliveries have been attempted, is served in one go when the circuit
  -- lets the call through: the worker handles it without an error, the order is marked as
  -- fulfilled with the identifier of the transaction, and the event's row is processed.
  pub request_goes_through :
      (c : Call) (notify : OutboxEvent → Result (Unit {0})) (held : ℕ → Bool) (ev : OutboxEvent)
      (i n k : ℕ) (jobs : List FailedJob) (s : Session)
      → Requests i ev
      → n < 3
      → IsWaiting i n k jobs s
      → let r = process_event (tools c notify held) ev s in
        (r.0 ≡ ok tt) × IsServed i ev (Automatic.hash now number link setting automatic) r.1
  request_goes_through c notify held ev i n k jobs s q few w =
      let t = tools c notify held in
      let a = automatic_delivery now number link setting automatic c i n k jobs s few w in
      rw (requested t ev i s _ q (a.0)) (
        refl,
        record {
          row = a.1.row;
          found = a.1.found;
          status = a.1.status;
          hash = a.1.hash;
          request = all-finished c.env.now ev.id _;
        },
      )
