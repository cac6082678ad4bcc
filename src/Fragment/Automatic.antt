-- ===== src/Fragment/Automatic.antt =====
-- Automatic purchases: a delivery that goes through.
use Prim.Native.String.{◌++◌ as text_append}
use gift_hub.Prelude.{
  ℕ, ◌<◌, ◌||◌, String, ◌≡◌, refl, sym, ap, subst, ◌∙◌, arith, true, false, none, some, List, find,
  find-replace, found-update, find-test, if◌then◌else◌, Bool-cases, inl, inr,
}
use gift_hub.Prelude.Texts.{lower, is_empty}
use gift_hub.Dlq.{FailedJob}
use gift_hub.Circuit.{can_execute}
use gift_hub.Models.Orders.{
  Order, value, completed, normalize_status, validate_order_transition, of_value,
}
use gift_hub.Notifications.{create_notification}
use gift_hub.Orders.{Env, has_order_id, set_order, stamp, change_status}
use gift_hub.Session.{Session, Result, Error, Exec, ok, err, continue}
use gift_hub.Session.Returns.{Returns}
use gift_hub.Fulfillment.{
  Answer, fulfilled, Call, Client, Delivery, is_last, provider, catching, transition_loaded,
  record_outcome, delivered, conclude, interrupted, begin, attempt, guarded, ask_circuit,
  fulfill_order_automated,
}
use gift_hub.Fulfillment.Delivered.{found-same, IsListed, IsMarked, AsAnswered, fulfill-AsAnswered}
use gift_hub.Fulfillment.Failing.{
  awaits_delivery, awaits-cases, ask-IsPassing, IsPending-undelivered,
}
use gift_hub.Fulfillment.Attempts.{IsWaiting}
use gift_hub.Fragment.{
  simulation, live, FragmentSetting, fulfill_order, purchase, finish_purchase, send_ton_transaction,
  get_fragment_settings, updated, update_order_fulfillment,
}

completing :
    (env : Env) (o : Order) (reason : String) (s : Session) (r : Order)
    → awaits_delivery o.status ≡ true
    → find (has_order_id o.id) s.db.orders ≡ some r
    → (x : Order) × ((transition_loaded env o (value completed) reason s).0 ≡ ok x)
unfolding transition_loaded change_status stamp normalize_status lower validate_order_transition
    of_value
completing env o reason s r awaits found =
    let x = record r {
      status = value completed;
      completed_at = some env.now;
      fulfillment_status = "fulfilled";
    } in
    elim (awaits-cases o.status awaits) [
      | inl e ↦ (x, rw found (rw e))
      | inr e ↦ (x, rw found (rw e))
    ]

continue-ok :
    {A : Type 0} (a : Answer) (q : Result A × Session) (f : A → Exec Answer) {x : A}
    → q.0 ≡ ok x
    → ((y : A) (t : Session) → (f y t).0 ≡ ok a)
    → (continue q.0 f q.1).0 ≡ ok a
continue-ok a (ok y, s) f e k = k y s
continue-ok a (err x, s) f e k = cc e

delivered-ok :
    (c : Call) (o : Order) (tx : String) (s : Session) (r : Order)
    → awaits_delivery o.status ≡ true
    → find (has_order_id o.id) s.db.orders ≡ some r
    → (delivered c o tx s).0 ≡ ok (fulfilled tx)
unfolding delivered record_outcome create_notification
delivered-ok c o tx s r awaits found =
    continue-ok (fulfilled tx) (transition_loaded c.env o (value completed) _ _) _
      (completing c.env o _ _ r awaits found).1 (λ y t. refl)

catching-ok :
    (a : Answer) (q : Result Answer × Session) (h : Error → Exec Answer)
    → q.0 ≡ ok a
    → (catching q.0 h q.1).0 ≡ ok a
catching-ok a (ok b, s) h e = e
catching-ok a (err x, s) h e = cc e

module _ (now : ℕ) (number : String) (link : Order → String) (setting : FragmentSetting)
    (automatic : setting.is_auto_buy ≡ true) where
  abbrev pub client : Client
  client = fulfill_order now number link (some setting)

  -- The identifier of the transaction.
  abbrev pub hash : String
  hash =
      text_append
        (if setting.simulation_mode || is_empty setting.ton_wallet_mnemonic then "sim_" else "tx_")
        number

  sent : send_ton_transaction number setting ≡ record {
    success = true;
    mode =
        if setting.simulation_mode || is_empty setting.ton_wallet_mnemonic
        then simulation
        else live;
    tx_hash = some hash;
    error = none;
  }
  unfolding send_ton_transaction
  sent = elim (Bool-cases (setting.simulation_mode || is_empty setting.ton_wallet_mnemonic)) [
    | inl y ↦ rw y
    | inr n ↦ rw n
  ]

  abbrev done : Delivery
  done = record { success = true; fulfilled = true; tx_hash = some hash; error = none }

  bought :
      (i : ℕ) (s : Session) (o : Order)
      → find (has_order_id i) s.saved.orders ≡ some o
      → IsListed i s.db.orders
      → ((client i s).0 ≡ ok done) × IsListed i (client i s).1.db.orders
  unfolding fulfill_order purchase finish_purchase updated update_order_fulfillment
      get_fragment_settings
  bought i s o saved l = rw saved (
      rw sent (
        rw automatic (
          refl,
          let once =
                found-update (has_order_id i) (has_order_id o.id) _ s.db.orders (λ x h. refl) l.1 in
              found-update (has_order_id i) (has_order_id o.id) _ _ (λ x h. refl) once.1,
        )))

  module _ (c : Call) where
    attempt-fulfilled :
        (o : Order) (s : Session)
        → find (has_order_id o.id) s.db.orders ≡ some o
        → awaits_delivery o.status ≡ true
        → (attempt client c o s).0 ≡ ok (fulfilled hash)
    unfolding attempt begin conclude
    attempt-fulfilled o s found awaits =
        let order = begin c.env.now o in
        let d = set_order order s.db in
        let s1 = record s { db = d; saved = d } in
        let found1 =
          find-replace (has_order_id o.id) order s.db.orders found
            (find-test (has_order_id o.id) s.db.orders found) in
        let b = bought o.id s1 order found1 (order, found1) in
        let q = client o.id s1 in
        let e = ap (λ r. (continue r (conclude c order) q.1).0) b.0 in
        catching-ok (fulfilled hash) (continue q.0 (conclude c order) q.1) (interrupted c order)
          (e ∙ delivered-ok c order hash q.1 b.1.0 awaits b.1.1)

    fulfilled-next :
        (i n k : ℕ) (jobs : List FailedJob) (s : Session)
        → n < 3
        → IsWaiting i n k jobs s
        → (fulfill_order_automated client c i s).0 ≡ ok (fulfilled hash)
    unfolding fulfill_order_automated guarded ask_circuit
    fulfilled-next i n k jobs s few w =
        let o = w.row in
        let same = found-same i s.db.orders o w.found in
        let b = can_execute provider c.env.clock s.breaker in
        let a = ask-IsPassing k c.env.clock s.breaker w.passing in
        let more : is_last o ≡ false = ground (arith, w.pending.attempts_made) in
        let found : find (has_order_id o.id) s.db.orders ≡ some o =
          subst (λ j. find (has_order_id j) s.db.orders ≡ some o) (sym same) w.found in
        rw (w.found) (
          rw (IsPending-undelivered n o w.pending) (
            rw (a.0)
              (rw more (attempt-fulfilled o (record s { breaker = b.1 }) found w.pending.awaits))))

  -- With automatic purchases switched on, a paid order whose delivery has been attempted fewer
  -- than three times is delivered by the next call that the circuit lets through: the call answers
  -- with the identifier of the transaction, and the order is marked as fulfilled with it and
  -- committed. In live mode too the identifier comes from the clock and the hash of the comment.
  pub automatic_delivery :
      (c : Call) (i n k : ℕ) (jobs : List FailedJob) (s : Session)
      → n < 3
      → IsWaiting i n k jobs s
      → let r = fulfill_order_automated client c i s in
        (r.0 ≡ ok (fulfilled hash)) × IsMarked i hash r.1
  automatic_delivery c i n k jobs s few w =
      let r = fulfill_order_automated client c i s in
      let e = fulfilled-next c i n k jobs s few w in
      (
        e,
        subst (λ (x : Result Answer). Returns (AsAnswered i) (x, r.1)) e
            (fulfill-AsAnswered client c i s),
      )
