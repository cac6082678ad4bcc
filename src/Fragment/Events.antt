-- ===== src/Fragment/Events.antt =====
-- The client of Fragment leaves the table of outbox events alone.
use gift_hub.Prelude.{ℕ, String, Option, none, some, true, false, List, find}
use gift_hub.Models.Orders.{Order}
use gift_hub.Orders.{has_order_id}
use gift_hub.Outbox.{OutboxEvent}
use gift_hub.Session.Keeps.{Keeps, Kept, pure, branch, ◌>>◌}
use gift_hub.Fulfillment.Events.{Same}
use gift_hub.Worker.Settling.{KeepsEvents}
use gift_hub.Fragment.{
  FragmentSetting, Transfer, Update, no_update, undelivered, hash_or, update_order_fulfillment,
  send_ton_transaction, finish_purchase, purchase, purchase_found, get_fragment_settings,
  fulfill_order,
}

module _ (events : List OutboxEvent) (now : ℕ) (number : String) (link : Order → String)
    (setting : FragmentSetting) where
  update-Same : (i : ℕ) (u : Update) → Keeps (Same events) (update_order_fulfillment now i u)
  unfolding update_order_fulfillment
  update-Same i u s h = h

  abbrev update : ℕ → Update → Kept (Same events) (Unit {0})
  update i u = (update_order_fulfillment now i u, update-Same i u)

  finish-Same : (i : ℕ) (pay : Transfer) → Keeps (Same events) (finish_purchase now i pay)
  unfolding finish_purchase
  finish-Same i pay =
      (branch pay.success
        (do
          let tx = hash_or "fragment_auto_done" pay.tx_hash
          update i (record no_update {
            fulfillment_status = "fulfilled";
            status = some "done";
            fragment_tx_hash = some tx;
          })
          pure (record { success = true; fulfilled = true; tx_hash = some tx; error = none }))
        (do
          update i (record no_update {
            fulfillment_status = "failed";
            fulfillment_error = some (hash_or "To'lov amalga oshmadi" pay.error);
          })
          pure (undelivered false pay.error))).1

  purchase-Same : (o : Order) → Keeps (Same events) (purchase now number link setting o)
  unfolding purchase
  purchase-Same order =
      (branch setting.is_auto_buy
        (do
          update order.id (record no_update {
            fulfillment_status = "processing";
            fragment_payload = some (link order);
          })
          (
            finish_purchase now order.id (send_ton_transaction number setting),
            finish-Same order.id (send_ton_transaction number setting),
          ))
        (do
          update order.id (record no_update {
            fulfillment_status = "waiting_payment";
            fragment_payload = some (link order);
          })
          pure (undelivered true none))).1

  found-Same : (o : Option Order) → Keeps (Same events) (purchase_found now number link setting o)
  found-Same none = λ s h. h
  found-Same (some o) = purchase-Same o

pub fragment-KeepsEvents :
    (now : ℕ) (number : String) (link : Order → String) (stored : Option FragmentSetting)
    → KeepsEvents (fulfill_order now number link stored)
unfolding fulfill_order
fragment-KeepsEvents now number link stored events i s h =
    found-Same events now number link (get_fragment_settings stored)
      (find (has_order_id i) s.saved.orders) s h
