-- ===== src/OrderDesk.antt =====
-- What an administrator does about an order that was not delivered: `retry_order_fulfillment` and
-- `manual_fulfill_order` of app/api/v1/router.py. An order that is missing is an error as in the
-- services; the answers' texts are left out.
pub mod Retried
use gift_hub.Prelude.{ℕ, none, find}
use gift_hub.Models.Orders.{Order}
use gift_hub.Orders.{Env, Change, has_order_id, transition_order_status}
use gift_hub.Session.{Exec, order_not_found, pure, gets, or_raise, modify, commit, ◌>>=◌, ◌>>◌}
use gift_hub.Fulfillment.{Answer, Client, Call, set_columns, fulfill_order_automated}

unfoldable pub retry_order_fulfillment : Client → Call → ℕ → Exec Answer
retry_order_fulfillment client c order_id = do
  found ← gets (λ d. find (has_order_id order_id) d.orders)
  or_raise order_not_found found
  modify (
      set_columns order_id
        (λ o. record o { fulfillment_status = "processing"; status = "processing" }))
  fulfill_order_automated client c order_id

-- `change` holds the reason.
unfoldable pub manual_fulfill_order : Env → Change → ℕ → Exec Order
manual_fulfill_order env change order_id = do
  order ← transition_order_status env order_id "completed" change
  modify (
      set_columns order.id
        (λ o. record o { fulfillment_status = "fulfilled"; fulfillment_error = none }))
  commit
  pure (record order { fulfillment_status = "fulfilled"; fulfillment_error = none })
