-- ===== src/Examples/Deliveries.antt =====
-- The theorems on deliveries at concrete inputs.
use gift_hub.Prelude.{◌+◌, ◌≡◌, refl, true, false, some, String, [], ◌∷◌, arith, length}
use gift_hub.Prelude.Dict.{lookup, insert}
use gift_hub.Errors.{Error}
use gift_hub.Circuit.{get_or_init_state}
use gift_hub.Models.Orders.{Order}
use gift_hub.Session.{Session, Result, ok}
use gift_hub.Fulfillment.{
  Answer, fulfilled, already_fulfilled, Call, Client, is_delivered, fulfill_order_automated,
}
use gift_hub.Fulfillment.Delivered.{IsMarked, delivered_once}
use gift_hub.Fulfillment.Failing.{IsPassing}
use gift_hub.Fulfillment.Attempts.{IsWaiting}
use gift_hub.Fulfillment.GivingUp.{IsGivenUp}
use gift_hub.Fulfillment.Retries.{fulfill_all, given_up_after_three}
use gift_hub.Fulfillment.OverLimit.{IsSpent, IsReopened, over_limit}
use gift_hub.Fragment.{FragmentSetting, fulfill_order}
use gift_hub.Fragment.Delivering
use gift_hub.Fragment.Delivering.{manual_purchase_given_up}
use gift_hub.Fragment.Automatic.{automatic_delivery}
use gift_hub.OrderDesk.{retry_order_fulfillment}
use gift_hub.OrderDesk.Retried.{retry_delivers_any}
use gift_hub.Examples.{env, order_in, with_order}

abbrev pub describe : Error → String
describe e = "error"

abbrev pub request : Call
request = record { env = env; describe = describe; traceback = "trace" }

-- The second call, one minute later.
abbrev later : Call
later = record request { env = record env { now = 60005000; clock = 160000 } }

abbrev pub link : Order → String
link o = "https://app.tonkeeper.com/transfer/x"

abbrev pub simulated : FragmentSetting
simulated = record { is_auto_buy = true; ton_wallet_mnemonic = ""; simulation_mode = false }

abbrev by_hand : FragmentSetting
by_hand = record simulated { is_auto_buy = false }

abbrev pub bought : Session
bought = with_order (order_in "paid")

pub passing : IsPassing 0 []
unfolding get_or_init_state lookup insert
passing = record { state = refl; count = refl }

bought-IsWaiting : IsWaiting 3 0 0 [] bought
bought-IsWaiting = record {
  row = order_in "paid";
  found = refl;
  pending = record { attempts_made = refl; unfulfilled = refl; awaits = refl };
  same_jobs = refl;
  passing = passing;
}

abbrev automatic : Client
automatic = fulfill_order 5000 "1700" link (some simulated)

abbrev delivering : Result Answer × Session
delivering = fulfill_order_automated automatic request 3 bought

automatic_delivery_example :
    (delivering.0 ≡ ok (fulfilled "sim_1700")) × IsMarked 3 "sim_1700" delivering.1
automatic_delivery_example =
    automatic_delivery 5000 "1700" link simulated refl request 3 0 0 [] bought (omega arith)
      bought-IsWaiting

delivers : delivering ≡ (ok (fulfilled "sim_1700"), delivering.1)
delivers = λ i. (automatic_delivery_example.0 i, delivering.1)

-- A later session: the notification of the delivery has been lost.
abbrev rolled_back : Session
rolled_back = record (delivering.1) { db = record (delivering.1.db) { in_app_notifications = [] } }

delivered_once_example :
    IsMarked 3 "sim_1700" delivering.1
    × (fulfill_order_automated automatic later 3 rolled_back ≡ (ok already_fulfilled, rolled_back))
delivered_once_example =
    delivered_once automatic automatic request later 3 bought delivering.1 rolled_back "sim_1700"
      delivers refl

abbrev manual : Client
manual = fulfill_order 5000 "1700" link (some by_hand)

given_up_after_three_example :
    let s' = fulfill_all manual 3 (request ∷ later ∷ later ∷ []) bought in
    IsGivenUp 3 3 [] s'.db × (s'.saved ≡ s'.db)
given_up_after_three_example =
    given_up_after_three manual (Delivering.manual-Fails 5000 "1700" link by_hand refl) 3 [] request
      (later ∷ later ∷ []) 0 0 bought refl (omega arith) bought-IsWaiting

manual_purchase_given_up_example :
    let s' = fulfill_all manual 3 (request ∷ later ∷ later ∷ []) bought in
    IsGivenUp 3 3 [] s'.db × (s'.saved ≡ s'.db)
manual_purchase_given_up_example =
    manual_purchase_given_up 5000 "1700" link by_hand refl 3 [] request (later ∷ later ∷ []) 0 0
      bought refl (omega arith) bought-IsWaiting

-- Refunded after its three attempts.
abbrev pub refunded_order : Order
refunded_order = record (order_in "refunded") {
  fulfillment_status = "manual_review";
  fulfillment_attempts = 3;
}

pub refunded-IsSpent : IsSpent 3 0 (with_order refunded_order)
unfolding is_delivered
refunded-IsSpent = record {
  row = refunded_order;
  found = refl;
  spent = omega arith;
  undelivered = refl;
  passing = passing;
}

over_limit_example :
    let s' = fulfill_all automatic 3 (request ∷ later ∷ []) (with_order refunded_order) in
    IsReopened 3 s' × (length s'.db.failed_jobs ≡ 0 + 2)
over_limit_example =
    over_limit automatic 3 0 request (later ∷ []) (with_order refunded_order) refunded-IsSpent

-- Delivered once already, by the first attempt, and refunded then.
abbrev returned : Order
returned = record (order_in "refunded") {
  fulfillment_status = "fulfilled";
  fulfillment_attempts = 1;
  fragment_tx_hash = some "sim_1600";
}

retry_delivers_any_example :
    let r = retry_order_fulfillment automatic request 3 (with_order returned) in
    (r.0 ≡ ok (fulfilled "sim_1700")) × IsMarked 3 "sim_1700" r.1
retry_delivers_any_example =
    retry_delivers_any 5000 "1700" link simulated refl request 3 1 0 (with_order returned) returned
      (omega arith) refl refl passing
