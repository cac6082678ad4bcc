-- ===== src/Fragment.antt =====
-- The client of Fragment: `FragmentService` of app/services/fragment.py with
-- `get_fragment_settings` and `update_order_fulfillment` of database/queries.py. It works in a session of its own, so it
-- reads what is committed and its writes are committed at once. The row of the settings and the
-- texts of the invoice are arguments, and so is the number in the identifier of a transaction.
-- The message to the buyer is left out.
pub mod Delivering
pub mod Automatic
pub mod Events
use Prim.Native.String.{◌++◌ as text_append}
use Prim.Native.String
use gift_hub.Prelude.{
  ℕ, String, Bool, true, false, ◌||◌, Option, none, some, str_eq, find, if◌then◌else◌,
}
use gift_hub.Prelude.Texts.{is_empty, strip}
use gift_hub.Models.{Db}
use gift_hub.Models.Orders.{Order, value, completed, cancelled}
use gift_hub.Orders.{has_order_id}
use gift_hub.Session.{Session, Exec, ok, pure, ◌>>=◌, ◌>>◌}
use gift_hub.Fulfillment.{Client, Delivery, set_columns}

-- app/models/fragment.py, as far as it is read here.
pub record FragmentSetting : Type 0 where
  pub is_auto_buy : Bool
  pub ton_wallet_mnemonic : String
  pub simulation_mode : Bool

unfoldable pub get_fragment_settings : Option FragmentSetting → FragmentSetting
get_fragment_settings none = record {
  is_auto_buy = true;
  ton_wallet_mnemonic = "";
  simulation_mode = false;
}
get_fragment_settings (some setting) = setting

abbrev without_at : String → String
without_at String.[] = ""
without_at (String.◌∷◌ c s) = if str_eq (String.◌∷◌ c "") "@" then s else String.◌∷◌ c s

abbrev or_blank : Option String → String
or_blank none = ""
or_blank (some t) = t

unfoldable pub clean_recipient : Option String → String
clean_recipient recipient = without_at (strip (or_blank recipient))

pub data Mode : Type 0 where
  simulation live : Mode

pub record Transfer : Type 0 where
  pub success : Bool
  pub mode : Mode
  pub tx_hash : Option String
  pub error : Option String

-- The number is made of the clock and of a hash of the comment.
unfoldable pub send_ton_transaction : String → FragmentSetting → Transfer
send_ton_transaction number setting =
    if setting.simulation_mode || is_empty setting.ton_wallet_mnemonic
    then record {
      success = true;
      mode = simulation;
      tx_hash = some (text_append "sim_" number);
      error = none;
    }
    else record {
      success = true;
      mode = live;
      tx_hash = some (text_append "tx_" number);
      error = none;
    }

-- The optional arguments of `update_order_fulfillment`.
pub record Update : Type 0 where
  pub fulfillment_status : String
  pub status : Option String
  pub fragment_payload : Option String
  pub fragment_tx_hash : Option String
  pub fulfillment_error : Option String

abbrev norm : String → String
norm status =
    if str_eq status "done"
    then value completed
    else if str_eq status "cancel"
    then value cancelled
    else status

abbrev with_status : ℕ → Option String → Order → Order
with_status now none o = o
with_status now (some t) o =
    let o' = record o { status = norm t } in
    if str_eq (norm t) (value completed) then record o' { completed_at = some now } else o'

abbrev given : Option String → Option String → Option String
given none old = old
given (some t) old = some t

unfoldable pub updated : ℕ → Update → Order → Order
updated now u o =
    let o' = with_status now u.status (record o { fulfillment_status = u.fulfillment_status }) in
    record o' {
      fragment_payload = given u.fragment_payload o'.fragment_payload;
      fragment_tx_hash = given u.fragment_tx_hash o'.fragment_tx_hash;
      fulfillment_error = given u.fulfillment_error o'.fulfillment_error;
    }

-- An unknown order changes nothing.
unfoldable pub update_order_fulfillment : ℕ → ℕ → Update → Exec (Unit {0})
unfolding updated
update_order_fulfillment now i u s = (
  ok tt,
  record s {
    db = set_columns i (updated now u) s.db;
    saved = set_columns i (updated now u) s.saved;
  },
)

abbrev pub no_update : Update
no_update = record {
  fulfillment_status = "";
  status = none;
  fragment_payload = none;
  fragment_tx_hash = none;
  fulfillment_error = none;
}

abbrev pub undelivered : Bool → Option String → Delivery
undelivered success error = record {
  success = success;
  fulfilled = false;
  tx_hash = none;
  error = error;
}

abbrev pub hash_or : String → Option String → String
hash_or d none = d
hash_or d (some t) = t

-- After the transfer.
unfoldable pub finish_purchase : ℕ → ℕ → Transfer → Exec Delivery
finish_purchase now i pay =
    if pay.success
    then (do
      let tx = hash_or "fragment_auto_done" pay.tx_hash
      update_order_fulfillment now i (record no_update {
        fulfillment_status = "fulfilled";
        status = some "done";
        fragment_tx_hash = some tx;
      })
      pure (record { success = true; fulfilled = true; tx_hash = some tx; error = none }))
    else (do
      update_order_fulfillment now i (record no_update {
        fulfillment_status = "failed";
        fulfillment_error = some (hash_or "To'lov amalga oshmadi" pay.error);
      })
      pure (undelivered false pay.error))

unfoldable pub purchase : ℕ → String → (Order → String) → FragmentSetting → Order → Exec Delivery
purchase now number link setting order =
    if setting.is_auto_buy
    then (do
      update_order_fulfillment now order.id (record no_update {
        fulfillment_status = "processing";
        fragment_payload = some (link order);
      })
      finish_purchase now order.id (send_ton_transaction number setting))
    else (do
      update_order_fulfillment now order.id (record no_update {
        fulfillment_status = "waiting_payment";
        fragment_payload = some (link order);
      })
      pure (undelivered true none))

abbrev pub purchase_found :
    ℕ → String → (Order → String) → FragmentSetting → Option Order → Exec Delivery
purchase_found now number link setting none = pure (undelivered false (some "Buyurtma topilmadi"))
purchase_found now number link setting (some order) = purchase now number link setting order

unfoldable pub fulfill_order : ℕ → String → (Order → String) → Option FragmentSetting → Client
fulfill_order now number link stored i s =
    purchase_found now number link (get_fragment_settings stored)
      (find (has_order_id i) s.saved.orders) s
