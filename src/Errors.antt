-- ===== src/Errors.antt =====
-- The exceptions of app/core/exceptions.py and the others that the services raise, and the outcome
-- of a call.
use gift_hub.Prelude.{String}

-- `domain_error` is the base class with its code; the text of the message is left out.
pub data Error : Type 0 where
  value_error integrity_error user_not_found insufficient_balance order_not_found : Error
  invalid_order_state price_expired promo_code_expired promo_code_limit_reached : Error
  promo_code_already_used : Error
  domain_error : String → Error

pub data Result (A : Type 0) : Type 0 where
  ok : A → Result A
  err : Error → Result A
