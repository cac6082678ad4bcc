-- ===== src/Promotions.antt =====
-- Promo codes: `apply_promo_code` of app/services/promotions/service.py, over the tables of
-- app/models/promo.py. The clock's reading is an argument; the amounts that the result repeats as
-- floats, its texts and the log lines are left out.
pub mod Limits
pub mod Redeeming
pub mod Capped
use Prim.Native.String
use Prim.Native.Char.{Char}
use gift_hub.Prelude.{
  ℕ, ◌+◌, ◌==◌, String, Bool, true, false, not, ◌&&◌, ◌||◌, Option, none, some, List, [], ◌∷◌, ◌++◌,
  map, str_eq, ltb, leb, find, any, count_rows, update_rows, if◌then◌else◌,
}
use gift_hub.Prelude.Int.{ℤ, pos, ◌-ℤ◌, ltb_ℤ, leb_ℤ, min, max}
use gift_hub.Prelude.Texts.{is_empty, lower, upper, strip, split_commas, show}
use gift_hub.Decimal.{percent_of}
use gift_hub.Models.{Db, User, PromoCode, PromoRedemption, PromoCodeUsage, WalletTransaction}
use gift_hub.Wallet.{Entry, credit_balance}
use gift_hub.Session.{
  Exec, Result, ok, err, pure, raise, gets, or_raise, lift, modify, ◌>>=◌, ◌>>◌, promo_code_expired,
  promo_code_limit_reached, promo_code_already_used, domain_error,
}

abbrev pub has_code : String → PromoCode → Bool
has_code c p = str_eq p.code c

abbrev pub is_redemption : ℕ → ℕ → PromoRedemption → Bool
is_redemption promo user r = (r.promo_code_id == promo) && (r.user_id == user)

-- Before the first instant, and after the last.
unfoldable pub not_started : ℕ → Option ℕ → Bool
not_started now none = false
not_started now (some t) = ltb now t

unfoldable pub has_expired : ℕ → Option ℕ → Bool
has_expired now none = false
has_expired now (some t) = ltb t now

-- Whether the list of products, where there is one, leaves this one out.
unfoldable pub product_excluded : String → String → Bool
unfolding lower strip split_commas
product_excluded products t =
    not (is_empty products)
    && not (str_eq products "all")
    && not (any (str_eq (lower t)) (map (λ p. lower (strip p)) (split_commas products)))

-- The guards, in their order, on a loaded code.
unfoldable pub check_promo : ℕ → ℕ → ℤ → String → PromoCode → Db → Result (Unit {0})
unfolding not_started has_expired product_excluded
check_promo now user_id order_total product_type promo d =
    if not promo.is_active
    then err (domain_error "PROMO_INACTIVE")
    else if not_started now promo.starts_at || has_expired now promo.expires_at
    then err promo_code_expired
    else if leb promo.max_uses promo.current_uses
    then err promo_code_limit_reached
    else if product_excluded promo.applicable_products product_type
    then err (domain_error "PROMO_PRODUCT_MISMATCH")
    else if leb promo.max_uses_per_user
        (count_rows (is_redemption promo.id user_id) d.promo_redemptions)
    then err promo_code_already_used
    else if ltb_ℤ order_total promo.min_order_amount
    then err (domain_error "MIN_ORDER_NOT_MET")
    else ok tt

abbrev pub is_percent : PromoCode → Bool
is_percent p = str_eq p.reward_type "discount_percent" || str_eq p.reward_type "percent"

abbrev pub is_fixed : PromoCode → Bool
is_fixed p = str_eq p.reward_type "fixed_discount" || str_eq p.reward_type "fixed"

-- `if promo.max_discount: ... min(discount_amount, max_d)`
abbrev pub cap : Option ℤ → ℤ → ℤ
cap none a = a
cap (some m) a = if ltb_ℤ m (pos 0) || ltb_ℤ (pos 0) m then min a m else a

unfoldable pub percent_discount : PromoCode → ℤ → ℤ
unfolding min percent_of
percent_discount p order_total =
    min (cap p.max_discount (percent_of order_total p.reward_value)) order_total

unfoldable pub fixed_discount : PromoCode → ℤ → ℤ
unfolding min
fixed_discount p order_total = min p.reward_value order_total

unfoldable pub new_total : ℤ → ℤ → ℤ
unfolding max
new_total order_total discount = max (pos 0) (order_total -ℤ discount)

-- One more use, with its two rows.
abbrev pub record_use : ℕ → ℕ → Option ℕ → ℤ → PromoCode → Db → Db
record_use now user_id order_id benefit p d = record d {
  promo_codes =
      update_rows (λ (q : PromoCode). q.id == p.id)
        (λ _. record p { current_uses = p.current_uses + 1 }) d.promo_codes;
  promo_redemptions =
      d.promo_redemptions
      ++ record {
        promo_code_id = p.id;
        user_id = user_id;
        order_id = order_id;
        benefit_amount = benefit;
        redeemed_at = now;
      }
        ∷ [];
  promo_code_usages =
      d.promo_code_usages
      ++ record { promo_code_id = p.id; user_id = user_id; benefit_amount = benefit; used_at = now }
        ∷ [];
}

-- What a redemption returns: the kind, the discount and the total that is left, or the bonus and
-- the balance.
pub data Redeemed : Type 0 where
  discounted : String → ℤ → ℤ → Redeemed
  bonus : ℤ → ℤ → Redeemed

abbrev pub bonus_entry : PromoCode → Entry
bonus_entry p = record {
  tx_type = "promo_bonus";
  reference_type = some "promo";
  reference_id = some (show p.id);
}

-- The redemption of a code that passed the guards.
unfoldable pub redeem : ℕ → ℕ → ℤ → Option ℕ → PromoCode → Exec Redeemed
unfolding percent_discount fixed_discount new_total
redeem now user_id order_total order_id p =
    if is_percent p
    then (do
      let a = percent_discount p order_total
      modify (record_use now user_id order_id a p)
      pure (discounted "discount_percent" a (new_total order_total a)))
    else if is_fixed p
    then (do
      let a = fixed_discount p order_total
      modify (record_use now user_id order_id a p)
      pure (discounted "fixed_discount" a (new_total order_total a)))
    else if str_eq p.reward_type "balance_bonus"
    then (do
      credited ← credit_balance user_id p.reward_value (bonus_entry p)
      modify (record_use now user_id none p.reward_value p)
      pure (bonus p.reward_value (credited.0).balance))
    else raise (domain_error "ERROR")

unfoldable pub apply_promo_code : ℕ → String → ℕ → ℤ → String → Option ℕ → Exec Redeemed
unfolding check_promo redeem strip upper
apply_promo_code now code_str user_id order_total product_type order_id = do
  found ← gets (λ d. find (has_code (upper (strip code_str))) d.promo_codes)
  promo ← or_raise (domain_error "PROMO_NOT_FOUND") found
  checked ← gets (check_promo now user_id order_total product_type promo)
  lift checked
  redeem now user_id order_total order_id promo
