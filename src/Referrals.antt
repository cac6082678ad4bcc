-- ===== src/Referrals.antt =====
-- The reward of a referrer: `process_order_referral_reward` of app/services/referrals/service.py.
-- The unique column of the rewards needs no check of its own: the look-up before has found no row
-- of the order, and nothing else adds one. Log lines and texts are left out.
use gift_hub.Prelude.{
  ℕ, ◌==◌, Bool, false, ◌&&◌, ◌||◌, Option, none, some, [], ◌∷◌, ◌++◌, leb, find, any, update_rows,
  if◌then◌else◌,
}
use gift_hub.Prelude.Int.{ℤ, pos, ◌+ℤ◌, ltb_ℤ, leb_ℤ}
use gift_hub.Prelude.Texts.{show}
use gift_hub.Decimal.{percent_of}
use gift_hub.Models.{Db, User, ReferralSetting, ReferralReward}
use gift_hub.Wallet.{Entry, has_user_id, credit_balance}
use gift_hub.Session.{Exec, pure, gets, modify, ◌>>=◌, ◌>>◌}

-- `ref_settings.tier_3_count or 50`
abbrev count_or : ℕ → Option ℕ → ℕ
count_or d none = d
count_or d (some n) = if n == 0 then d else n

-- The percentage of a tier whose count is reached, where the tier has one that is not 0.
abbrev tier_rate : ℕ → ℕ → Option ℤ → Option ℤ
tier_rate referrals count none = none
tier_rate referrals count (some r) =
    if leb count referrals && (ltb_ℤ r (pos 0) || ltb_ℤ (pos 0) r) then some r else none

abbrev or_else : Option ℤ → ℤ → ℤ
or_else none d = d
or_else (some r) d = r

unfoldable pub commission_rate : ReferralSetting → ℕ → ℤ
commission_rate c n = or_else (tier_rate n (count_or 50 c.tier_3_count) c.tier_3_percent) (
    or_else (tier_rate n (count_or 20 c.tier_2_count) c.tier_2_percent)
      (or_else (tier_rate n (count_or 5 c.tier_1_count) c.tier_1_percent) c.bonus_percent))

-- What a purchase earns: the buyer, the referrer, the rate and the commission.
pub record Commission : Type 0 where
  pub buyer : User
  pub referrer : User
  pub rate : ℤ
  pub amount : ℤ

-- `if not buyer or not buyer.referrer_id or buyer.referrer_id == buyer.id`
abbrev referrer_of : User → Option ℕ
referrer_of u = elim u.referrer_id [
  | none ↦ none
  | some i ↦ if (i == 0) || (i == u.id) then none else some i
]

abbrev below_minimum : ReferralSetting → ℤ → Bool
below_minimum c purchase = c.require_purchase && ltb_ℤ purchase c.min_purchase_uzs

abbrev positive_commission : User → User → ReferralSetting → ℤ → Option Commission
positive_commission buyer referrer c purchase =
    let rate = commission_rate c referrer.referrals_count in
    let amount = percent_of purchase rate in
    if leb_ℤ amount (pos 0)
    then none
    else some (record { buyer = buyer; referrer = referrer; rate = rate; amount = amount })

abbrev rewarded : ℕ → Db → Bool
rewarded order_id d = any (λ (r : ReferralReward). r.order_id == order_id) d.referral_rewards

abbrev and_then : {A B : Type 0} → Option A → (A → Option B) → Option B
and_then none f = none
and_then (some a) f = f a

-- The early returns, in their order.
unfoldable pub commission_due : ℕ → ℕ → ℤ → Db → Option Commission
unfolding commission_rate percent_of
commission_due order_id buyer_id purchase d =
    and_then (find (has_user_id buyer_id) d.users) (λ buyer. and_then (referrer_of buyer) (λ i.
      if rewarded order_id d
      then none
      else and_then d.referral_setting (λ c.
        if below_minimum c purchase
        then none
        else and_then (find (has_user_id i) d.users)
            (λ referrer. positive_commission buyer referrer c purchase))))

abbrev pub add_reward : ℕ → Bool → Commission → Db → Db
add_reward order_id auto c d = record d {
  referral_rewards =
      d.referral_rewards
      ++ record {
        referrer_id = c.referrer.id;
        referred_user_id = c.buyer.id;
        order_id = order_id;
        commission_rate = c.rate;
        commission_amount = c.amount;
        status = if auto then "paid" else "pending";
      }
        ∷ [];
}

abbrev pub add_earnings : Commission → Db → Db
add_earnings c d = record d {
  users =
      update_rows (has_user_id c.referrer.id)
        (λ u. record u { referral_earnings = c.referrer.referral_earnings +ℤ c.amount }) d.users;
}

abbrev pub auto_reward_of : Db → Bool
auto_reward_of d = elim d.referral_setting [ none ↦ false | some c ↦ c.auto_reward ]

abbrev pub bonus_entry : ℕ → Entry
bonus_entry order_id = record {
  tx_type = "referral_bonus";
  reference_type = some "order";
  reference_id = some (show order_id);
}

abbrev pub credit_commission : ℕ → Commission → Exec (Unit {0})
credit_commission order_id c = do
  credit_balance c.referrer.id c.amount (bonus_entry order_id)
  modify (add_earnings c)

unfoldable pub pay_commission : ℕ → Commission → Exec (Unit {0})
pay_commission order_id c = do
  auto ← gets auto_reward_of
  modify (add_reward order_id auto c)
  if auto then credit_commission order_id c else pure tt

unfoldable pub process_order_referral_reward : ℕ → ℕ → ℤ → Exec (ℤ × Option User)
unfolding commission_due pay_commission
process_order_referral_reward order_id buyer_id purchase = do
  due ← gets (commission_due order_id buyer_id purchase)
  elim due [
    | none ↦ pure (pos 0, none)
    | some c ↦
        pay_commission order_id c
        >> gets (λ d. (c.amount, find (has_user_id c.referrer.id) d.users))
  ]
