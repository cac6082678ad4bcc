-- ===== src/Checkout/Stable.antt =====
-- Predicates of a session that the wallet's calls and changes of other tables keep: every step of a
-- checkout before its commit keeps them.
use gift_hub.Prelude.{
  ℕ, String, ◌≡◌, refl, Bool, true, false, Option, none, some, str_eq, find, update_rows, leb,
  count_rows, Bool-cases, inl, inr, not,
}
use gift_hub.Prelude.Int.{ℤ}
use gift_hub.Models.{Db, PromoCode}
use gift_hub.Session.{Session, FlagCache, modify, flush, domain_error, price_expired}
use gift_hub.Session.Keeps.{
  Keeps, Kept, gets, pure, lift, raise, raise_if, or_raise, branch, ◌>>=◌, ◌>>◌,
}
use gift_hub.Wallet.{Entry, has_user_id, credit_balance, debit_balance}
use gift_hub.FeatureFlags.{is_enabled, is_maintenance_mode, refresh_cache, is_stale}
use gift_hub.Risk.{check_checkout_spam, unpaid_since, log_risk_event}
use gift_hub.Prelude.Texts.{strip, upper}
use gift_hub.Pricing.{validate_or_consume_price_lock, has_lock_id, check_lock, use_lock, set_lock}
use gift_hub.Pricing.Prices.{get_authoritative_price}
use gift_hub.Promotions.{
  redeem, record_use, percent_discount, fixed_discount, new_total, discounted, bonus, is_percent,
  is_fixed, bonus_entry as promo_entry, apply_promo_code, check_promo, has_code,
}
use gift_hub.Checkout.{
  Checkout, quote, locked_quote, priced_quote, check_flags, check_spam, check_product, flag_of,
}

-- What a predicate needs to be kept.
pub record IsStable (P : Session → Type 0) : Type 0 where
  pub credits : (i : ℕ) (a : ℤ) (e : Entry) → Keeps P (credit_balance i a e)
  pub debits : (i : ℕ) (a : ℤ) (e : Entry) → Keeps P (debit_balance i a e)
  pub flushes : (valid : Db → Bool) → Keeps P (flush valid)
  pub caches : (c : FlagCache) (s : Session) → P s → P (record s { flag_cache = c })
  -- A change of the other tables.
  pub tables :
      (s : Session) (d : Db)
      → d.users ≡ s.db.users
      → d.wallet_transactions ≡ s.db.wallet_transactions
      → P s
      → P (record s { db = d })
  pub earnings :
      (i : ℕ) (x : ℤ)
      → Keeps P (
          modify (λ d. record d {
            users = update_rows (has_user_id i) (λ u. record u { referral_earnings = x }) d.users;
          }))

module _ (P : Session → Type 0)
    (caches : (c : FlagCache) (s : Session) → P s → P (record s { flag_cache = c })) where
  is_enabled-Keeps : (clock : ℕ) (n : String) (d : Bool) → Keeps P (is_enabled clock n d)
  unfolding is_enabled refresh_cache
  is_enabled-Keeps clock n d s h = elim (Bool-cases (is_stale clock n s.flag_cache)) [
    | inl y ↦ rw y (caches _ s h)
    | inr m ↦ rw m h
  ]

  check_product-Keeps : (clock : ℕ) (o : Option String) → Keeps P (check_product clock o)
  check_product-Keeps clock none = λ s h. h
  check_product-Keeps clock (some n) =
      (do
        b ← (is_enabled clock n true, is_enabled-Keeps clock n true)
        raise_if (not b) (domain_error "ERROR")).1

  pub check_flags-Keeps : (clock : ℕ) (t : String) → Keeps P (check_flags clock t)
  unfolding check_flags is_maintenance_mode
  check_flags-Keeps clock t =
      (do
        maintenance ← (
          is_enabled clock "maintenance_mode" false,
          is_enabled-Keeps clock "maintenance_mode" false,
        )
        raise_if maintenance (domain_error "ERROR")
        is_open ← (
          is_enabled clock "store_checkout_enabled" true,
          is_enabled-Keeps clock "store_checkout_enabled" true,
        )
        raise_if (not is_open) (domain_error "ERROR")
        (check_product clock (flag_of t), check_product-Keeps clock (flag_of t))).1

module _ (P : Session → Type 0) (st : IsStable P) where
  pub check_spam-Keeps : (now user : ℕ) → Keeps P (check_spam now user)
  unfolding check_spam check_checkout_spam log_risk_event
  check_spam-Keeps now user s h =
      elim (Bool-cases (leb 10 (count_rows (unpaid_since now user) s.db.orders))) [
        | inl y ↦ rw y (st.tables s _ refl refl h)
        | inr n ↦ rw n h
      ]

  abbrev pub change :
      (f : Db → Db)
      → ((d : Db) → (f d).users ≡ d.users)
      → ((d : Db) → (f d).wallet_transactions ≡ d.wallet_transactions)
      → Kept P (Unit {0})
  change f u w = (modify f, λ s h. st.tables s (f s.db) (u s.db) (w s.db) h)

  lock-Keeps : (now : ℕ) (i t : String) (a : ℤ) → Keeps P (validate_or_consume_price_lock now i t a)
  unfolding validate_or_consume_price_lock
  lock-Keeps now i t a =
      (do
        found ← gets (λ d. find (has_lock_id i) d.price_locks)
        lock ← or_raise price_expired found
        lift (check_lock now t a lock)
        change (set_lock (use_lock lock)) (λ d. refl) (λ d. refl)
        pure (use_lock lock)).1

  pub quote-Keeps : (now : ℕ) (c : Checkout) (o : Option String) → Keeps P (quote now c o)
  unfolding quote
  quote-Keeps now c (some i) =
      (do
        l ← (
          validate_or_consume_price_lock now i c.product_type c.amount,
          lock-Keeps now i c.product_type c.amount,
        )
        pure (locked_quote l)).1
  quote-Keeps now c none =
      (do
        answer ← gets (get_authoritative_price c.product_type c.amount (some c.item_title))
        p ← lift answer
        pure (priced_quote c.amount p)).1

  redeem-Keeps :
      (now user : ℕ) (total : ℤ) (o : Option ℕ) (p : PromoCode)
      → Keeps P (redeem now user total o p)
  unfolding redeem
  redeem-Keeps now user total o p =
      (branch (is_percent p)
        (do
          change (record_use now user o (percent_discount p total) p) (λ d. refl) (λ d. refl)
          pure (
              discounted "discount_percent" (percent_discount p total)
                (new_total total (percent_discount p total))))
        (branch (is_fixed p)
          (do
            change (record_use now user o (fixed_discount p total) p) (λ d. refl) (λ d. refl)
            pure (
                discounted "fixed_discount" (fixed_discount p total)
                  (new_total total (fixed_discount p total))))
          (branch (str_eq p.reward_type "balance_bonus")
            (do
              credited ← (
                credit_balance user p.reward_value (promo_entry p),
                st.credits user p.reward_value (promo_entry p),
              )
              change (record_use now user none p.reward_value p) (λ d. refl) (λ d. refl)
              pure (bonus p.reward_value (credited.0).balance))
            (raise (domain_error "ERROR"))))).1

  pub apply_promo_code-Keeps :
      (now : ℕ) (code : String) (user : ℕ) (total : ℤ) (product : String) (o : Option ℕ)
      → Keeps P (apply_promo_code now code user total product o)
  unfolding apply_promo_code
  apply_promo_code-Keeps now code user total product o =
      (do
        found ← gets (λ d. find (has_code (upper (strip code))) d.promo_codes)
        promo ← or_raise (domain_error "PROMO_NOT_FOUND") found
        checked ← gets (check_promo now user total product promo)
        lift checked
        (redeem now user total o promo, redeem-Keeps now user total o promo)).1
