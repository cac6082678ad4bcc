-- ===== src/AutoPayCard/Charged.antt =====
-- Webhooks of card transfers that are accepted.
use gift_hub.Prelude.{
  ℕ, arith, String, ◌≡◌, refl, sym, ap, subst, ◌∙◌, Bool, true, false, not, ◌||◌, Option, none,
  some, find, Option-cases, inl, inr, if◌then◌else◌,
}
use gift_hub.Prelude.Int.{ℤ, ltb_ℤ, ◌+ℤ◌}
use gift_hub.Prelude.Texts.{is_empty, strip}
use gift_hub.Models.{User}
use gift_hub.Orders.{Env}
use gift_hub.Wallet.{has_user_id}
use gift_hub.Payments.{
  noted, Confirmation, ProcessPaymentResult, effective_user, process_successful_payment_idempotent,
}
use gift_hub.Payments.Once.{deposit_once, found_payer, process_nobody}
use gift_hub.Session.{Session, Result, Exec, ok, err, pure, continue}
use gift_hub.AutoPayCard.{
  PaymentSetting, Webhook, Answer, refused, accepted, Refusal, too_small, no_transaction, inactive,
  bad_key, stale, is_authenticated, is_stale, provider_tx_id, confirmation, minimum, charge_found,
  charge, with_amount, with_transaction, with_setting, handle_webhook,
}

-- What an accepted webhook has shown, and the payment that it confirmed.
pub record IsAccepted (env : Env) (configured : Option String) (stored : Option PaymentSetting)
    (r : Webhook) (s s' : Session) (x : ProcessPaymentResult) : Type 0 where
  pub setting : PaymentSetting
  pub is_stored : stored ≡ some setting
  pub active : setting.autopaycard_active ≡ true
  pub authentic : is_authenticated configured setting r ≡ true
  pub fresh : is_stale env.now r.timestamp ≡ false
  pub tx : String
  pub has_tx : provider_tx_id r ≡ some tx
  pub not_blank : is_empty (strip tx) ≡ false
  pub user : ℕ
  pub of_user : r.user_id ≡ some user
  pub amount : ℤ
  pub of_amount : r.amount ≡ some amount
  pub enough : ltb_ℤ amount minimum ≡ false
  pub paid : process_successful_payment_idempotent env (confirmation tx user amount) s ≡ (ok x, s')

module _ (s s' : Session) (x : ProcessPaymentResult) where
  abbrev Accepts : Exec Answer → Type 0
  Accepts m = m s ≡ (ok (accepted x), s')

  paid_with :
      (q : Result ProcessPaymentResult × Session)
      → continue q.0 (λ result. pure (accepted result)) q.1 ≡ (ok (accepted x), s')
      → q ≡ (ok x, s')
  paid_with (ok y, t) h =
      let e : ok (accepted y) ≡ ok (accepted x) = ap (λ p. p.0) h in
      let same : y ≡ x = cc e in let last : t ≡ s' = ap (λ p. p.1) h in λ i. (ok (same i), last i)
  paid_with (err e, t) h = cc (ap (λ p. p.0) h)

  refusal : {X : Type 0} (d : Refusal) → Accepts (pure (refused d)) → X
  refusal d h = cc (ap (λ p. p.0) h)

  passed_by :
      (b : Bool) (d : Refusal) (m : Exec Answer)
      → Accepts (if b then pure (refused d) else m)
      → (b ≡ false) × Accepts m
  passed_by true d m h = refusal d h
  passed_by false d m h = (refl, h)

  found_user :
      (env : Env) (c : Confirmation) (o : Option User)
      → Accepts (charge_found env c o)
      → process_successful_payment_idempotent env c s ≡ (ok x, s')
  found_user env c none h = cc (ap (λ p. p.0) h)
  found_user env c (some u) h = paid_with _ h

  record Amounts (env : Env) (tx : String) (o : Option ℕ) (p : Option ℤ) : Type 0 where
    user : ℕ
    of_user : o ≡ some user
    amount : ℤ
    of_amount : p ≡ some amount
    enough : ltb_ℤ amount minimum ≡ false
    paid : process_successful_payment_idempotent env (confirmation tx user amount) s ≡ (ok x, s')

  with_amount-Amounts :
      (env : Env) (tx : String) (o : Option ℕ) (p : Option ℤ)
      → Accepts (with_amount env tx o p)
      → Amounts env tx o p
  unfolding charge
  with_amount-Amounts env tx o none h = cc (ap (λ z. z.0) h)
  with_amount-Amounts env tx none (some amount) h =
      let k = passed_by (ltb_ℤ amount minimum) _ _ h in cc (ap (λ z. z.0) k.1)
  with_amount-Amounts env tx (some user) (some amount) h =
      let k = passed_by (ltb_ℤ amount minimum) _ (charge env tx user amount) h in
      record {
        user = user;
        of_user = refl;
        amount = amount;
        of_amount = refl;
        enough = k.0;
        paid = found_user env (confirmation tx user amount) _ k.1;
      }

accepted_transaction :
    (env : Env) (configured : Option String) (stored : Option PaymentSetting) (r : Webhook)
    (setting : PaymentSetting) (s s' : Session) (x : ProcessPaymentResult)
    → stored ≡ some setting
    → setting.autopaycard_active ≡ true
    → is_authenticated configured setting r ≡ true
    → is_stale env.now r.timestamp ≡ false
    → (o : Option String) → provider_tx_id r ≡ o
    → with_transaction env r o s ≡ (ok (accepted x), s')
    → IsAccepted env configured stored r s s' x
accepted_transaction env configured stored r setting s s' x a b c d none e h = cc (ap (λ z. z.0) h)
accepted_transaction env configured stored r setting s s' x a b c d (some tx) e h =
    let k =
      passed_by s s' x (is_empty tx || is_empty (strip tx)) _
        (with_amount env tx r.user_id r.amount) h in
    let m = with_amount-Amounts s s' x env tx r.user_id r.amount k.1 in
    record {
      setting = setting;
      is_stored = a;
      active = b;
      authentic = c;
      fresh = d;
      tx = tx;
      has_tx = e;
      not_blank = ground (arith, k.0);
      user = m.user;
      of_user = m.of_user;
      amount = m.amount;
      of_amount = m.of_amount;
      enough = m.enough;
      paid = m.paid;
    }

accepted_setting :
    (env : Env) (configured : Option String) (stored o : Option PaymentSetting) (r : Webhook)
    (s s' : Session) (x : ProcessPaymentResult)
    → stored ≡ o
    → with_setting env configured r o s ≡ (ok (accepted x), s')
    → IsAccepted env configured stored r s s' x
accepted_setting env configured stored none r s s' x e h = cc (ap (λ z. z.0) h)
accepted_setting env configured stored (some setting) r s s' x e h =
    let k = passed_by s s' x (not setting.autopaycard_active) _ _ h in
    let l = passed_by s s' x (not (is_authenticated configured setting r)) _ _ k.1 in
    let m = passed_by s s' x (is_stale env.now r.timestamp) _ _ l.1 in
    accepted_transaction env configured stored r setting s s' x e (ground (arith, k.0))
      (ground (arith, l.0)) m.0 (provider_tx_id r) refl m.1

handled-IsAccepted :
    (env : Env) (configured : Option String) (stored : Option PaymentSetting) (r : Webhook)
    (s s' : Session) (x : ProcessPaymentResult)
    → handle_webhook env configured stored r s ≡ (ok (accepted x), s')
    → IsAccepted env configured stored r s s' x
unfolding handle_webhook
handled-IsAccepted env configured stored r s s' x h =
    accepted_setting env configured stored stored r s s' x refl h

-- Another report of a payment that is there.
module _ (s : Session) (tx : String)
    (settled : (env : Env) (user : ℕ) (amount : ℤ) (payer : ℕ)
      → let c = confirmation tx user amount in
        effective_user c ≡ some payer
        → (process_successful_payment_idempotent env c s).1.db ≡ s.db) where
  abbrev Idle : Exec Answer → Type 0
  Idle m = (m s).1.db ≡ s.db

  if-Idle : (b : Bool) (m n : Exec Answer) → Idle m → Idle n → Idle (if b then m else n)
  if-Idle true m n h k = h
  if-Idle false m n h k = k

  after-Idle :
      (q : Result ProcessPaymentResult × Session)
      → q.1.db ≡ s.db
      → (continue q.0 (λ result. pure (accepted result)) q.1).1.db ≡ s.db
  after-Idle (ok x, t) h = h
  after-Idle (err e, t) h = h

  process-Idle :
      (env : Env) (user : ℕ) (amount : ℤ)
      → (process_successful_payment_idempotent env (confirmation tx user amount) s).1.db ≡ s.db
  process-Idle env user amount =
      let c = confirmation tx user amount in
      elim (Option-cases (effective_user c)) [
        | inl e ↦ ap (λ z. z.1.db) (process_nobody env c s e)
        | inr (payer, e) ↦ settled env user amount payer e
      ]

  found-Idle :
      (env : Env) (user : ℕ) (amount : ℤ) (o : Option User)
      → Idle (charge_found env (confirmation tx user amount) o)
  found-Idle env user amount none = refl
  found-Idle env user amount (some u) = after-Idle _ (process-Idle env user amount)

  with_amount-Idle : (env : Env) (o : Option ℕ) (p : Option ℤ) → Idle (with_amount env tx o p)
  unfolding charge
  with_amount-Idle env o none = refl
  with_amount-Idle env none (some amount) = if-Idle (ltb_ℤ amount minimum) _ _ refl refl
  with_amount-Idle env (some user) (some amount) =
      if-Idle (ltb_ℤ amount minimum) (pure (refused too_small)) (charge env tx user amount) refl
        (found-Idle env user amount (find (has_user_id user) s.db.users))

  transaction-Idle : (env : Env) (r : Webhook) → Idle (with_transaction env r (some tx))
  transaction-Idle env r =
      if-Idle (is_empty tx || is_empty (strip tx)) (pure (refused no_transaction)) _ refl
        (with_amount-Idle env r.user_id r.amount)

  setting-Idle :
      (env : Env) (configured : Option String) (r : Webhook) (o : Option PaymentSetting)
      → provider_tx_id r ≡ some tx
      → Idle (with_setting env configured r o)
  setting-Idle env configured r none e = refl
  setting-Idle env configured r (some setting) e = rw e (
      if-Idle (not setting.autopaycard_active) (pure (refused inactive)) _ refl (
        if-Idle (not (is_authenticated configured setting r)) (pure (refused bad_key)) _ refl (
          if-Idle (is_stale env.now r.timestamp) (pure (refused stale)) _ refl
            (transaction-Idle env r))))

payer-same :
    (tx : String) (i j : ℕ) (amount : ℤ)
    → effective_user (confirmation tx i amount) ≡ some j
    → i ≡ j
payer-same tx i j amount h = ground arith

-- An accepted webhook whose payment was new comes from an active service, with the right key, within
-- ten minutes where it gives a readable time, names a transaction and a user, and pays at least a
-- thousand sums; its amount has been added to the balance of that user; and a webhook that follows
-- on the session it left and names the same transaction, whoever sends it and whatever amount and
-- user it gives, does not change the tables again.
pub card_credited_once :
    (env env' : Env) (configured configured' : Option String)
    (stored stored' : Option PaymentSetting) (r r' : Webhook) (s s' : Session)
    (x : ProcessPaymentResult) {tx tx' : String}
    → handle_webhook env configured stored r s ≡ (ok (accepted x), s')
    → x.is_new ≡ true
    → provider_tx_id r ≡ some tx
    → provider_tx_id r' ≡ some tx'
    → strip tx' ≡ strip tx
    → (a : IsAccepted env configured stored r s s' x) × (u : User) × (find
          (has_user_id a.user)
          s.db.users
        ≡ some u)
      × (find (has_user_id a.user) s'.db.users
          ≡ some (record u { balance = u.balance +ℤ a.amount }))
      × ((handle_webhook env' configured' stored' r' s').1.db ≡ s'.db)
unfolding handle_webhook noted
card_credited_once env env' configured configured' stored stored' r r' s s' x {tx} {tx'} h n t t'
      e =
    let a = handled-IsAccepted env configured stored r s s' x h in
    let c = confirmation a.tx a.user a.amount in
    let named : some a.tx ≡ some tx = sym a.has_tx ∙ t in
    let same_tx : a.tx ≡ tx = cc named in
    let same : strip tx' ≡ strip a.tx = e ∙ ap strip (sym same_tx) in
    let payer = found_payer env c s s' x a.paid in
    let again =
      λ (v : Env) (user : ℕ) (amount : ℤ) (p : ℕ)
          (k : effective_user (confirmation tx' user amount) ≡ some p).
        deposit_once env v c (confirmation tx' user amount) s s' s' x refl a.paid n refl same k
          refl in
    let d = deposit_once env env c c s s' s' x refl a.paid n refl refl payer.1 refl in
    let user_same : d.0.0 ≡ a.user = sym (payer-same a.tx a.user d.0.0 a.amount d.0.2) in
    (
      a,
      d.0.1,
      subst (λ i. find (has_user_id i) s.db.users ≡ some d.0.1) user_same d.0.3,
      subst
          (λ i.
            find (has_user_id i) s'.db.users
            ≡ some (record d.0.1 { balance = d.0.1.balance +ℤ a.amount }))
          user_same d.0.4,
      setting-Idle s' tx' (λ v user amount p k. ap (λ z. z.1.db) (again v user amount p k).4) env'
          configured' r' stored' t',
    )
