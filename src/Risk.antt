-- ===== src/Risk.antt =====
-- The limits on referrals and checkouts: app/services/risk/service.py. An event's details and log
-- lines are left out; the instant is an argument.
use gift_hub.Prelude.{
  ℕ, ◌+◌, ◌==◌, Bool, true, false, ◌&&◌, ◌||◌, Option, none, some, [], ◌∷◌, ◌++◌, str_eq, leb,
  count_rows, update_rows, if◌then◌else◌,
}
use gift_hub.Models.{Db, User}
use gift_hub.Models.Orders.{Order, value, created, awaiting_payment}
use gift_hub.Models.Shop.{RiskType, RiskSeverity, referral_velocity, checkout_spam, medium, high}
use gift_hub.Wallet.{has_user_id}
use gift_hub.Session.{Exec, pure, gets, modify, ◌>>=◌, ◌>>◌}

abbrev add_audit : ℕ → ℕ → RiskType → RiskSeverity → Db → Db
add_audit now user_id t sev d = record d {
  risk_audits =
      d.risk_audits
      ++ record { user_id = user_id; risk_type = t; severity = sev; created_at = now } ∷ [];
}

abbrev flag_abuser : ℕ → Bool → Db → Db
flag_abuser user_id false d = d
flag_abuser user_id true d = record d {
  users = update_rows (has_user_id user_id) (λ u. record u { is_flagged_for_abuse = true }) d.users;
}

unfoldable pub log_risk_event : ℕ → ℕ → RiskType → RiskSeverity → Bool → Exec (Unit {0})
log_risk_event now user_id t sev flag_user =
    modify (λ d. flag_abuser user_id flag_user (add_audit now user_id t sev d))

-- `if count >= 10: ... return False`, else `return True`
abbrev pub refuse_if : Bool → Exec (Unit {0}) → Exec Bool
refuse_if c m = if c then (m >> pure false) else pure true

-- One hour and fifteen minutes.
abbrev pub hour : ℕ
hour = 3600000000

abbrev pub quarter : ℕ
quarter = 900000000

abbrev some_is : Option ℕ → ℕ → Bool
some_is none i = false
some_is (some j) i = j == i

abbrev referred_since : ℕ → ℕ → User → Bool
referred_since now referrer_id u =
    some_is u.referrer_id referrer_id && leb now (u.created_at + hour)

unfoldable pub check_referral_velocity : ℕ → ℕ → Exec Bool
unfolding log_risk_event
check_referral_velocity now referrer_id =
    gets (λ d. count_rows (referred_since now referrer_id) d.users) >>= λ count.
    refuse_if (leb 10 count) (log_risk_event now referrer_id referral_velocity high false)

abbrev pub is_unpaid : Order → Bool
is_unpaid o = str_eq o.status (value created) || str_eq o.status (value awaiting_payment)

abbrev pub unpaid_since : ℕ → ℕ → Order → Bool
unpaid_since now user_id o =
    (o.user_id == user_id) && is_unpaid o && leb now (o.created_at + quarter)

unfoldable pub check_checkout_spam : ℕ → ℕ → Exec Bool
unfolding log_risk_event
check_checkout_spam now user_id =
    gets (λ d. count_rows (unpaid_since now user_id) d.orders) >>= λ count.
    refuse_if (leb 10 count) (log_risk_event now user_id checkout_spam medium false)
