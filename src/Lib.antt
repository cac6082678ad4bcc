-- ===== src/Lib.antt =====
-- GiftHub, a shop for Telegram stars, premium subscriptions and gifts: its services over the
-- database, app/services/ and app/models/, as functions on the tables, with their theorems.
--
-- How the parts interact. A session of the database (Session) holds the tables (Models) as the
-- transaction sees them and as they are committed; an operation of a service is an action on it
-- that returns or raises. The wallet (Wallet) moves money and books every movement in a ledger.
-- Orders (Orders, with the statuses of Models.Orders) change their status and pay refunds through
-- the wallet and write events to the outbox. Promo codes (Promotions) pay bonuses and referrals
-- (Referrals) pay commissions through the wallet. A confirmed payment (Payments) tops up the
-- wallet or moves an order on, and the protocols of Payme (Payme) and Click (Click) confirm
-- payments. A checkout (Checkout) asks the feature flags (FeatureFlags) and the limits (Risk),
-- takes its price from the settings or from a price lock (Pricing), applies a promo code, debits
-- the wallet and writes the order with the event that asks for its delivery. The audit
-- (Reconciliation) compares payments, orders and ledger. Notifications and tickets
-- (Notifications, Support) and the catalogue (Catalog) stand by themselves. The outbox (Outbox)
-- hands events to workers, retries them and sends fulfillment requests that fail for good to the
-- dead letter queue (Dlq). The circuit breaker (Circuit) says which providers may be called. The
-- worker (Worker) claims events, asks for deliveries (Fulfillment) through the client of Fragment
-- (Fragment), and marks the events by what came of them; an order has three attempts. An
-- administrator may send an order back or complete it by hand (OrderDesk). Transfers to a card
-- (AutoPayCard) are confirmed like the payments of the other providers. A request of the web
-- application shows who sends it by a text that Telegram has signed (Security, WebAuth).
--
-- Files and code:
--   Prelude     shared helpers: tests on numbers, lists as tables, signed amounts, texts, dicts
--   Decimal     rounding of decimal.Decimal as the services call it
--   Errors      app/core/exceptions.py
--   Models      app/models/: the rows; Models.Orders: app/models/order.py
--   Session     app/core/database.py: commit, rollback and flush
--   Circuit     app/services/providers/circuit_breaker.py; Circuit.Health: its table
--   Dlq         app/services/dlq/service.py
--   Outbox      app/services/outbox/service.py
--   Wallet      app/services/wallet/service.py
--   Orders      app/services/orders/service.py: transition_order_status, refund_order
--   Promotions  app/services/promotions/service.py: apply_promo_code
--   Referrals   app/services/referrals/service.py: process_order_referral_reward
--   Payments    app/services/payments/service.py: process_successful_payment_idempotent
--   Payme       app/services/payments/payme.py: the methods of the protocol
--   Click       app/services/payments/click.py: process_prepare, process_complete
--   Pricing     app/services/pricing/service.py: price locks; Pricing.Prices: the calculations
--   FeatureFlags  app/services/feature_flags/service.py
--   Risk        app/services/risk/service.py
--   Checkout    app/services/orders/service.py: create_order; Checkout.Placing: its second half
--   Notifications  app/services/notifications/service.py
--   Support     app/services/support/service.py
--   Reconciliation  app/services/reconciliation/service.py
--   Fulfillment  app/services/fulfillment/service.py; the client is an argument
--   Fragment    app/services/fragment.py: fulfill_order; database/queries.py:
--               get_fragment_settings, update_order_fulfillment
--   Worker      app/services/worker.py: tasks, outbox, dead letters, one turn of run_worker_loop
--   Security    app/core/security.py: init data of Telegram, roles and permissions
--   Catalog     app/services/catalog/service.py
--   OrderDesk   app/api/v1/router.py: retry_order_fulfillment, manual_fulfill_order
--   WebAuth     app/web/auth.py; database/queries.py: get_or_create_user, get_user_by_id
--   AutoPayCard  app/services/payments/autopaycard.py: handle_webhook
--   Examples    data, and the theorems applied to it
-- A function keeps its name; the helpers beside it are its branches.
--
-- Amounts of money are signed numbers of tiyin, hundredths of a sum, since the columns hold two
-- decimals; percentages are in hundredths of a percent; instants are in microseconds, and in
-- milliseconds where a module says so. The clock, identifiers of requests, drawn codes, tracebacks
-- and what other transactions hold locked are arguments. MD5 is a parameter of the Click protocol;
-- HMAC, JSON and the parsing of queries are parameters of the checks of callers.
-- A row lock makes the transactions on that row follow one another, so an action runs on the
-- tables as one step. Texts are lowered, raised and stripped as ASCII. Loops run over lists; the
-- decimal text of a number alone runs on fuel, one more than the number, which has fewer digits
-- than that.
--
-- Not modelled: the other HTTP routes, the Telegram bot's handlers and keyboards, configuration,
-- logging and migrations, which are input, output and glue; invoices of Fragment, whose links and
-- amounts in floats are arguments, and its price engine in floats; the Redis heartbeat of the
-- worker; the `rollback()` that SQLAlchemy demands after a failed flush; texts of messages, notes
-- and log lines.
pub mod Prelude
pub mod Checkout
pub mod Circuit
pub mod Notifications
pub mod Support
pub mod Click
pub mod Reconciliation
pub mod Dlq
pub mod Outbox
pub mod Errors
pub mod Models
pub mod Risk
pub mod Session
pub mod Wallet
pub mod Orders
pub mod Decimal
pub mod Promotions
pub mod Referrals
pub mod Payments
pub mod Payme
pub mod Pricing
pub mod Fragment
pub mod Worker
pub mod Security
pub mod WebAuth
pub mod Catalog
pub mod OrderDesk
pub mod AutoPayCard
pub mod Fulfillment
pub mod Examples
pub mod FeatureFlags
