-- ===== src/Fulfillment/Retries.antt =====
-- The run of an order whose every attempt fails.
use gift_hub.Prelude.{
  ℕ, suc, ◌<◌, ◌+◌, String, ◌≡◌, refl, ap, sym, subst, true, false, ◌&&◌, some, List, [], ◌∷◌, find,
  find-replace, find-test, arith, length,
}
use gift_hub.Dlq.{FailedJob}
use gift_hub.Circuit.{can_execute, failure_threshold}
use gift_hub.Models.{Db}
use gift_hub.Models.Orders.{Order}
use gift_hub.Orders.{has_order_id, set_order}
use gift_hub.Session.{Session, Result, Error, ok, err, Exec, continue}
use gift_hub.Fulfillment.{
  Answer, not_delivered, Client, Call, Delivery, is_last, catching, set_columns, refused,
  interrupted, conclude, begin, attempt, guarded, ask_circuit, provider, fulfill_order_automated,
}
use gift_hub.Fulfillment.Delivered.{found-same}
use gift_hub.Fulfillment.Failing.{IsPassing, ask-IsPassing, IsPending, IsPending-undelivered}
use gift_hub.Fulfillment.Attempts.{
  IsWaiting, Fails, columns-found, refused-IsWaiting, interrupted-IsWaiting,
}
use gift_hub.Fulfillment.GivingUp.{IsGivenUp, refused-IsGivenUp, interrupted-IsGivenUp}

-- An action that answers that the order was not delivered, in a session with a property.
abbrev Refuses : (Session → Type 0) → String → Result Answer × Session → Type 0
Refuses P e r = (r.0 ≡ ok (not_delivered e)) × P r.1

catch-ok :
    (P : Session → Type 0) (e : String) (r : Result Answer × Session) (h : Error → Exec Answer)
    → Refuses P e r
    → P (catching r.0 h r.1).1
catch-ok P e (ok a, s) h k = k.1
catch-ok P e (err x, s) h k = cc (k.0)

module _ (client : Client) (c : Call) (fails : (i : ℕ) (s : Session) → Fails client i s)
    (P : Session → Type 0) where
  answered :
      (order : Order) (r : Result Delivery) (s : Session)
      → ((d : Delivery) → r ≡ ok d → d.success && d.fulfilled ≡ false)
      → ((e : String) → Refuses P e (refused c order e s))
      → ((x : Error) → Refuses P (c.describe x) (interrupted c order x s))
      → let q = continue r (conclude c order) s in P (catching q.0 (interrupted c order) q.1).1
  unfolding conclude
  answered order (ok d) s never h k =
      rw (never d refl) (catch-ok P _ (refused c order _ s) (interrupted c order) (h _))
  answered order (err x) s never h k = (k x).1

  module _ (n k : ℕ) (jobs : List FailedJob) (few : n < 3) where
    attempted :
        (o : Order) (s : Session)
        → find (has_order_id o.id) s.db.orders ≡ some o
        → IsPending n o
        → s.db.failed_jobs ≡ jobs
        → IsPassing k s.breaker
        → let order = begin c.env.now o in
          ((t : Session) (e : String)
            → IsWaiting o.id (suc n) k jobs t
            → Refuses P e (refused c order e t))
          → ((t : Session) (x : Error)
              → IsWaiting o.id (suc n) k jobs t
              → Refuses P (c.describe x) (interrupted c order x t))
          → P (attempt client c o s).1
    unfolding attempt begin
    attempted o s found pending same passing ref int =
        let order = begin c.env.now o in
        let d = set_order order s.db in
        let s1 = record s { db = d; saved = d } in
        let f = fails o.id s1 in
        let found1 =
          find-replace (has_order_id o.id) order s.db.orders found
            (find-test (has_order_id o.id) s.db.orders found) in
        let ready : IsPending (suc n) order = record {
          attempts_made = ap suc pending.attempts_made;
          unfulfilled = refl;
          awaits = pending.awaits;
        } in
        let t = record s1 {
          db = set_columns o.id f.change d;
          saved = set_columns o.id f.change d;
        } in
        let w : IsWaiting o.id (suc n) k jobs t = record {
          row = f.change order;
          found = columns-found o.id f.change d.orders order f.keeps_id found1;
          pending = f.keeps (suc n) order ready;
          same_jobs = same;
          passing = passing;
        } in
        rw f.runs (answered order f.answer _ f.refusal (λ e. ref _ e w) (λ x. int _ x w))

    module _ (i : ℕ) (s : Session) (w : IsWaiting i n k jobs s)
        (ref : (t : Session) (e : String)
          → let order = begin c.env.now w.row in
            IsWaiting order.id (suc n) k jobs t → Refuses P e (refused c order e t))
        (int : (t : Session) (x : Error)
          → let order = begin c.env.now w.row in
            IsWaiting order.id (suc n) k jobs t
            → Refuses P (c.describe x) (interrupted c order x t)) where
      called : P (fulfill_order_automated client c i s).1
      unfolding fulfill_order_automated guarded ask_circuit begin
      called =
          let o = w.row in
          let same = found-same i s.db.orders o w.found in
          let b = can_execute provider c.env.clock s.breaker in
          let a = ask-IsPassing k c.env.clock s.breaker w.passing in
          let s1 = record s { breaker = b.1 } in
          let more : is_last o ≡ false = ground (arith, w.pending.attempts_made) in
          let found : find (has_order_id o.id) s.db.orders ≡ some o =
            subst (λ j. find (has_order_id j) s.db.orders ≡ some o) (sym same) w.found in
          rw (w.found) (
            rw (IsPending-undelivered n o w.pending)
              (rw (a.0) (rw more (attempted o s1 found w.pending w.same_jobs a.1 ref int))))

-- Calls for one order, one after the other.
unfoldable pub fulfill_all : Client → ℕ → List Call → Session → Session
fulfill_all client i [] s = s
fulfill_all client i (c ∷ cs) s = fulfill_all client i cs (fulfill_order_automated client c i s).1

module _ (client : Client) (fails : (i : ℕ) (s : Session) → Fails client i s) (i : ℕ)
    (jobs : List FailedJob) where
  retried :
      (c : Call) (n k : ℕ) (s : Session)
      → n < 2
      → suc k < failure_threshold
      → IsWaiting i n k jobs s
      → IsWaiting i (suc n) (suc k) jobs (fulfill_order_automated client c i s).1
  unfolding begin
  retried c n k s few passes w =
      let order = begin c.env.now w.row in
      let same = found-same i s.db.orders w.row w.found in
      let more : is_last order ≡ false = ground (arith, w.pending.attempts_made) in
      let back = λ (t : Session) (h : IsWaiting order.id (suc n) (suc k) jobs t).
        subst (λ j. IsWaiting j (suc n) (suc k) jobs t) same h in
      called client c fails (IsWaiting i (suc n) (suc k) jobs) n k jobs (omega arith) i s w
        (λ t e h.
          let r = refused-IsWaiting c order (suc n) k jobs t h more passes e in (r.0, back _ r.1))
        (λ t x h.
          let r = interrupted-IsWaiting c order (suc n) k jobs t h more passes x in
          (r.0, back _ r.1))

  abbrev Over : Session → Type 0
  Over s = IsGivenUp i 3 jobs s.db × (s.saved ≡ s.db)

  abandoned :
      (c : Call) (k : ℕ) (s : Session)
      → IsWaiting i 2 k jobs s
      → Over (fulfill_order_automated client c i s).1
  unfolding begin
  abandoned c k s w =
      let order = begin c.env.now w.row in
      let same = found-same i s.db.orders w.row w.found in
      let three : order.fulfillment_attempts ≡ 3 = ap suc w.pending.attempts_made in
      let last : is_last order ≡ true = ground (arith, w.pending.attempts_made) in
      let back = λ (d : Db) (g : IsGivenUp order.id order.fulfillment_attempts jobs d).
        subst (λ j. IsGivenUp j 3 jobs d) same (subst (λ m. IsGivenUp order.id m jobs d) three g) in
      called client c fails Over 2 k jobs (omega arith) i s w
        (λ t e h.
          let r =
            refused-IsGivenUp c order jobs w.pending.awaits t h.row h.same_jobs h.found last e in
          (r.0, (back _ r.1, r.2)))
        (λ t x h.
          let r =
            interrupted-IsGivenUp c order jobs w.pending.awaits t h.row h.same_jobs h.found last
              x in
          (r.0, (back _ r.1, r.2)))

  -- An order that is paid and waits for its delivery comes to an end when every call of the client
  -- fails, by a refusal or an exception: after as many calls as are left of the three attempts,
  -- none of which the circuit defers, it has failed and is in manual review, exactly one dead
  -- letter has been added, which names it and its three attempts, and all of it is committed.
  pub given_up_after_three :
      (c : Call) (cs : List Call) (n k : ℕ) (s : Session)
      → n + length cs ≡ 2
      → k + length cs < failure_threshold
      → IsWaiting i n k jobs s
      → let s' = fulfill_all client i (c ∷ cs) s in IsGivenUp i 3 jobs s'.db × (s'.saved ≡ s'.db)
  unfolding fulfill_all
  given_up_after_three c [] n k s left few w =
      let e : n ≡ 2 = omega arith in abandoned c k s (subst (λ m. IsWaiting i m k jobs s) e w)
  given_up_after_three c (c' ∷ cs) n k s left few w =
      given_up_after_three c' cs (suc n) (suc k) _ (omega arith) (omega arith)
        (retried c n k s (omega arith) (omega arith) w)
