-- ===== src/Support/Threads.antt =====
-- The messages of a ticket.
use gift_hub.Prelude.{
  ℕ, ◌==◌, ◌≡◌, refl, sym, ap, ◌∙◌, String, Bool, true, false, some, List, [], ◌∷◌, ◌++◌, arith,
  str_eq, find, where_rows, update_rows, Bool-cases, inl, inr, subst, find-test, find-replace,
}
use gift_hub.Models.Shop.{SupportTicket, TicketMessage}
use gift_hub.Session.{Session, ok}
use gift_hub.Support.{message, add_message, has_ticket_id, set_ticket, replied, add_reply}

-- The messages of a ticket, in the order of their writing.
abbrev pub thread : ℕ → Session → List TicketMessage
thread i s = where_rows (λ (m : TicketMessage). m.ticket_id == i) s.db.ticket_messages

abbrev in_thread : ℕ → TicketMessage → Bool
in_thread i m = m.ticket_id == i

thread-append :
    (i : ℕ) (ms : List TicketMessage) (m : TicketMessage)
    → m.ticket_id ≡ i
    → where_rows (in_thread i) (ms ++ m ∷ []) ≡ where_rows (in_thread i) ms ++ m ∷ []
thread-append i [] m h = let y : in_thread i m ≡ true = ground arith in rw y
thread-append i (n ∷ ms) m h = elim (Bool-cases (in_thread i n)) [
  | inl y ↦ rw y (ap (λ t. n ∷ t) (thread-append i ms m h))
  | inr w ↦ rw w (thread-append i ms m h)
]

thread-other :
    (i : ℕ) (ms : List TicketMessage) (m : TicketMessage)
    → in_thread i m ≡ false
    → where_rows (in_thread i) (ms ++ m ∷ []) ≡ where_rows (in_thread i) ms
thread-other i [] m h = rw h
thread-other i (n ∷ ms) m h = elim (Bool-cases (in_thread i n)) [
  | inl y ↦ rw y (ap (λ t. n ∷ t) (thread-other i ms m h))
  | inr w ↦ rw w (thread-other i ms m h)
]

replied-id : (now : ℕ) (kind : String) (t : SupportTicket) → (replied now kind t).id ≡ t.id
replied-id now kind t = elim (Bool-cases (str_eq kind "admin")) [ inl y ↦ rw y | inr n ↦ rw n ]

found_again :
    (i : ℕ) (t u : SupportTicket) (ts : List SupportTicket)
    → find (has_ticket_id i) ts ≡ some t
    → u.id ≡ t.id
    → find (has_ticket_id i) (update_rows (has_ticket_id u.id) (λ _. u) ts) ≡ some u
found_again i t u ts h k =
    let mine : t.id ≡ i = ground (arith, find-test (has_ticket_id i) ts h) in
    let same : u.id ≡ i = k ∙ mine in
    let y : has_ticket_id i u ≡ true = ground arith in
    subst (λ j. find (has_ticket_id i) (update_rows (has_ticket_id j) (λ _. u) ts) ≡ some u)
      (sym same) (find-replace (has_ticket_id i) u ts h y)

-- A reply to a known ticket adds its message at the end of the ticket's messages and none to any
-- other ticket; the ticket is found again with the time of the reply, in progress if an
-- administrator replied; and all of it is committed.
pub reply_threads :
    (now i sender : ℕ) (kind text : String) (s : Session) {t : SupportTicket}
    → find (has_ticket_id i) s.db.support_tickets ≡ some t
    → (s' : Session) × ((add_reply now i sender kind text s
          ≡ (ok (message now i sender kind text), s'))
        × ((thread i s' ≡ thread i s ++ message now i sender kind text ∷ [])
            × (((j : ℕ) → (i == j) ≡ false → thread j s' ≡ thread j s)
                × ((find (has_ticket_id i) s'.db.support_tickets ≡ some (replied now kind t))
                    × (s'.saved ≡ s'.db)))))
unfolding add_reply
reply_threads now i sender kind text s {t} h =
    let m = message now i sender kind text in
    let d = set_ticket (replied now kind t) (add_message m s.db) in
    (
      record s { db = d; saved = d },
      (
        rw h,
        (
          thread-append i s.db.ticket_messages m refl,
          (
            (λ j n. thread-other j s.db.ticket_messages m n),
            (
              found_again i t (replied now kind t) s.db.support_tickets h (replied-id now kind t),
              refl,
            ),
          ),
        ),
      ),
    )
