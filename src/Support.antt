-- ===== src/Support.antt =====
-- Support tickets: app/services/support/service.py over the tables of app/models/support.py. The
-- instant is an argument; log lines are left out.
pub mod Threads
use gift_hub.Prelude.{
  ℕ, suc, ◌==◌, String, Bool, true, false, not, Option, none, some, List, [], ◌∷◌, ◌++◌, str_eq,
  ltb, find, any, where_rows, update_rows, take, if◌then◌else◌,
}
use gift_hub.Prelude.Texts.{is_empty, strip}
use gift_hub.Models.{Db}
use gift_hub.Models.Shop.{SupportTicket, TicketMessage}
use gift_hub.Wallet.{has_user_id}
use gift_hub.Session.{Exec, pure, gets, or_raise, modify, commit, flush, ◌>>=◌, ◌>>◌, domain_error}

-- The identity that the database gives to the next ticket.
abbrev pub next_ticket : List SupportTicket → ℕ
next_ticket [] = 1
next_ticket (t ∷ []) = suc t.id
next_ticket (t ∷ u ∷ ts) = next_ticket (u ∷ ts)

abbrev pub new_ticket : ℕ → ℕ → String → String → Option ℕ → List SupportTicket → SupportTicket
new_ticket now user_id subject category order_id tickets = record {
  id = next_ticket tickets;
  user_id = user_id;
  order_id = order_id;
  category = category;
  subject = strip subject;
  status = "OPEN";
  assigned_admin_id = none;
  created_at = now;
  updated_at = now;
}

abbrev pub message : ℕ → ℕ → ℕ → String → String → TicketMessage
message now ticket_id sender_id sender_type text = record {
  ticket_id = ticket_id;
  sender_id = sender_id;
  sender_type = sender_type;
  text = strip text;
  created_at = now;
}

abbrev pub add_message : TicketMessage → Db → Db
add_message m d = record d { ticket_messages = d.ticket_messages ++ m ∷ [] }

-- `if initial_message and initial_message.strip()`
abbrev pub first_message : ℕ → SupportTicket → Option String → Db → Db
first_message now t none d = d
first_message now t (some s) d =
    if is_empty (strip s) then d else add_message (message now t.id t.user_id "user" s) d

unfoldable pub create_ticket :
    ℕ → ℕ → String → String → Option String → Option ℕ → Exec SupportTicket
unfolding strip
create_ticket now user_id subject category initial_message order_id = do
  t ← gets (λ d. new_ticket now user_id subject category order_id d.support_tickets)
  modify (λ d. record d { support_tickets = d.support_tickets ++ t ∷ [] })
  flush (λ d. any (has_user_id user_id) d.users)
  modify (first_message now t initial_message)
  commit
  pure t

abbrev pub has_ticket_id : ℕ → SupportTicket → Bool
has_ticket_id i t = t.id == i

abbrev pub set_ticket : SupportTicket → Db → Db
set_ticket t d = record d {
  support_tickets = update_rows (has_ticket_id t.id) (λ _. t) d.support_tickets;
}

abbrev pub replied : ℕ → String → SupportTicket → SupportTicket
replied now sender_type t =
    let u = record t { updated_at = now } in
    if str_eq sender_type "admin" then record u { status = "IN_PROGRESS" } else u

unfoldable pub add_reply : ℕ → ℕ → ℕ → String → String → Exec TicketMessage
unfolding strip
add_reply now ticket_id sender_id sender_type text = do
  found ← gets (λ d. find (has_ticket_id ticket_id) d.support_tickets)
  t ← or_raise (domain_error "TICKET_NOT_FOUND") found
  let m = message now ticket_id sender_id sender_type text
  modify (add_message m)
  modify (set_ticket (replied now sender_type t))
  commit
  pure m

abbrev assigned : Option ℕ → SupportTicket → SupportTicket
assigned none t = t
assigned (some i) t = record t { assigned_admin_id = some i }

unfoldable pub update_status : ℕ → ℕ → String → Option ℕ → Exec SupportTicket
update_status now ticket_id status admin = do
  found ← gets (λ d. find (has_ticket_id ticket_id) d.support_tickets)
  t ← or_raise (domain_error "TICKET_NOT_FOUND") found
  let u = assigned admin (record t { status = status; updated_at = now })
  modify (set_ticket u)
  commit
  pure u

-- `order_by(desc(column))`
unfoldable pub insert_by :
    (SupportTicket → ℕ) → SupportTicket → List SupportTicket → List SupportTicket
insert_by key t [] = t ∷ []
insert_by key t (u ∷ us) =
    let rest = insert_by key t us in if ltb (key t) (key u) then u ∷ rest else t ∷ u ∷ us

unfoldable pub sort_by : (SupportTicket → ℕ) → List SupportTicket → List SupportTicket
unfolding insert_by
sort_by key [] = []
sort_by key (t ∷ ts) = insert_by key t (sort_by key ts)

unfoldable pub list_user_tickets : ℕ → Db → List SupportTicket
unfolding sort_by
list_user_tickets user_id d =
    sort_by (λ t. t.created_at) (where_rows (λ t. t.user_id == user_id) d.support_tickets)

abbrev with_status : Option String → SupportTicket → Bool
with_status none t = true
with_status (some s) t = if is_empty s then true else str_eq t.status s

unfoldable pub list_all_tickets : Option String → ℕ → Db → List SupportTicket
unfolding sort_by
list_all_tickets status limit d =
    take limit (sort_by (λ t. t.updated_at) (where_rows (with_status status) d.support_tickets))
