-- ===== src/Notifications.antt =====
-- In-app notifications: app/services/notifications/service.py over the table of
-- app/models/notification.py. Titles and messages are left out; the instant is an argument.
pub mod Reading
use gift_hub.Prelude.{
  ℕ, suc, ◌==◌, String, Bool, true, false, not, ◌&&◌, Option, none, some, List, [], ◌∷◌, ◌++◌, ltb,
  find, where_rows, count_rows, update_rows, take, if◌then◌else◌,
}
use gift_hub.Models.{Db}
use gift_hub.Models.Shop.{InAppNotification}
use gift_hub.Session.{Exec, pure, gets, modify, commit, ◌>>=◌, ◌>>◌}

-- The identity that the database gives to the next row.
abbrev next_notification : List InAppNotification → ℕ
next_notification [] = 1
next_notification (n ∷ []) = suc n.id
next_notification (n ∷ m ∷ ns) = next_notification (m ∷ ns)

abbrev add_notification : InAppNotification → Db → Db
add_notification n d = record d { in_app_notifications = d.in_app_notifications ++ n ∷ [] }

unfoldable pub create_notification : ℕ → ℕ → String → Option String → Exec InAppNotification
create_notification now user_id kind related_entity = do
  n ← gets (λ d. record {
    id = next_notification d.in_app_notifications;
    user_id = user_id;
    kind = kind;
    related_entity = related_entity;
    is_read = false;
    created_at = now;
  })
  modify (add_notification n)
  commit
  pure n

abbrev pub has_notification_id : ℕ → InAppNotification → Bool
has_notification_id i n = n.id == i

abbrev pub is_for : ℕ → InAppNotification → Bool
is_for user_id n = n.user_id == user_id

-- `order_by(desc(created_at))`
unfoldable pub insert_by_date : InAppNotification → List InAppNotification → List InAppNotification
insert_by_date n [] = n ∷ []
insert_by_date n (m ∷ ms) =
    let rest = insert_by_date n ms in if ltb n.created_at m.created_at then m ∷ rest else n ∷ m ∷ ms

unfoldable pub sort_by_date : List InAppNotification → List InAppNotification
unfolding insert_by_date
sort_by_date [] = []
sort_by_date (n ∷ ns) = insert_by_date n (sort_by_date ns)

unfoldable pub list_notifications : ℕ → ℕ → Db → List InAppNotification
unfolding sort_by_date
list_notifications user_id limit d =
    take limit (sort_by_date (where_rows (is_for user_id) d.in_app_notifications))

abbrev pub read : InAppNotification → InAppNotification
read n = record n { is_read = true }

abbrev set_read : ℕ → Db → Db
set_read i d = record d {
  in_app_notifications = update_rows (has_notification_id i) read d.in_app_notifications;
}

abbrev mark_found : ℕ → Option InAppNotification → Exec Bool
mark_found user_id none = pure false
mark_found user_id (some n) =
    if is_for user_id n then (modify (set_read n.id) >> commit >> pure true) else pure false

unfoldable pub mark_as_read : ℕ → ℕ → Exec Bool
mark_as_read notification_id user_id =
    gets (λ d. find (has_notification_id notification_id) d.in_app_notifications)
    >>= mark_found user_id

abbrev pub is_unread : ℕ → InAppNotification → Bool
is_unread user_id n = is_for user_id n && not n.is_read

-- The number of rows that the update has changed.
unfoldable pub mark_all_as_read : ℕ → Exec ℕ
mark_all_as_read user_id = do
  count ← gets (λ d. count_rows (is_unread user_id) d.in_app_notifications)
  modify (λ d. record d {
    in_app_notifications = update_rows (is_unread user_id) read d.in_app_notifications;
  })
  commit
  pure count
