-- ===== src/Notifications/Reading.antt =====
-- Which notifications the two readings change.
use gift_hub.Prelude.{
  ℕ, ◌==◌, ◌≡◌, refl, ap, false, List, [], ◌∷◌, arith, where_rows, count_rows, update_rows,
  Bool-cases, inl, inr, if◌then◌else◌,
}
use gift_hub.Models.Shop.{InAppNotification}
use gift_hub.Session.{Session, ok}
use gift_hub.Notifications.{is_for, is_unread, read, mark_all_as_read}

-- The notifications of a user.
abbrev pub notifications_of : ℕ → Session → List InAppNotification
notifications_of user s = where_rows (is_for user) s.db.in_app_notifications

abbrev pub unread_count : ℕ → Session → ℕ
unread_count user s = count_rows (is_unread user) s.db.in_app_notifications

module _ (user : ℕ) where
  read_done :
      (n : InAppNotification) → is_unread user (if is_unread user n then read n else n) ≡ false
  read_done n = elim (Bool-cases (is_unread user n)) [
    | inr u ↦ rw (u, u)
    | inl u ↦ elim (Bool-cases (is_for user n)) [ inl y ↦ rw (u, y) | inr y ↦ rw (u, y) ]
  ]

  none_left :
      (ns : List InAppNotification)
      → count_rows (is_unread user) (update_rows (is_unread user) read ns) ≡ 0
  none_left [] = refl
  none_left (n ∷ ns) = rw (read_done n) (omega (arith, none_left ns))

  others_kept :
      (other : ℕ) (ns : List InAppNotification)
      → (other == user) ≡ false
      → where_rows (is_for other) (update_rows (is_unread user) read ns)
        ≡ where_rows (is_for other) ns
  others_kept other [] h = refl
  others_kept other (n ∷ ns) h = elim (Bool-cases (is_for other n)) [
    | inl y ↦
        let differs : is_for user n ≡ false = ground arith in
        rw (differs, y) (ap (λ t. n ∷ t) (others_kept other ns h))
    | inr y ↦ elim (Bool-cases (is_unread user n)) [
      | inl u ↦ rw (u, y) (others_kept other ns h)
      | inr u ↦ rw (u, y) (others_kept other ns h)
    ]
  ]

  -- Reading all of a user's notifications returns how many were unread, leaves none of them unread,
  -- keeps the notifications of every other user as they are, and commits that.
  pub mark_all-reads :
      (s : Session)
      → (s' : Session) × ((mark_all_as_read user s ≡ (ok (unread_count user s), s'))
          × ((unread_count user s' ≡ 0)
              × (((other : ℕ)
                    → (other == user) ≡ false
                    → notifications_of other s' ≡ notifications_of other s)
                  × (s'.saved ≡ s'.db))))
  unfolding mark_all_as_read
  mark_all-reads s = (
    (mark_all_as_read user s).1,
    (
      refl,
      (
        none_left s.db.in_app_notifications,
        ((λ other h. others_kept other s.db.in_app_notifications h), refl),
      ),
    ),
  )
