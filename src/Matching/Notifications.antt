-- ===== src/Matching/Notifications.antt =====
-- `NotificationService` of app/services/notification_service.py over `NotificationRepository`
-- (app/repositories/notification_repo.py); creation is `notify` of World.
use matchmaking_backend.Prelude.{
  ℕ, ◌==◌, ◌≡◌, refl, ap, Bool, true, false, ◌&&◌, not, Option, none, some, List, [], ◌∷◌, arith,
  if◌then◌else◌, first, select, update, update_first, count_where, length, count_where-cleared,
}
use matchmaking_backend.Errors.{Result}
use matchmaking_backend.Models.{Notification}
use matchmaking_backend.World.{World, Exec, pure, gets, modify, ◌>>=◌, ◌>>◌}

abbrev is_own : ℕ → ℕ → Notification → Bool
is_own id user_id n = n.id == id && n.user_id == user_id

abbrev is_unread : ℕ → Notification → Bool
is_unread user_id n = n.user_id == user_id && not n.is_read

-- `NotificationRepository.mark_read`.
abbrev as_read : ℕ → Notification → Notification
as_read now n = record n { is_read = true; read_at = some now }

-- `NotificationRepository.get_for_user`.
abbrev find_own : ℕ → ℕ → World → Option Notification
find_own id user_id w = first (is_own id user_id) w.notifications

abbrev mark_found : ℕ → ℕ → ℕ → Option Notification → Exec (Option Notification)
mark_found user_id id now none = pure none
mark_found user_id id now (some n) = do
  modify λ w. record w {
    notifications = update_first (is_own id user_id) (as_read now) w.notifications;
  }
  pure (some (as_read now n))

-- `NotificationService.mark_read`.
unfoldable pub mark_read : ℕ → ℕ → ℕ → Exec (Option Notification)
mark_read user_id id now = do found ← gets (find_own id user_id); mark_found user_id id now found

-- `NotificationService.unread_count`, and `mark_all_read`, which answers how many it marked.
unfoldable pub unread_count : ℕ → World → ℕ
unread_count user_id w = count_where (is_unread user_id) w.notifications

unfoldable pub mark_all_read : ℕ → ℕ → Exec ℕ
mark_all_read user_id now = do
  rows ← gets λ w. select (is_unread user_id) w.notifications
  modify λ w. record w { notifications = update (is_unread user_id) (as_read now) w.notifications }
  pure (length rows)

length-select :
    (p : Notification → Bool) (ns : List Notification) → length (select p ns) ≡ count_where p ns
length-select p [] = refl
length-select p (n ∷ ns) = ground (arith, length-select p ns)

-- Marking all as read answers how many were unread, and leaves none unread.
mark_all_read-unread_count :
    (user_id now : ℕ) (w : World)
    → ((mark_all_read user_id now w).0 ≡ Result.ok (unread_count user_id w))
      × (unread_count user_id (mark_all_read user_id now w).1 ≡ 0)
unfolding mark_all_read unread_count
mark_all_read-unread_count user_id now w = (
  ap (λ n. Result.ok n) (length-select (is_unread user_id) w.notifications),
  count_where-cleared (is_unread user_id) (is_unread user_id) (as_read now) w.notifications gone,
)
  where
    gone :
        (n : Notification)
        → is_unread user_id (if is_unread user_id n then as_read now n else n) ≡ false
    gone n = ground arith
