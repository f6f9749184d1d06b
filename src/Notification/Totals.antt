-- ===== src/Notification/Totals.antt =====
-- The total that a list of notifications is sent with.
use veyaan_core_backend.Prelude.{
  ℕ, String, Bool, not, ◌&&◌, ◌==◌, ◌+◌, Option, [], ◌∷◌, ◌≡◌, refl, arith, select, length,
}
use veyaan_core_backend.Notification.{NotificationRecord, Table, is_of, wanted, list_for_user}

-- The notifications of a user that are of another type than the one asked for.
abbrev unwanted : ℕ → Option String → NotificationRecord → Bool
unwanted user_id t r = (r.user_id == user_id) && not (is_of t r)

-- The total counts the notifications of the user of every type: those that the pages hold, and those
-- of other types, which no page holds.
pub total-list_for_user :
    (order : Table → Table) (user_id : ℕ) (t : Option String) (page page_size : ℕ) (table : Table)
    → (list_for_user order user_id t page page_size table).1
      ≡ length (select (wanted user_id t) table) + length (select (unwanted user_id t) table)
unfolding list_for_user select
total-list_for_user order user_id t page page_size [] = refl
total-list_for_user order user_id t page page_size (r ∷ table) =
    ground (arith, total-list_for_user order user_id t page page_size table)
