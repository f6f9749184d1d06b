-- ===== src/Notification.antt =====
-- app/notifications/service.py, on the table of notification_records; a session commits it as any other.
pub mod Totals
use veyaan_core_backend.Prelude.{
  ℕ, String, Bool, true, false, not, ◌&&◌, ◌||◌, ◌==◌, ltb, Option, none, some, List, [], ◌∷◌, ◌++◌,
  if◌then◌else◌, any, select, update, length, str_eq,
}
use veyaan_core_backend.Python.{Dict, cut}
use veyaan_core_backend.Pages.{page_of}

pub data NotificationStatus : Type 0 where
  pending delivered failed : NotificationStatus

pub record NotificationRecord : Type 0 where
  pub id : ℕ
  pub user_id : ℕ
  pub notification_type : String
  pub channel : String
  pub status : NotificationStatus
  pub payload : Dict
  pub error_message : Option String
  pub created_at : ℕ
  pub delivered_at : Option ℕ

abbrev pub Table : Type 0
Table = List NotificationRecord

abbrev pub or_empty : Option Dict → Dict
or_empty none = []
or_empty (some d) = d

-- `create`, with the id and the time that the database gives.
unfoldable pub create :
    ℕ → ℕ → ℕ → String → String → Option Dict → Table → NotificationRecord × Table
create id now user_id notification_type channel payload table =
    let row : NotificationRecord = record {
      id = id;
      user_id = user_id;
      notification_type = notification_type;
      channel = channel;
      status = pending;
      payload = or_empty payload;
      error_message = none;
      created_at = now;
      delivered_at = none;
    } in
    (row, table ++ row ∷ [])

-- An UPDATE of the row with an id, and whether there was one.
unfoldable pub update_row : ℕ → (NotificationRecord → NotificationRecord) → Table → Bool × Table
unfolding update any
update_row id f table = (any (λ r. r.id == id) table, update (λ r. r.id == id) f table)

unfoldable pub mark_delivered : ℕ → ℕ → Table → Bool × Table
unfolding update_row
mark_delivered now id table =
    update_row id (λ r. record r { status = delivered; delivered_at = some now }) table

unfoldable pub mark_failed : ℕ → String → Table → Bool × Table
unfolding update_row cut
mark_failed id error table =
    update_row id (λ r. record r { status = failed; error_message = some (cut 500 error) }) table

-- `if notification_type: …`
abbrev pub is_of : Option String → NotificationRecord → Bool
is_of none r = true
is_of (some t) r = str_eq t "" || str_eq r.notification_type t

abbrev pub wanted : ℕ → Option String → NotificationRecord → Bool
wanted user_id notification_type r = (r.user_id == user_id) && is_of notification_type r

-- The page and the total; the count has no filter on the type. `latest_first` is the order in which
-- the database gives the rows.
unfoldable pub list_for_user : (Table → Table) → ℕ → Option String → ℕ → ℕ → Table → Table × ℕ
unfolding page_of select
list_for_user latest_first user_id notification_type page page_size table = (
  page_of page page_size (latest_first (select (wanted user_id notification_type) table)),
  length (select (λ r. r.user_id == user_id) table),
)
