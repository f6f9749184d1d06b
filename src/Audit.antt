-- ===== src/Audit.antt =====
-- app/audit: the query of the log, by itself and as the route asks it.
pub mod Trail
use veyaan_core_backend.Prelude.{
  ℕ, zero, suc, String, Bool, true, false, ◌&&◌, ◌==◌, ltb, leb, Option, none, some, List, [], ◌++◌,
  select, length,
}
use veyaan_core_backend.Database.{Database}
use veyaan_core_backend.EmergencyStop.Model.{AuditLog}
use veyaan_core_backend.Pages.{given, text_is, page_of, has_next}

-- The filters of `query_audit_logs`. A text that is empty is no filter.
pub record AuditFilter : Type 0 where
  pub user_id : Option ℕ
  pub category : Option String
  pub action : Option String
  pub result : Option String
  pub device_id : Option ℕ
  pub command_id : Option ℕ
  pub start_date : Option ℕ
  pub end_date : Option ℕ

-- `AuditLog.device_id == device_id` on a column that may be NULL.
abbrev pub is_id : Option ℕ → ℕ → Bool
is_id none wanted = false
is_id (some id) wanted = id == wanted

unfoldable pub is_queried : AuditFilter → AuditLog → Bool
is_queried f log =
    given f.user_id (is_id log.user_id)
    && given f.category (text_is log.category)
    && given f.action (text_is log.action)
    && given f.result (text_is log.result)
    && given f.device_id (is_id log.device_id)
    && given f.command_id (is_id log.command_id)
    && given f.start_date (λ t. leb t log.created_at)
    && given f.end_date (λ t. leb log.created_at t)

pub record AuditPage : Type 0 where
  pub items : List AuditLog
  pub total : ℕ
  pub has_next : Bool
  pub has_prev : Bool

-- The first argument is how the database orders the rows by their time.
unfoldable pub query_audit_logs :
    (List AuditLog → List AuditLog) → AuditFilter → ℕ → ℕ → Database → AuditPage
unfolding is_queried page_of
query_audit_logs latest_first f page page_size db =
    let rows = select (is_queried f) db.audit in
    let total = length rows in
    record {
      items = page_of page page_size (latest_first rows);
      total = total;
      has_next = has_next page page_size total;
      has_prev = ltb 1 page;
    }

-- The query of the route: the log of the user who asks. How the rows become the answer is not modelled.
unfoldable pub list_audit_logs :
    (List AuditLog → List AuditLog) → ℕ → AuditFilter → ℕ → ℕ → Database → AuditPage
unfolding query_audit_logs
list_audit_logs latest_first current_user f page page_size db =
    query_audit_logs latest_first (record f { user_id = some current_user }) page page_size db
