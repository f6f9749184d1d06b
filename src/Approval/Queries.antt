-- ===== src/Approval/Queries.antt =====
-- The list of app/approvals/repository.py, and the page of app/approvals/routes.py.
use veyaan_core_backend.Prelude.{ℕ, String, Bool, ◌&&◌, ◌==◌, ltb, Option, List, select, length}
use veyaan_core_backend.Database.{Database}
use veyaan_core_backend.Command.Service.{risk_text}
use veyaan_core_backend.Approval.Model.{Approval, ApprovalStatus, same_status}
use veyaan_core_backend.Pages.{given, text_is, page_of, has_next}

unfoldable pub is_listed : ℕ → Option ApprovalStatus → Option String → Approval → Bool
is_listed owner_id status risk_level a =
    a.owner_id == owner_id
    && given status (same_status a.status)
    && given risk_level (text_is (risk_text a.risk_level))

pub record ApprovalPage : Type 0 where
  pub items : List Approval
  pub total : ℕ
  pub has_next : Bool
  pub has_prev : Bool

-- The page and the total, in the order that the database gives.
unfoldable pub list_approvals :
    (List Approval → List Approval)
    → ℕ
    → Option ApprovalStatus
    → Option String
    → ℕ
    → ℕ
    → Database
    → List Approval × ℕ
unfolding is_listed page_of
list_approvals latest_first owner_id status risk_level page page_size db =
    let rows = select (is_listed owner_id status risk_level) db.approvals in
    (page_of page page_size (latest_first rows), length rows)

-- What the route answers to its user.
unfoldable pub approval_page :
    (List Approval → List Approval)
    → ℕ
    → Option ApprovalStatus
    → Option String
    → ℕ
    → ℕ
    → Database
    → ApprovalPage
unfolding list_approvals
approval_page latest_first current_user status risk_level page page_size db =
    let (approvals, total) =
      list_approvals latest_first current_user status risk_level page page_size db in
    record {
      items = approvals;
      total = total;
      has_next = has_next page page_size total;
      has_prev = ltb 1 page;
    }
