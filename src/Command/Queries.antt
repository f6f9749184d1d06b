-- ===== src/Command/Queries.antt =====
-- The queries of app/commands/repository.py, and the pages of app/commands/routes.py.
pub mod Owned
use veyaan_core_backend.Prelude.{
  ℕ, zero, suc, ◌++◌, String, Bool, true, false, not, ◌&&◌, ◌||◌, ◌==◌, leb, ltb, ◌≤◌, ◌*◌, ◌+◌,
  Option, none, some, List, [], ◌∷◌, ◌≡◌, refl, sym, ◌∙◌, ap, if◌then◌else◌, find?, select, take,
  length, str_eq,
}
use veyaan_core_backend.Database.{Database}
use veyaan_core_backend.Device.Model.{Device}
use veyaan_core_backend.Device.Repository.{find_device}
use veyaan_core_backend.EmergencyStop.Model.{EmergencyStop}
use veyaan_core_backend.EmergencyStop.Service.{find_stop}
use veyaan_core_backend.Command.Model.{Command, CommandState, queued, acknowledged, same}
use veyaan_core_backend.Command.Service.{risk_text, is_owner}
use veyaan_core_backend.Pages.{given, text_is, page_of, has_next}

-- The filters of `list_commands`. A text that is empty is no filter.
pub record Filter : Type 0 where
  pub owner_id : Option ℕ
  pub device_id : Option ℕ
  pub state : Option CommandState
  pub risk_level : Option String
  pub command_type : Option String
  pub start_date : Option ℕ
  pub end_date : Option ℕ

unfoldable pub matches : Filter → Database → Command → Bool
unfolding find_device
matches f db c =
    given f.owner_id (λ owner_id. is_owner owner_id (find_device c.device_id db))
    && given f.device_id (λ id. c.device_id == id)
    && given f.state (same c.state)
    && given f.risk_level (text_is (risk_text c.risk_level))
    && given f.command_type (text_is c.command_type)
    && given f.start_date (λ t. leb t c.created_at)
    && given f.end_date (λ t. leb c.created_at t)

-- How the database orders the rows of a query with ORDER BY; rows of one time may stand in any order.
abbrev pub Order : Type 0
Order = List Command → List Command

-- The page and the total.
unfoldable pub list_commands : Order → Filter → ℕ → ℕ → Database → List Command × ℕ
unfolding matches page_of
list_commands latest_first f page page_size db = (
  page_of page page_size (latest_first (select (matches f db) db.commands)),
  length (select (matches f db) db.commands),
)

-- `EmergencyStop.active IS NULL OR NOT EmergencyStop.active`, after the outer join on the owner.
abbrev not_active : Option EmergencyStop → Bool
not_active none = true
not_active (some stop) = not stop.active

abbrev stop_of : Option Device → Database → Option EmergencyStop
stop_of none db = none
stop_of (some d) db = find_stop d.owner_id db

abbrev is_there : Option Device → Bool
is_there none = false
is_there (some d) = true

abbrev unexpired : ℕ → Option ℕ → Bool
unexpired now none = true
unexpired now (some t) = ltb now t

unfoldable pub is_pending : ℕ → Database → Command → Bool
unfolding find_device find_stop
is_pending now db c =
    let device = find_device c.device_id db in
    is_there device
    && same c.state queued
    && unexpired now c.expires_at
    && not_active (stop_of device db)

unfoldable pub get_pending_commands : Order → ℕ → ℕ → Database → List Command
unfolding is_pending take
get_pending_commands oldest_first now limit db =
    take limit (oldest_first (select (is_pending now db) db.commands))

unfoldable pub get_acknowledged_commands : Order → ℕ → Database → List Command
unfolding take
get_acknowledged_commands oldest_first limit db =
    take limit (oldest_first (select (λ c. same c.state acknowledged) db.commands))

pub record CommandPage : Type 0 where
  pub items : List Command
  pub total : ℕ
  pub has_next : Bool
  pub has_prev : Bool

-- What the route answers: the commands, the total, and what it says of the pages around.
unfoldable pub list_page : Order → Filter → ℕ → ℕ → Database → CommandPage
unfolding list_commands
list_page latest_first f page page_size db =
    let (commands, total) = list_commands latest_first f page page_size db in
    record {
      items = commands;
      total = total;
      has_next = has_next page page_size total;
      has_prev = ltb 1 page;
    }
