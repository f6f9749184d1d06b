-- ===== src/EmergencyStop/Service.antt =====
-- app/emergency_stop/service.py: EmergencyStopService
pub mod Unchanged
pub mod Kept
pub mod Reads
pub mod Lifecycle
pub mod Cache
pub mod Blocking
pub mod Stops
use veyaan_core_backend.Prelude.{
  ℕ, String, Bool, true, false, ◌&&◌, ◌||◌, ◌==◌, List, [], ◌∷◌, ◌++◌, map, Option, none, some,
  if◌then◌else◌, select, find?, update, any,
}
use veyaan_core_backend.Python.{Dict, Json, uuid, time, flag, of_optional}
use veyaan_core_backend.Database.{
  Database, Environment, Cached, entry, other, cache_set, cache_delete,
}
use veyaan_core_backend.Database.Session.{
  Tx, pure, gets, gets_committed, gets_calls, modify, commit, call, ◌>>=◌, ◌>>◌, case_found,
  for_each, try_catch,
}
use veyaan_core_backend.Command.Model.{
  Command, CommandState, same, queued, approved, blocked_by_emergency_stop,
}
use veyaan_core_backend.Command.StateMachine.{transition_command}
use veyaan_core_backend.Device.Model.{Device}
use veyaan_core_backend.EmergencyStop.Model.{EmergencyStop, AuditLog}
use veyaan_core_backend.Outbox.Model.{emergency_stop, emergency_resume}
use veyaan_core_backend.Outbox.Repository.{add_event}

unfoldable pub find_stop : ℕ → Database → Option EmergencyStop
find_stop owner_id db = find? (λ e. e.owner_id == owner_id) db.emergency_stops

-- What a cached value says: the `active` of a `dict`, or the truth of anything else.
abbrev pub cached_active : Cached → Bool
cached_active (entry (some b)) = b
cached_active (entry none) = false
cached_active (other b) = b

-- A row found in a session of its own, which sees the committed tables.
is_active_row : ℕ → EmergencyStop → Tx Bool
is_active_row owner_id stop =
    if stop.active
    then (do call (cache_set owner_id true stop.activated_at 60); pure true)
    else pure false

unfoldable pub is_active : Environment → ℕ → Tx Bool
unfolding is_active_row
is_active env owner_id = do
  cached ← gets_calls (λ calls. env.cached calls owner_id)
  case_found cached
      (do
        found ← gets_committed (find_stop owner_id)
        case_found found (pure false) (λ stop. is_active_row owner_id stop))
      (λ v. pure (cached_active v))

-- `value in values`, on ids.
unfoldable pub contains_id : ℕ → List ℕ → Bool
unfolding any
contains_id i ids = any (λ j. j == i) ids

unfoldable pub device_ids_of : ℕ → Database → List ℕ
device_ids_of owner_id db = map (λ d. d.id) (select (λ d. d.owner_id == owner_id) db.devices)

abbrev pub is_blockable : CommandState → Bool
is_blockable s = same s queued || same s approved

unfoldable pub blockable_ids : List ℕ → Database → List ℕ
unfolding contains_id
blockable_ids dev_ids db =
    map (λ c. c.id)
      (select (λ c. contains_id c.device_id dev_ids && is_blockable c.state) db.commands)

-- The loop body: a failure is logged and does not abort the activation.
unfoldable pub block_command : Environment → ℕ → Tx (Unit {0})
block_command env cmd_id =
    try_catch
      (do
        transition_command env cmd_id blocked_by_emergency_stop "emergency_stop_activation" none
        pure tt)
      (λ _. pure tt)

block_listed : Environment → List ℕ → Tx (Unit {0})
block_listed env [] = pure tt
block_listed env (d ∷ dev_ids) = do
  cmd_ids ← gets (blockable_ids (d ∷ dev_ids))
  for_each cmd_ids (block_command env)

unfoldable pub block_commands : Environment → ℕ → Tx (Unit {0})
unfolding block_listed
block_commands env owner_id = do dev_ids ← gets (device_ids_of owner_id); block_listed env dev_ids

-- app/audit/service.py and app/audit/repository.py: `create_audit_log` in the caller's session.
unfoldable pub append_audit : AuditLog → Database → Database
append_audit log db = record db { audit = db.audit ++ log ∷ [] }

unfoldable pub create_audit_log : AuditLog → Tx (Unit {0})
create_audit_log log = modify (append_audit log)

abbrev stop_log : ℕ → ℕ → String → Dict → AuditLog
stop_log now user_id action metadata = record {
  user_id = some user_id;
  device_id = none;
  command_id = none;
  approval_id = none;
  category = "emergency_stop";
  action = action;
  result = "success";
  event_metadata = some metadata;
  created_at = now;
}

unfoldable pub insert_stop : EmergencyStop → Database → Database
insert_stop stop db = record db { emergency_stops = db.emergency_stops ++ stop ∷ [] }

unfoldable pub write_stop : ℕ → (EmergencyStop → EmergencyStop) → Database → Database
write_stop owner_id f db = record db {
  emergency_stops = update (λ e. e.owner_id == owner_id) f db.emergency_stops;
}

abbrev pub activation_payload : Environment → ℕ → Option String → Dict
activation_payload env owner_id reason =
    ("owner_id", uuid owner_id)
    ∷ ("active", flag true)
    ∷ ("reason", of_optional reason)
    ∷ ("timestamp", time env.now)
    ∷ []

notify_activated : Environment → ℕ → Option String → ℕ → Tx (Unit {0})
unfolding add_event
notify_activated env owner_id reason event_id =
    add_event env event_id "emergency_stop.activated" "owner" owner_id (emergency_stop owner_id)
      (activation_payload env owner_id reason)

-- The rest of `activate`, once the row is written and flushed. The cache is set after the commit.
activated : Environment → ℕ → Option String → ℕ → ℕ → EmergencyStop → Tx EmergencyStop
unfolding notify_activated create_audit_log block_commands
activated env owner_id reason actor_id event_id stop = do
  block_commands env owner_id
  create_audit_log (
      stop_log env.now actor_id "emergency_stop_activated"
        (("reason", of_optional reason) ∷ ("owner_id", uuid owner_id) ∷ []))
  notify_activated env owner_id reason event_id
  commit
  call (cache_set owner_id true stop.activated_at 3600)
  pure stop

abbrev pub new_stop : ℕ → ℕ → Option String → ℕ → EmergencyStop
new_stop now owner_id reason actor_id = record {
  owner_id = owner_id;
  active = true;
  reason = reason;
  activated_at = some now;
  released_at = none;
  activated_by = some actor_id;
  released_by = none;
}

abbrev pub set_active : ℕ → Option String → ℕ → EmergencyStop → EmergencyStop
set_active now reason actor_id stop = record stop {
  active = true;
  reason = reason;
  activated_at = some now;
  activated_by = some actor_id;
  released_at = none;
  released_by = none;
}

-- `event_id` is the id that the database gives to the outbox event.
unfoldable pub activate : Environment → ℕ → Option String → ℕ → ℕ → Tx EmergencyStop
unfolding activated notify_activated
activate env owner_id reason actor_id event_id = do
  existing ← gets (find_stop owner_id)
  case_found existing
      (do
        let stop = new_stop env.now owner_id reason actor_id
        modify (insert_stop stop)
        activated env owner_id reason actor_id event_id stop)
      (λ stop.
        if stop.active
        then (do notify_activated env owner_id stop.reason event_id; commit; pure stop)
        else (do
          modify (write_stop owner_id (set_active env.now reason actor_id))
          activated env owner_id reason actor_id event_id
              (set_active env.now reason actor_id stop)))

abbrev pub set_released : ℕ → ℕ → EmergencyStop → EmergencyStop
set_released now released_by stop = record stop {
  active = false;
  released_at = some now;
  released_by = some released_by;
}

release_row : Environment → ℕ → ℕ → ℕ → EmergencyStop → Tx (Option EmergencyStop)
unfolding add_event create_audit_log
release_row env owner_id released_by event_id stop = do
  modify (write_stop owner_id (set_released env.now released_by))
  create_audit_log
      (stop_log env.now released_by "emergency_stop_released" (("owner_id", uuid owner_id) ∷ []))
  add_event env event_id "emergency_stop.released" "owner" owner_id (emergency_resume owner_id)
      (("owner_id", uuid owner_id) ∷ ("active", flag false) ∷ ("timestamp", time env.now) ∷ [])
  commit
  call (cache_delete owner_id)
  pure (some (set_released env.now released_by stop))

unfoldable pub release : Environment → ℕ → ℕ → ℕ → Tx (Option EmergencyStop)
unfolding release_row
release env owner_id released_by event_id = do
  found ← gets (find_stop owner_id)
  case_found found (pure none) (λ stop.
      if stop.active then release_row env owner_id released_by event_id stop else pure none)

unfoldable pub get_status : ℕ → Tx (Option EmergencyStop)
get_status owner_id = gets (find_stop owner_id)
