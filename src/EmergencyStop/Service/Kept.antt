-- ===== src/EmergencyStop/Service/Kept.antt =====
-- The emergency stop is made of the shared steps the writes of its own table and of its
-- cache.
use veyaan_core_backend.Prelude.{ℕ, String, Option, List, [], ◌∷◌}
use veyaan_core_backend.Database.{Environment, Call}
use veyaan_core_backend.Database.Session.{Session, modify, call}
use veyaan_core_backend.Database.Keeps.{Keeps, keeps_rules}
use veyaan_core_backend.Kept.{IsKept, kept_rules, Keeps-append_event, Keeps-create_audit_log}
use veyaan_core_backend.EmergencyStop.Model.{EmergencyStop}
use veyaan_core_backend.EmergencyStop.Service.{
  block_command, block_listed, block_commands, insert_stop, write_stop, activated, activate,
  release,
}
use veyaan_core_backend.Outbox.Repository.{add_event}

module _ {P : Session → Type 0} (r : IsKept P) where
  Keeps-block_command : (env : Environment) (i : ℕ) → Keeps P (block_command env i)
  unfolding block_command
  Keeps-block_command env i = search kept_rules

  Keeps-block_listed : (env : Environment) (ids : List ℕ) → Keeps P (block_listed env ids)
  unfolding block_listed
  Keeps-block_listed env [] = search keeps_rules
  Keeps-block_listed env (i ∷ ids) = search (keeps_rules, Keeps-block_command)

ruleset stop_rules = (kept_rules, Keeps-append_event, Keeps-create_audit_log, Keeps-block_listed)

module _ {P : Session → Type 0} (r : IsKept P)
    (inserts : (stop : EmergencyStop) → Keeps P (modify (insert_stop stop)))
    (changes : (owner_id : ℕ) (f : EmergencyStop → EmergencyStop)
      → Keeps P (modify (write_stop owner_id f)))
    (calls : (c : Call) → Keeps P (call c)) (env : Environment) (owner_id : ℕ) where
  Keeps-activated :
      (reason : Option String) (actor_id event_id : ℕ) (stop : EmergencyStop)
      → Keeps P (activated env owner_id reason actor_id event_id stop)
  unfolding activated block_commands add_event
  Keeps-activated reason actor_id event_id stop = search (stop_rules, calls) depth 14

  pub Keeps-activate :
      (reason : Option String) (actor_id event_id : ℕ)
      → Keeps P (activate env owner_id reason actor_id event_id)
  unfolding activate
  Keeps-activate reason actor_id event_id =
      search (stop_rules, inserts, changes, Keeps-activated) depth 14

  pub Keeps-release :
      (released_by event_id : ℕ) → Keeps P (release env owner_id released_by event_id)
  unfolding release
  Keeps-release released_by event_id = search (stop_rules, changes, calls) depth 16
