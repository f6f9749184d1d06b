-- ===== src/Examples/Stops.antt =====
-- The theorems on the emergency stop at concrete calls.
use veyaan_core_backend.Prelude.{
  ℕ, ◌==◌, ◌≢◌, ap, ◌∙◌, inl, inr, Bool-cases, Bool, true, Option, none, some, ◌≡◌, refl, any,
  select, find?, arith,
}
use veyaan_core_backend.Python.{Error, ok, err}
use veyaan_core_backend.Database.{Environment, World, Cached, entry}
use veyaan_core_backend.Database.Session.{for_each, with_session}
use veyaan_core_backend.Command.StateMachine.{
  find_command, contains, terminal_states, allowed_transitions, transition_command,
  record_transition,
}
use veyaan_core_backend.EmergencyStop.Model.{was_active}
use veyaan_core_backend.EmergencyStop.Service.{
  is_active, activate, find_stop, device_ids_of, insert_stop, blockable_ids, block_command,
  append_audit,
}
use veyaan_core_backend.EmergencyStop.Service.Blocking.{IsKeyed, activate-find_command}
use veyaan_core_backend.Migrations.{trigger_accepts}
use veyaan_core_backend.Command.Model.{Command, queued, approved, blocked_by_emergency_stop}
use veyaan_core_backend.EmergencyStop.Service.Cache.{last_write, HonestCache}
use veyaan_core_backend.Command.Service.{create_command}
use veyaan_core_backend.System.{stop, perform, Run, here, next}
use veyaan_core_backend.System.Coherence.{Run-is_active, Run-create_command}
use veyaan_core_backend.Examples.{at_time, ping_ids, ping_request, sent_ping, office}

office_IsKeyed : IsKeyed office.database
unfolding find_command find?
office_IsKeyed = (refl, tt)

abbrev blocked_ping : Command
blocked_ping = record sent_ping { state = blocked_by_emergency_stop; updated_at = 5 }

office_unapproved :
    (k : ℕ) (b : Command) → find_command k office.database ≡ some b → b.state ≢ approved
unfolding find_command find?
office_unapproved k b found = elim (Bool-cases (30 == k)) [
  | inl same ↦ λ e.
      let row : sent_ping ≡ b = (let at = rw same at found in cc at) in
      let bad : queued ≡ approved = ap (λ (c : Command). c.state) row ∙ e in cc bad
  | inr other ↦ λ e. let bad = rw other at found in cc bad
]

activate-find_command_example :
    (d : Command) × (d ≡ blocked_ping)
    × (find_command 30 (with_session (activate (at_time 5) 1 none 1 60) office).1.database ≡ some d)
    × (trigger_accepts queued d.state ≡ true)
unfolding find_stop find_command find? any
activate-find_command_example =
    activate-find_command (at_time 5) 1 none 1 60 office 30 sent_ping refl office_IsKeyed
      office_unapproved refl

-- Valkey that never forgets.
abbrev answer : Option Bool → Option Cached
answer none = none
answer (some b) = some (entry (some b))

abbrev remembering : Environment
remembering = record (at_time 6) { cached = λ calls k. answer (last_write k calls) }

honest_answer :
    (o : Option Bool) (v : Cached)
    → answer o ≡ some v
    → (b : Bool) × (v ≡ entry (some b)) × (o ≡ some b)
honest_answer none v h = ground arith
honest_answer (some b) v h = (b, ground arith, refl)

remembering-HonestCache : HonestCache remembering
remembering-HonestCache = record { last = λ calls k v h. honest_answer (last_write k calls) v h }

abbrev halted : World
halted = perform remembering (stop 1 none 1 60) office

halted-Run : Run office halted
halted-Run = next here remembering (stop 1 none 1 60) tt

Run-is_active_example :
    (with_session (is_active remembering 1) halted).0
    ≡ ok (was_active (find_stop 1 halted.database))
Run-is_active_example = Run-is_active halted-Run refl remembering remembering-HonestCache 1

halted_active : was_active (find_stop 1 halted.database) ≡ true
unfolding find_stop activate find? device_ids_of select insert_stop for_each blockable_ids
    block_command transition_command find_command contains terminal_states allowed_transitions
    append_audit record_transition
halted_active = refl

Run-create_command_example :
    (e : Error) × ((with_session (create_command remembering ping_ids ping_request 1) halted).0
      ≡ err e)
    × ((with_session (create_command remembering ping_ids ping_request 1) halted).1.database
        ≡ halted.database)
Run-create_command_example =
    Run-create_command halted-Run refl remembering remembering-HonestCache 1 halted_active ping_ids
      ping_request
