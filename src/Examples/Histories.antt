-- ===== src/Examples/Histories.antt =====
-- The theorems on whole histories at concrete runs: a device is paired and is sent a command, and a
-- cancelled command is approved too late.
use veyaan_core_backend.Prelude.{◌≤◌, true, some, [], ◌∷◌, ◌≡◌, refl, any, select, find?, update}
use veyaan_core_backend.Database.{World}
use veyaan_core_backend.Device.Service.{start_pairing, confirm_pairing, find_pairing}
use veyaan_core_backend.EmergencyStop.Service.{append_audit, find_stop}
use veyaan_core_backend.Command.Service.{create_command, approve_command}
use veyaan_core_backend.Approval.Repository.{create_approval}
use veyaan_core_backend.Command.Service.Lifecycle.{IsFresh}
use veyaan_core_backend.Command.Model.{Command, approved, queued, cancelled}
use veyaan_core_backend.Command.StateMachine.{
  find_command, contains, terminal_states, allowed_transitions, transition_command,
  record_transition, write_state,
}
use veyaan_core_backend.Command.StateMachine.Writes.{trace}
use veyaan_core_backend.Command.Lifecycle.{Lifecycle, IsRecorded, visits}
use veyaan_core_backend.Command.History.{count_moves}
use veyaan_core_backend.System.{
  pair, confirm, create, approve, stop, perform, Run, here, next, empty,
}
use veyaan_core_backend.Audit.Trail.{Trail}
use veyaan_core_backend.System.Trail.{Run-Trail}
use veyaan_core_backend.System.Audited.{IsAudited, Run-IsAudited}
use veyaan_core_backend.System.Histories.{
  Run-approved, Run-Lifecycle, Run-IsRecorded, Run-count_moves, Run-visits, Run-terminal,
}
use veyaan_core_backend.Examples.{
  at_time, start, laptop, laptop_ids, paired, ping_request, ping_ids, sent, sent_ping,
  trusted_laptop,
}

ping_IsFresh : IsFresh ping_ids paired.database
unfolding find_command trace start_pairing confirm_pairing find? find_pairing append_audit select
ping_IsFresh = record { no_command = refl; no_events = refl }

sent-Run : Run start sent
sent-Run =
    next
      (next (next here (at_time 0) (pair 10 "123456" laptop) tt) (at_time 1)
        (confirm laptop_ids 10 1 "123456") tt)
      (at_time 2) (create ping_ids ping_request 1) ping_IsFresh

sent_found : find_command 30 sent.database ≡ some sent_ping
unfolding find_command start_pairing confirm_pairing create_command find? find_pairing append_audit
    find_stop transition_command contains terminal_states allowed_transitions record_transition
    update write_state
sent_found = refl

Run-Lifecycle_example : Lifecycle empty sent.database
Run-Lifecycle_example = Run-Lifecycle sent-Run

Run-IsRecorded_example : IsRecorded 30 sent.database
Run-IsRecorded_example = Run-IsRecorded sent-Run refl 30

Run-count_moves_example : count_moves (trace 30 sent.database) ≤ 9
Run-count_moves_example = Run-count_moves sent-Run refl 30

Run-visits_example : visits queued (trace 30 sent.database) ≡ true
unfolding contains any
Run-visits_example = Run-visits sent-Run refl queued 30 sent_ping sent_found refl

abbrev cancelled_ping : Command
cancelled_ping = record sent_ping { state = cancelled; finished_at = some 3; updated_at = 3 }

abbrev closed_office : World
closed_office = record {
  database = record empty { devices = trusted_laptop ∷ []; commands = cancelled_ping ∷ [] };
  calls = [];
}

closed-Run : Run closed_office (perform (at_time 4) (approve 30) closed_office)
closed-Run = next here (at_time 4) (approve 30) tt

closed_found : find_command 30 closed_office.database ≡ some cancelled_ping
unfolding find_command find?
closed_found = refl

Run-terminal_example :
    (d : Command) × (find_command 30 (perform (at_time 4) (approve 30) closed_office).database
      ≡ some d)
    × (d.state ≡ cancelled)
unfolding contains any terminal_states
Run-terminal_example = Run-terminal closed-Run 30 cancelled_ping closed_found refl

Run-Trail_example : Trail empty sent.database
Run-Trail_example = Run-Trail sent-Run

abbrev halted : World
halted = perform (at_time 3) (stop 1 (some "drill") 1 50) sent

Run-IsAudited_example : IsAudited halted.database
Run-IsAudited_example =
    Run-IsAudited (next sent-Run (at_time 3) (stop 1 (some "drill") 1 50) tt) refl

-- The same command, asked for with an approval, which is given.
abbrev approved_run : World
approved_run = perform (at_time 3) (approve 30) (
    perform (at_time 2) (create ping_ids (record ping_request { requires_approval = true }) 1)
      paired)

approved-Run : Run start approved_run
approved-Run =
    next
      (next
        (next (next here (at_time 0) (pair 10 "123456" laptop) tt) (at_time 1)
          (confirm laptop_ids 10 1 "123456") tt)
        (at_time 2) (create ping_ids (record ping_request { requires_approval = true }) 1)
        ping_IsFresh)
      (at_time 3) (approve 30) tt

abbrev approved_ping : Command
approved_ping = record sent_ping { requires_approval = true; updated_at = 3 }

approved_found : find_command 30 approved_run.database ≡ some approved_ping
unfolding find_command start_pairing confirm_pairing create_command find? find_pairing append_audit
    find_stop transition_command contains terminal_states allowed_transitions record_transition
    update write_state approve_command create_approval
approved_found = refl

Run-approved_example : visits approved (trace 30 approved_run.database) ≡ true
unfolding contains any
Run-approved_example = Run-approved approved-Run refl 30 approved_ping approved_found refl refl
