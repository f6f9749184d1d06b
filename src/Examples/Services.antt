-- ===== src/Examples/Services.antt =====
-- The theorems on the services at concrete calls.
use veyaan_core_backend.Prelude.{
  true, false, none, some, List, [], ◌∷◌, ◌≡◌, refl, find?, ltb, arith,
}
use veyaan_core_backend.Python.{
  Error, err, api_error, emergency_stop_active, invalid_decision_nonce,
}
use veyaan_core_backend.Database.{Environment, World, entry}
use veyaan_core_backend.Database.Session.{with_session}
use veyaan_core_backend.Command.Model.{high}
use veyaan_core_backend.Command.StateMachine.{find_command, transition_command}
use veyaan_core_backend.Command.Service.{create_command}
use veyaan_core_backend.Command.Service.{find_by_key}
use veyaan_core_backend.Command.Service.Replay.{create_command-replayed}
use veyaan_core_backend.Command.Service.Atomicity.{create_command-atomic}
use veyaan_core_backend.Approval.Model.{Approval, pending}
use veyaan_core_backend.Approval.Repository.{find_approval, write_approval}
use veyaan_core_backend.Approval.Service.{decide_approval}
use veyaan_core_backend.Approval.Service.Decisions.{
  decide_approval-atomic, decide_approval-Authorized, Authorized,
}
use veyaan_core_backend.Device.Repository.{find_device}
use veyaan_core_backend.Device.Service.Pairing.{Guess, guess, guesses, guesses-IsRefused, IsRefused}
use veyaan_core_backend.EmergencyStop.Service.{append_audit}
use veyaan_core_backend.System.{empty}
use veyaan_core_backend.Examples.{
  at_time, laptop_ids, paired, ping_request, ping_ids, office, sent_ping,
}

-- Valkey says that the owner's emergency stop is active.
abbrev stopped : Environment
stopped = record (at_time 2) { cached = λ _ _. some (entry (some true)) }

create_command-atomic_example :
    (with_session (create_command stopped ping_ids ping_request 1) office).1.database
    ≡ office.database
unfolding create_command find_device find?
create_command-atomic_example =
    create_command-atomic stopped ping_ids ping_request 1 office
      (api_error emergency_stop_active 423) refl

abbrev open_approval : Approval
open_approval = record {
  id = 40;
  command_id = 30;
  owner_id = 1;
  risk_level = high;
  action_title = "Approve";
  action_description = "Approve the command";
  status = pending;
  decision_nonce_hash = "nonce";
  expires_at = 100;
  decided_at = none;
  decision_note = none;
}

abbrev desk : World
desk = record { database = record empty { approvals = open_approval ∷ [] }; calls = [] }

open_in_time : (a : Approval) → find_approval 40 desk.database ≡ some a → ltb a.expires_at 2 ≡ false
unfolding find_approval find?
open_in_time a h = ground arith

decide_approval-atomic_example :
    (with_session (decide_approval (at_time 2) 40 1 50 "approve" "guess" none) desk).1.database
    ≡ desk.database
unfolding decide_approval find_approval find?
decide_approval-atomic_example =
    decide_approval-atomic (at_time 2) desk 40 1 50 "approve" "guess" none
      (api_error invalid_decision_nonce 400) open_in_time refl

decide_approval-Authorized_example :
    (a : Approval) × (find_approval 40 desk.database ≡ some a) × Authorized (at_time 2) 1 "nonce" a
unfolding decide_approval find_approval find? transition_command find_command append_audit
    write_approval
decide_approval-Authorized_example =
    decide_approval-Authorized (at_time 2) desk 40 1 50 "reject" "nonce" none refl

abbrev wrong_code : Guess
wrong_code = record { environment = at_time 1; ids = laptop_ids; owner_id = 1; code = "000000" }

abbrev right_code : Guess
right_code = record { environment = at_time 1; ids = laptop_ids; owner_id = 1; code = "123456" }

abbrev five_codes : List Guess
five_codes = wrong_code ∷ wrong_code ∷ wrong_code ∷ wrong_code ∷ wrong_code ∷ []

guesses-IsRefused_example :
    IsRefused 10 right_code
      (guesses 10 five_codes paired)
      (guess 10 right_code (guesses 10 five_codes paired))
guesses-IsRefused_example = guesses-IsRefused 10 five_codes right_code paired (omega arith)

create_command-replayed_example :
    (f : Error) × ((with_session (create_command (at_time 3) ping_ids ping_request 1) office).0
      ≡ err f)
    × ((with_session (create_command (at_time 3) ping_ids ping_request 1) office).1.database
        ≡ office.database)
unfolding find_by_key find?
create_command-replayed_example =
    create_command-replayed (at_time 3) ping_ids ping_request 1 office sent_ping refl
