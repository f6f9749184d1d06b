-- ===== src/Command/StateMachine/Atomicity.antt =====
-- A transition writes to the session only: nothing of it is committed.
use veyaan_core_backend.Prelude.{ℕ, String, Option}
use veyaan_core_backend.Python.{Dict}
use veyaan_core_backend.Database.{Database, Environment}
use veyaan_core_backend.Database.Keeps.{Keeps}
use veyaan_core_backend.Database.Atomic.{Committed, committed_rules}
use veyaan_core_backend.Command.Model.{CommandState, Command}
use veyaan_core_backend.Command.StateMachine.{transition_command, transition_row, write_transition}

module _ {d : Database} where
  Keeps-transition_row :
      (env : Environment) (s : CommandState) (source : String) (metadata : Option Dict)
      (c : Command)
      → Keeps (Committed d) (transition_row env s source metadata c)
  unfolding transition_row write_transition
  Keeps-transition_row env s source metadata c = search committed_rules depth 10

  pub Keeps-transition :
      (env : Environment) (i : ℕ) (s : CommandState) (source : String) (metadata : Option Dict)
      → Keeps (Committed d) (transition_command env i s source metadata)
  unfolding transition_command
  Keeps-transition env i s source metadata = search (committed_rules, Keeps-transition_row)
