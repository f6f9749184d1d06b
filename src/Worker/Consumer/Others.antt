-- ===== src/Worker/Consumer/Others.antt =====
-- The handlers of the consumer touch only the command that their payload names.
use veyaan_core_backend.Prelude.{
  ℕ, String, false, ◌==◌, List, [], ◌∷◌, Option, none, some, ◌≡◌, refl, sym, ◌∙◌, subst, inl, inr,
  Bool-cases,
}
use veyaan_core_backend.Python.{Dict, Error, state_transition, ok}
use veyaan_core_backend.Database.{Database, Environment, World}
use veyaan_core_backend.Database.Session.{Session, Tx, gets, modify}
use veyaan_core_backend.Database.Keeps.{
  Keeps, Within, Keeps-pure, Keeps-gets, Keeps-if, Keeps-bind, Keeps-case_found, Keeps-commit,
  with_session-relates, keeps_rules,
}
use veyaan_core_backend.Command.Model.{CommandState, Command, CommandStateEvent, Task}
use veyaan_core_backend.Command.StateMachine.{find_command, transition_command}
use veyaan_core_backend.Command.StateMachine.Moves.{
  accepts, outcome, transition_command-eq, committed-transition_command,
}
use veyaan_core_backend.Command.StateMachine.Writes.{
  find_command-id, find_command-record_transition_other,
}
use veyaan_core_backend.Outbox.Model.{Subject}
use veyaan_core_backend.Worker.Consumer.{
  with_command_id, command_id_of, device_mismatch, one_or_none, is_duplicate, write_tasks,
  update_task_state, guarded, deliver, acknowledge, start_running, finish, on_refusal,
  handle_delivered, handle_acknowledged, handle_progress, handle_result,
}
use veyaan_core_backend.Worker.Consumer.Routing.{
  Handler, delivered, acknowledged, progress, result, run_handler, with_handler, route_handler,
  poll_message,
}

-- The row of `j` is the same.
record Same (j : ℕ) (a b : Database) : Type 0 where
  row : find_command j b ≡ find_command j a

module _ (j i : ℕ) (apart : (i == j) ≡ false) where
  Same-outcome :
      (env : Environment) (s : CommandState) (source : String) (metadata : Option Dict)
      (x : Session) (o : Option Command)
      → find_command i x.working ≡ o
      → find_command j (outcome env s source metadata i x o).1.working ≡ find_command j x.working
  Same-outcome env s source metadata x none found = refl
  Same-outcome env s source metadata x (some c) found = elim (Bool-cases (accepts c.state s)) [
    | inl e ↦
        let other : (c.id == j) ≡ false =
          subst (λ k. (k == j) ≡ false) (sym (find_command-id i x.working c found)) apart in
        rw e (find_command-record_transition_other env.now s source metadata c x.working j other)
    | inr e ↦ rw e refl
  ]

  module _ {d : Database} where
    Keeps-move :
        (env : Environment) (s : CommandState) (source : String) (metadata : Option Dict)
        → Keeps (Within (Same j) d) (transition_command env i s source metadata)
    Keeps-move env s source metadata = record {
      at = λ x h. record {
        working = record {
          row =
              rw (transition_command-eq env s source metadata i x)
                (Same-outcome env s source metadata x (find_command i x.working) refl)
              ∙ h.working.row;
        };
        committed = rw (committed-transition_command env s source metadata i x) h.committed;
      };
    }

    Keeps-tasks : (f : Task → Task) → Keeps (Within (Same j) d) (modify (write_tasks i f))
    unfolding write_tasks find_command
    Keeps-tasks f = record {
      at = λ x h. record { working = record { row = h.working.row }; committed = h.committed };
    }

    Keeps-refusal : (e : Error) → Keeps (Within (Same j) d) (on_refusal e)
    Keeps-refusal (state_transition k) = search keeps_rules
    Keeps-refusal e = search keeps_rules

    Keeps-one : (es : List CommandStateEvent) → Keeps (Within (Same j) d) (one_or_none es)
    unfolding one_or_none
    Keeps-one [] = search keeps_rules
    Keeps-one (e ∷ []) = search keeps_rules
    Keeps-one (e ∷ f ∷ es) = search keeps_rules

    Keeps-duplicate : (prefix : String) → Keeps (Within (Same j) d) (is_duplicate prefix i)
    unfolding is_duplicate
    Keeps-duplicate prefix = search (keeps_rules, Keeps-one)

    ruleset other_rules =
        (keeps_rules, Keeps-commit, Keeps-move, Keeps-tasks, Keeps-refusal, Keeps-duplicate)

    module _ (env : Environment) (payload : Dict)
        (named : command_id_of payload ≡ ok (some i)) where
      Keeps-named :
          (prefix : String) (handle : ℕ → Tx (Unit {0}))
          → Keeps (Within (Same j) d) (handle i)
          → Keeps (Within (Same j) d) (guarded prefix payload handle)
      unfolding guarded with_command_id
      Keeps-named prefix handle kh = rw named (
          Keeps-bind (is_duplicate prefix i) _ (Keeps-duplicate prefix) (λ duplicate.
            Keeps-if duplicate _ _ (Keeps-pure tt) (
              Keeps-bind (gets (find_command i)) _ (Keeps-gets (find_command i)) (λ found.
                Keeps-case_found found _ _ (Keeps-pure tt)
                  (λ c. Keeps-if (device_mismatch payload c) _ _ (Keeps-pure tt) kh)))))

      Keeps-delivered : Keeps (Within (Same j) d) (deliver env i)
      unfolding deliver update_task_state
      Keeps-delivered = search other_rules depth 14

      Keeps-acknowledged : Keeps (Within (Same j) d) (acknowledge env payload i)
      unfolding acknowledge update_task_state
      Keeps-acknowledged = search other_rules depth 14

      Keeps-running : Keeps (Within (Same j) d) (start_running env i)
      unfolding start_running update_task_state
      Keeps-running = search other_rules depth 14

      Keeps-finished : Keeps (Within (Same j) d) (finish env payload i)
      unfolding finish update_task_state
      Keeps-finished = search other_rules depth 14

      Keeps-handler : (h : Handler) → Keeps (Within (Same j) d) (run_handler env h payload)
      unfolding with_command_id run_handler handle_delivered handle_acknowledged handle_progress
          handle_result
      Keeps-handler delivered = Keeps-named "delivered:" (deliver env) Keeps-delivered
      Keeps-handler acknowledged =
          Keeps-named "acknowledged:" (acknowledge env payload) Keeps-acknowledged
      Keeps-handler progress = rw named (search (other_rules, Keeps-running) depth 14)
      Keeps-handler result = Keeps-named "result:" (finish env payload) Keeps-finished

  module _ (env : Environment) (payload : Dict) (named : command_id_of payload ≡ ok (some i))
      (w : World) where
    handled :
        (h : Option Handler) → Same j w.database (with_handler env h (some payload) w).1.database
    unfolding with_handler
    handled none = record { row = refl }
    handled (some h) =
        with_session-relates (Same j) (run_handler env h payload) w (record { row = refl })
          (Keeps-handler env payload named h)

    -- A message about one command leaves the row of every other command as it is.
    pub find_command-poll_message :
        (subject : Subject)
        → find_command j (poll_message env subject (some payload) w).1.database
          ≡ find_command j w.database
    unfolding poll_message
    find_command-poll_message subject = (handled (route_handler subject)).row
