-- ===== src/Worker/Consumer/Kept.antt =====
-- The consumer's handlers are made of the shared steps.
use veyaan_core_backend.Prelude.{ℕ, String, List, [], ◌∷◌, refl, Option, none, some}
use veyaan_core_backend.Python.{Dict, Error, state_transition, Result, ok, err}
use veyaan_core_backend.Database.{Environment}
use veyaan_core_backend.Database.Session.{Session, Tx, modify}
use veyaan_core_backend.Database.Keeps.{Keeps, Keeps-pure, Keeps-raise, keeps_rules}
use veyaan_core_backend.Kept.{IsKept, kept_rules}
use veyaan_core_backend.Command.Model.{Task, CommandStateEvent}
use veyaan_core_backend.Worker.Consumer.{
  with_command_id, one_or_none, is_duplicate, write_tasks, guarded, deliver, acknowledge,
  start_running, finish, on_refusal, handle_delivered, handle_acknowledged, handle_progress,
  handle_result,
}

module _ {P : Session → Type 0} (r : IsKept P) where
  Keeps-write_tasks :
      (command_id : ℕ) (f : Task → Task) → Keeps P (modify (write_tasks command_id f))
  unfolding write_tasks
  Keeps-write_tasks command_id f =
      r.writes (write_tasks command_id f) (λ db. refl) (λ db. refl) (λ db. refl) (λ db. refl)

  Keeps-on_refusal : (e : Error) → Keeps P (on_refusal e)
  Keeps-on_refusal (state_transition i) = search keeps_rules
  Keeps-on_refusal e = search keeps_rules

  Keeps-one_or_none : (es : List CommandStateEvent) → Keeps P (one_or_none es)
  unfolding one_or_none
  Keeps-one_or_none [] = search keeps_rules
  Keeps-one_or_none (e ∷ []) = search keeps_rules
  Keeps-one_or_none (e ∷ f ∷ es) = search keeps_rules

  Keeps-is_duplicate : (prefix : String) (id : ℕ) → Keeps P (is_duplicate prefix id)
  unfolding is_duplicate
  Keeps-is_duplicate prefix id = search (keeps_rules, Keeps-one_or_none)

  Keeps-with_command_id :
      (o : Result (Option ℕ)) (handle : ℕ → Tx (Unit {0}))
      → ((id : ℕ) → Keeps P (handle id))
      → Keeps P (with_command_id o handle)
  unfolding with_command_id
  Keeps-with_command_id (ok (some id)) handle kh = kh id
  Keeps-with_command_id (ok none) handle kh = Keeps-pure tt
  Keeps-with_command_id (err e) handle kh = Keeps-raise e

  Keeps-guarded :
      (prefix : String) (payload : Dict) (handle : ℕ → Tx (Unit {0}))
      → ((id : ℕ) → Keeps P (handle id))
      → Keeps P (guarded prefix payload handle)
  unfolding guarded
  Keeps-guarded prefix payload handle kh =
      search (keeps_rules, Keeps-with_command_id, Keeps-is_duplicate, kh) depth 14

ruleset handler_rules = (kept_rules, Keeps-write_tasks, Keeps-on_refusal)

module _ {P : Session → Type 0} (r : IsKept P) (env : Environment) where
  Keeps-deliver : (id : ℕ) → Keeps P (deliver env id)
  unfolding deliver
  Keeps-deliver id = search handler_rules depth 12

  Keeps-acknowledge : (payload : Dict) (id : ℕ) → Keeps P (acknowledge env payload id)
  unfolding acknowledge
  Keeps-acknowledge payload id = search handler_rules depth 14

  Keeps-start_running : (id : ℕ) → Keeps P (start_running env id)
  unfolding start_running
  Keeps-start_running id = search handler_rules depth 12

  Keeps-finish : (payload : Dict) (id : ℕ) → Keeps P (finish env payload id)
  unfolding finish
  Keeps-finish payload id = search handler_rules depth 14

  pub Keeps-handle_progress : (payload : Dict) → Keeps P (handle_progress env payload)
  unfolding handle_progress
  Keeps-handle_progress payload =
      search (handler_rules, Keeps-with_command_id, Keeps-start_running) depth 14

  pub Keeps-handle_delivered : (payload : Dict) → Keeps P (handle_delivered env payload)
  unfolding handle_delivered
  Keeps-handle_delivered payload = search (Keeps-guarded, Keeps-deliver)

  pub Keeps-handle_acknowledged : (payload : Dict) → Keeps P (handle_acknowledged env payload)
  unfolding handle_acknowledged
  Keeps-handle_acknowledged payload = search (Keeps-guarded, Keeps-acknowledge)

  pub Keeps-handle_result : (payload : Dict) → Keeps P (handle_result env payload)
  unfolding handle_result
  Keeps-handle_result payload = search (Keeps-guarded, Keeps-finish)
