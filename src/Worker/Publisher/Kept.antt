-- ===== src/Worker/Publisher/Kept.antt =====
-- A round of the outbox publisher is made of the shared steps.
use veyaan_core_backend.Prelude.{ℕ, Bool, List, [], ◌∷◌, if◌then◌else◌, ◌+◌, refl}
use veyaan_core_backend.Python.{Error}
use veyaan_core_backend.Database.{Environment}
use veyaan_core_backend.Database.Session.{Session, modify}
use veyaan_core_backend.Database.Keeps.{Keeps, keeps_rules}
use veyaan_core_backend.Kept.{IsKept, kept_rules}
use veyaan_core_backend.Command.Model.{Command}
use veyaan_core_backend.Device.Model.{Device}
use veyaan_core_backend.Outbox.Model.{OutboxEvent}
use veyaan_core_backend.Outbox.Repository.{write_event}
use veyaan_core_backend.Worker.Publisher.{
  send, block, enforce_stop, publish_checked, on_failure, publish_event, publish_all, publish_batch,
  process_batch,
}

module _ {P : Session → Type 0} (r : IsKept P) where
  Keeps-write_event :
      (event_id : ℕ) (f : OutboxEvent → OutboxEvent) → Keeps P (modify (write_event event_id f))
  unfolding write_event
  Keeps-write_event event_id f =
      r.writes (write_event event_id f) (λ db. refl) (λ db. refl) (λ db. refl) (λ db. refl)

  module _ (env : Environment) where
    Keeps-send : (e : OutboxEvent) → Keeps P (send env e)
    unfolding send
    Keeps-send e = search (kept_rules, Keeps-write_event) depth 12

    Keeps-block : (e : OutboxEvent) (c : Command) → Keeps P (block env e c)
    unfolding block
    Keeps-block e c = search (kept_rules, Keeps-write_event) depth 12

    Keeps-enforce_stop :
        (e : OutboxEvent) (c : Command) (v : Device) → Keeps P (enforce_stop env e c v)
    unfolding enforce_stop
    Keeps-enforce_stop e c v = search (kept_rules, Keeps-block, Keeps-send) depth 12

    Keeps-publish_checked : (e : OutboxEvent) → Keeps P (publish_checked env e)
    unfolding publish_checked
    Keeps-publish_checked e = search (keeps_rules, Keeps-enforce_stop, Keeps-send) depth 14

    Keeps-on_failure : (e : OutboxEvent) (error : Error) → Keeps P (on_failure env e error)
    unfolding on_failure
    Keeps-on_failure e error = search (kept_rules, Keeps-write_event) depth 12

    Keeps-publish_event : (e : OutboxEvent) → Keeps P (publish_event env e)
    unfolding publish_event
    Keeps-publish_event e = search (keeps_rules, Keeps-publish_checked, Keeps-on_failure)

    Keeps-publish_all : (events : List OutboxEvent) (n : ℕ) → Keeps P (publish_all env events n)
    unfolding publish_all
    Keeps-publish_all [] n = search keeps_rules
    Keeps-publish_all (e ∷ events) n = search (
      keeps_rules,
      Keeps-publish_event,
      λ (sent : Bool). Keeps-publish_all events (if sent then n + 1 else n),
    )

    Keeps-publish_batch : (events : List OutboxEvent) → Keeps P (publish_batch env events)
    unfolding publish_batch
    Keeps-publish_batch [] = search keeps_rules
    Keeps-publish_batch (e ∷ events) = search (kept_rules, Keeps-publish_all)

    pub Keeps-process_batch : Keeps P (process_batch env)
    unfolding process_batch
    Keeps-process_batch = search (keeps_rules, Keeps-publish_batch)
