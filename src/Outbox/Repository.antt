-- ===== src/Outbox/Repository.antt =====
-- app/events/outbox.py: OutboxRepository
use veyaan_core_backend.Prelude.{
  ℕ, String, ◌&&◌, ◌==◌, leb, ◌+◌, List, [], ◌∷◌, ◌++◌, none, some, select, update, take,
}
use veyaan_core_backend.Python.{Dict, cut}
use veyaan_core_backend.Database.{Database, Environment}
use veyaan_core_backend.Database.Session.{Tx, modify}
use veyaan_core_backend.Outbox.Model.{Subject, OutboxEvent, pending, published, failed, is_pending}

-- A new PENDING event under the id `event_id`, which the database generates.
abbrev pub new_event : Environment → ℕ → String → String → ℕ → Subject → Dict → OutboxEvent
new_event env event_id event_type aggregate_type aggregate_id subject payload = record {
  id = event_id;
  aggregate_type = aggregate_type;
  aggregate_id = aggregate_id;
  event_type = event_type;
  subject = subject;
  payload = payload;
  status = pending;
  available_at = env.now;
  attempt_count = 0;
  last_error = none;
  published_at = none;
}

unfoldable pub append_event : OutboxEvent → Database → Database
append_event e db = record db { outbox = db.outbox ++ e ∷ [] }

unfoldable pub add_event : Environment → ℕ → String → String → ℕ → Subject → Dict → Tx (Unit {0})
unfolding append_event
add_event env event_id event_type aggregate_type aggregate_id subject payload =
    modify
      (append_event (new_event env event_id event_type aggregate_type aggregate_id subject payload))

-- The oldest PENDING events that are due, at most `limit`.
unfoldable pub get_unpublished : ℕ → ℕ → Database → List OutboxEvent
get_unpublished now limit db =
    take limit (select (λ e. is_pending e.status && leb e.available_at now) db.outbox)

unfoldable pub write_event : ℕ → (OutboxEvent → OutboxEvent) → Database → Database
write_event event_id f db = record db { outbox = update (λ e. e.id == event_id) f db.outbox }

unfoldable pub mark_published : ℕ → ℕ → Tx (Unit {0})
mark_published now event_id =
    modify (write_event event_id (λ e. record e { status = published; published_at = some now }))

unfoldable pub mark_failed : ℕ → String → Tx (Unit {0})
mark_failed event_id error =
    modify
      (write_event event_id (λ e. record e { status = failed; last_error = some (cut 1000 error) }))

unfoldable pub increment_attempt : ℕ → String → Tx (Unit {0})
increment_attempt event_id error = modify (
    write_event event_id (λ e. record e {
      attempt_count = e.attempt_count + 1;
      last_error = some (cut 1000 error);
      status = pending;
    }))
