-- ===== src/Worker/Publisher/Attempts.antt =====
-- One attempt of the publisher at one event: it never raises, and writes the row of the event once.
use veyaan_core_backend.Prelude.{
  ℕ, String, ◌+◌, ◌<◌, Bool, true, false, leb, List, some, ◌≡◌, refl, arith, if-any, if◌then◌else◌,
  Bool-cases, inl, inr, Option, none,
}
use veyaan_core_backend.Python.{cut, Error, Dict, Result, ok, err}
use veyaan_core_backend.Database.{LogLevel, Environment, Call}
use veyaan_core_backend.Database.Session.{
  Session, Tx, pure, raise, call, log, continue, ◌>>=◌, ◌>>◌, case_found, recover,
}
use veyaan_core_backend.Database.Keeps.{Keeps, keeps_rules}
use veyaan_core_backend.Command.Model.{Command, CommandState}
use veyaan_core_backend.Command.StateMachine.{find_command, transition_command, record_transition}
use veyaan_core_backend.Command.StateMachine.Moves.{accepts, outcome, transition_command-eq}
use veyaan_core_backend.Device.Model.{Device}
use veyaan_core_backend.EmergencyStop.Service.{is_active}
use veyaan_core_backend.Outbox.Model.{OutboxEvent, pending, published, failed, is_pending}
use veyaan_core_backend.Outbox.Repository.{
  write_event, mark_published, mark_failed, increment_attempt,
}
use veyaan_core_backend.Outbox.Backlog.{budget, written}
use veyaan_core_backend.Worker.Publisher.{
  publish_js, send, block_command, block, enforce_stop, publish_checked, on_failure, publish_event,
}

-- The outbox is `o`.
pub record Holds (o : List OutboxEvent) (x : Session) : Type 0 where
  pub outbox : x.working.outbox ≡ o

-- The outbox is `o` but for one write to the rows of `e`, which takes something of its budget.
pub record Spent (o : List OutboxEvent) (e : OutboxEvent) (x : Session) : Type 0 where
  pub write : OutboxEvent → OutboxEvent
  pub same_id : (r : OutboxEvent) → (write r).id ≡ r.id
  pub same_time : (r : OutboxEvent) → (write r).available_at ≡ r.available_at
  pub spends : is_pending e.status ≡ true → budget (write e) < budget e
  pub outbox : x.working.outbox ≡ written write e.id o

module _ {o : List OutboxEvent} where
  Keeps-request : (c : Call) → Keeps (Holds o) (call c)
  Keeps-request c = record { at = λ x h. record { outbox = h.outbox } }

  module _ (env : Environment) (s : CommandState) (source : String) (metadata : Option Dict)
      (i : ℕ) where
    outcome-Holds :
        (x : Session)
        → Holds o x
        → (c : Option Command) → Holds o (outcome env s source metadata i x c).1
    outcome-Holds x h none = h
    outcome-Holds x h (some c) = elim (Bool-cases (accepts c.state s)) [
      | inl e ↦ rw e (record { outbox = unfold record_transition in h.outbox })
      | inr e ↦ rw e h
    ]

    Keeps-transition_command : Keeps (Holds o) (transition_command env i s source metadata)
    Keeps-transition_command = record {
      at = λ x h.
          rw (transition_command-eq env s source metadata i x)
            (outcome-Holds x h (find_command i x.working));
    }

  module _ (env : Environment) where
    Keeps-is_active : (owner_id : ℕ) → Keeps (Holds o) (is_active env owner_id)
    unfolding is_active
    Keeps-is_active owner_id = search (keeps_rules, Keeps-request) depth 12

    Keeps-block_command : (e : OutboxEvent) (c : Command) → Keeps (Holds o) (block_command env e c)
    unfolding block_command
    Keeps-block_command e c = search (keeps_rules, Keeps-transition_command) depth 10

    Keeps-publish_js : (e : OutboxEvent) → Keeps (Holds o) (publish_js env e)
    unfolding publish_js
    Keeps-publish_js e = search (keeps_rules, Keeps-request) depth 10

-- What the body of the `try` leaves: on success the write, on an exception the old rows.
abbrev pub Tried : List OutboxEvent → OutboxEvent → Result Bool → Session → Type 0
Tried o e (ok b) x = Spent o e x
Tried o e (err f) x = Holds o x

record Attempt (o : List OutboxEvent) (e : OutboxEvent) (m : Tx Bool) : Type 0 where
  at : (x : Session) → Holds o x → Tried o e (m x).0 (m x).1

module _ {o : List OutboxEvent} {e : OutboxEvent} where
  Attempt-raise : (f : Error) → Attempt o e (raise f)
  Attempt-raise f = record { at = λ x h. h }

  Attempt-if :
      (b : Bool) (m n : Tx Bool) → Attempt o e m → Attempt o e n → Attempt o e (if b then m else n)
  Attempt-if true m n am an = am
  Attempt-if false m n am an = an

  Attempt-continue :
      {A : Type 0} (r : Result A) (f : A → Tx Bool)
      → ((a : A) → Attempt o e (f a))
      → Attempt o e (continue r f)
  Attempt-continue (ok a) f af = af a
  Attempt-continue (err d) f af = record { at = λ x h. h }

  Attempt-bind :
      {A : Type 0} (m : Tx A) (f : A → Tx Bool)
      → Keeps (Holds o) m
      → ((a : A) → Attempt o e (f a))
      → Attempt o e (m >>= f)
  Attempt-bind m f km af = record {
    at = λ x h. let (r, y) = m x in (Attempt-continue r f af).at y (km.at x h);
  }

  Attempt-case_found :
      {A : Type 0} (r : Option A) (m : Tx Bool) (f : A → Tx Bool)
      → Attempt o e m
      → ((a : A) → Attempt o e (f a))
      → Attempt o e (case_found r m f)
  Attempt-case_found none m f am af = am
  Attempt-case_found (some a) m f am af = af a

ruleset attempt_rules = (
  Attempt-raise, Attempt-if, Attempt-bind, Attempt-case_found, keeps_rules, Keeps-is_active,
  Keeps-block_command, Keeps-publish_js,
)

on_failure-ok :
    (env : Environment) (e : OutboxEvent) (f : Error) (x : Session)
    → env.logs LogLevel.warning ≡ true
    → (on_failure env e f x).0 ≡ ok false
unfolding on_failure mark_failed increment_attempt
on_failure-ok env e f x logs = elim (Bool-cases (leb 3 e.attempt_count)) [
  | inl last ↦ rw (logs, last) refl
  | inr early ↦ rw (logs, early) refl
]

module _ {o : List OutboxEvent} (env : Environment) (e : OutboxEvent) where
  Attempt-published : Attempt o e (mark_published env.now e.id >> pure true)
  unfolding mark_published write_event
  Attempt-published = record {
    at = λ x h. record {
      write = λ r. record r { status = published; published_at = some env.now };
      same_id = λ r. refl;
      same_time = λ r. refl;
      spends = λ p. rw p (omega arith);
      outbox = rw h.outbox refl;
    };
  }

  Attempt-failed : (error : String) → Attempt o e (mark_failed e.id error >> pure false)
  unfolding mark_failed write_event
  Attempt-failed error = record {
    at = λ x h. record {
      write = λ r. record r { status = failed; last_error = some (cut 1000 error) };
      same_id = λ r. refl;
      same_time = λ r. refl;
      spends = λ p. rw p (omega arith);
      outbox = rw h.outbox refl;
    };
  }

  Attempt-retried :
      (error : String)
      → leb 3 e.attempt_count ≡ false
      → Attempt o e (increment_attempt e.id error >> pure false)
  unfolding increment_attempt write_event
  Attempt-retried error early = record {
    at = λ x h. record {
      write = λ r. record r {
        attempt_count = r.attempt_count + 1;
        last_error = some (cut 1000 error);
        status = pending;
      };
      same_id = λ r. refl;
      same_time = λ r. refl;
      spends = λ p. rw p (ground arith);
      outbox = rw h.outbox refl;
    };
  }

  Attempt-send : Attempt o e (send env e)
  unfolding send
  Attempt-send = Attempt-bind _ _ (Keeps-publish_js env e) (λ _. Attempt-published)

  Attempt-block : (c : Command) → Attempt o e (block env e c)
  unfolding block
  Attempt-block c = Attempt-bind _ _ (Keeps-block_command env e c) (λ _. Attempt-failed _)

  Attempt-enforce_stop : (c : Command) (d : Device) → Attempt o e (enforce_stop env e c d)
  unfolding enforce_stop
  Attempt-enforce_stop c d = search (attempt_rules, Attempt-send, Attempt-block)

  Attempt-publish_checked : Attempt o e (publish_checked env e)
  unfolding publish_checked
  Attempt-publish_checked = search (attempt_rules, Attempt-send, Attempt-enforce_stop) depth 12

  Attempt-on_failure : (f : Error) → Attempt o e (on_failure env e f)
  unfolding on_failure
  Attempt-on_failure f = Attempt-bind (log env LogLevel.warning) _ (search keeps_rules) (λ _.
      if-any (Attempt o e) (leb 3 e.attempt_count) _ _ (λ _. Attempt-failed _)
        (λ early. Attempt-retried _ early))

settled :
    (o : List OutboxEvent) (env : Environment) (e : OutboxEvent) (r : Result Bool) (y : Session)
    → Tried o e r y
    → Tried o e (recover r (on_failure env e) y).0 (recover r (on_failure env e) y).1
settled o env e (ok b) y h = h
settled o env e (err f) y h = (Attempt-on_failure env e f).at y h

recovered :
    (env : Environment) (e : OutboxEvent) (r : Result Bool) (y : Session)
    → env.logs LogLevel.warning ≡ true
    → (b : Bool) × ((recover r (on_failure env e) y).0 ≡ ok b)
recovered env e (ok b) y logs = (b, refl)
recovered env e (err f) y logs = (false, on_failure-ok env e f y logs)

-- An attempt at an event that returns, whatever the stop's state, Valkey, NATS and the logger are, has
-- written the rows with the id of the event so that they have fewer attempts left.
pub publish_event-Tried :
    (env : Environment) (e : OutboxEvent) (x : Session)
    → Tried x.working.outbox e (publish_event env e x).0 (publish_event env e x).1
unfolding publish_event
publish_event-Tried env e x =
    let (r, y) = publish_checked env e x in
    settled x.working.outbox env e r y
      ((Attempt-publish_checked env e).at x (record { outbox = refl }))

-- Where the logger takes its calls, an attempt returns.
pub publish_event-ok :
    (env : Environment) (e : OutboxEvent) (x : Session)
    → env.logs LogLevel.warning ≡ true
    → (b : Bool) × ((publish_event env e x).0 ≡ ok b)
unfolding publish_event
publish_event-ok env e x logs = let (r, y) = publish_checked env e x in recovered env e r y logs
