-- ===== src/Worker/Publisher/Stopped.antt =====
-- What the outbox publisher does with the commands of an owner whose emergency stop is active.
use veyaan_core_backend.Prelude.{
  ℕ, String, Bool, true, false, Option, none, some, ◌≡◌, ◌≢◌, refl, ◌∙◌, List, if◌then◌else◌,
  Bool-cases, inl, inr,
}
use veyaan_core_backend.Python.{Dict, Error, Result, ok, err}
use veyaan_core_backend.Database.{Database, Call, Environment}
use veyaan_core_backend.Database.Session.{Session, Tx, pure, modify, recover, continue, ◌>>=◌}
use veyaan_core_backend.Database.Keeps.{Keeps, keeps_rules}
use veyaan_core_backend.Command.Model.{Command, CommandState}
use veyaan_core_backend.Command.StateMachine.{find_command, transition_command}
use veyaan_core_backend.Command.StateMachine.Moves.{accepts, outcome, transition_command-eq}
use veyaan_core_backend.Device.Model.{Device}
use veyaan_core_backend.Device.Repository.{find_device}
use veyaan_core_backend.EmergencyStop.Service.{is_active}
use veyaan_core_backend.Outbox.Model.{OutboxEvent}
use veyaan_core_backend.Outbox.Repository.{mark_failed, increment_attempt}
use veyaan_core_backend.Worker.Publisher.{
  is_command_ready, block_command, block, enforce_stop, publish_checked, publish_event, on_failure,
}

module _ (env : Environment) (s : CommandState) (source : String) (metadata : Option Dict) (i : ℕ)
    (x : Session) where
  calls-outcome : (o : Option Command) → (outcome env s source metadata i x o).1.calls ≡ x.calls
  calls-outcome none = refl
  calls-outcome (some c) = elim (Bool-cases (accepts c.state s)) [
    | inl e ↦ rw e refl
    | inr e ↦ rw e refl
  ]

  -- A transition asks nothing of Valkey or NATS.
  calls-transition_command : (transition_command env i s source metadata x).1.calls ≡ x.calls
  calls-transition_command =
      rw (transition_command-eq env s source metadata i x)
        (calls-outcome (find_command i x.working))

-- The requests made are those of `k`.
record Silent (k : List Call) (x : Session) : Type 0 where
  calls : x.calls ≡ k

module _ {k : List Call} where
  Keeps-write : (f : Database → Database) → Keeps (Silent k) (modify f)
  Keeps-write f = record { at = λ x h. record { calls = h.calls } }

  Keeps-transition :
      (env : Environment) (i : ℕ) (s : CommandState) (source : String) (metadata : Option Dict)
      → Keeps (Silent k) (transition_command env i s source metadata)
  Keeps-transition env i s source metadata = record {
    at = λ x h. record { calls = calls-transition_command env s source metadata i x ∙ h.calls };
  }

ruleset silent_rules = (keeps_rules, Keeps-write, Keeps-transition)

-- It makes no request, and whatever it returns is not `True`.
record IsUnsent (k : List Call) (r : Result Bool) (x : Session) : Type 0 where
  result : r ≢ ok true
  silent : Silent k x

record Unsent (k : List Call) (m : Tx Bool) : Type 0 where
  at : (x : Session) → Silent k x → IsUnsent k (m x).0 (m x).1

module _ {k : List Call} where
  Unsent-false : Unsent k (pure false)
  Unsent-false = record { at = λ x h. record { result = λ e. cc; silent = h } }

  Unsent-if : (b : Bool) (m n : Tx Bool) → Unsent k m → Unsent k n → Unsent k (if b then m else n)
  Unsent-if true m n um un = um
  Unsent-if false m n um un = un

  Unsent-continue :
      {A : Type 0} (r : Result A) (f : A → Tx Bool)
      → ((a : A) → Unsent k (f a))
      → Unsent k (continue r f)
  Unsent-continue (ok a) f uf = uf a
  Unsent-continue (err e) f uf = record { at = λ x h. record { result = λ p. cc; silent = h } }

  Unsent-bind :
      {A : Type 0} (m : Tx A) (f : A → Tx Bool)
      → Keeps (Silent k) m
      → ((a : A) → Unsent k (f a))
      → Unsent k (m >>= f)
  Unsent-bind m f km uf = record {
    at = λ x h. let (r, y) = m x in (Unsent-continue r f uf).at y (km.at x h);
  }

  Unsent-recover :
      (r : Result Bool) (y : Session) (handler : Error → Tx Bool)
      → IsUnsent k r y
      → ((e : Error) → Unsent k (handler e))
      → IsUnsent k (recover r handler y).0 (recover r handler y).1
  Unsent-recover (ok b) y handler h uh = h
  Unsent-recover (err e) y handler h uh = (uh e).at y h.silent

module _ {k : List Call} (env : Environment) (e : OutboxEvent) where
  Keeps-block_command : (c : Command) → Keeps (Silent k) (block_command env e c)
  unfolding block_command
  Keeps-block_command c = search silent_rules depth 12

  Unsent-block : (c : Command) → Unsent k (block env e c)
  unfolding block mark_failed
  Unsent-block c = search (Unsent-bind, Unsent-false, Keeps-block_command, Keeps-write)

  Unsent-on_failure : (f : Error) → Unsent k (on_failure env e f)
  unfolding on_failure mark_failed increment_attempt
  Unsent-on_failure f = search (silent_rules, Unsent-bind, Unsent-if, Unsent-false) depth 10

-- An event that makes a queued command ready is not sent while its owner's stop is active: the
-- publisher makes no request after it has asked for the stop, and does not count the event as
-- published.
pub publish_event-stopped :
    (env : Environment) (e : OutboxEvent) (c : Command) (d : Device) (x : Session)
    → is_command_ready e ≡ true
    → find_command e.aggregate_id x.working ≡ some c
    → find_device c.device_id x.working ≡ some d
    → (is_active env d.owner_id x).0 ≡ ok true
    → ((publish_event env e x).0 ≢ ok true)
      × ((publish_event env e x).1.calls ≡ (is_active env d.owner_id x).1.calls)
unfolding publish_event publish_checked enforce_stop is_active
publish_event-stopped env e c d x ready found device stopped =
    let y = (is_active env d.owner_id x).1 in
    let blocked = (Unsent-block env e c).at y (record { calls = refl }) in
    let ended =
      Unsent-recover (block env e c y).0 (block env e c y).1 (on_failure env e) blocked
        (Unsent-on_failure env e) in
    rw (ready, found, device, stopped) (ended.result, ended.silent.calls)
