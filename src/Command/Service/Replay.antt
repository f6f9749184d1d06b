-- ===== src/Command/Service/Replay.antt =====
-- A request that is sent again with its idempotency key.
use veyaan_core_backend.Prelude.{
  ℕ, Bool, true, false, not, ◌==◌, Option, none, some, ◌≡◌, ◌∙◌, ap, str_eq, if-any, if◌then◌else◌,
}
use veyaan_core_backend.Python.{
  Error, Result, ok, err, api_error, device_not_found, emergency_stop_active,
}
use veyaan_core_backend.Database.{Environment, World}
use veyaan_core_backend.Database.Session.{
  Session, Tx, raise, gets, continue, case_found, ◌>>=◌, with_session,
}
use veyaan_core_backend.Database.Keeps.{open_session}
use veyaan_core_backend.Command.Model.{Command}
use veyaan_core_backend.Command.Service.{
  CreateCommandRequest, CreateCommandResponse, Fresh, find_by_key, replay, define, on_device,
  create_command,
}
use veyaan_core_backend.Command.Service.Atomicity.{create_command-atomic}
use veyaan_core_backend.Command.Service.Stopped.{IsRaised, closed, the_error}
use veyaan_core_backend.Device.Model.{Device, is_trusted}
use veyaan_core_backend.Device.Repository.{find_device}
use veyaan_core_backend.EmergencyStop.Service.{is_active}
use veyaan_core_backend.EmergencyStop.Service.Reads.{is_active-Reads}

module _ (env : Environment) (ids : Fresh) (request : CreateCommandRequest) (owner_id : ℕ)
    (e : Command) where
  abbrev KeyedIn : Session → Type 0
  KeyedIn x = find_by_key request.device_id request.idempotency_key x.working ≡ some e

  abbrev Raises : Session → Tx CreateCommandResponse → Type 0
  Raises x m = IsRaised (m x).0

  replay-Raises : (x : Session) → Raises x (replay request e)
  unfolding replay
  replay-Raises x =
      if-any (Raises x) (not (str_eq e.command_type request.command_type)) _ _ (λ _. tt) (λ _. tt)

  -- Once it is known whether the owner is stopped.
  asked-Raises :
      (r : Result Bool) (y : Session)
      → KeyedIn y
      → Raises y (
          continue r (λ stopped. if stopped then raise (api_error emergency_stop_active 423) else do
            existing ← gets (find_by_key request.device_id request.idempotency_key)
            case_found existing (define env ids request owner_id) (λ c. replay request c)))
  asked-Raises (err f) y keyed = tt
  asked-Raises (ok true) y keyed = tt
  asked-Raises (ok false) y keyed = rw keyed (replay-Raises y)

  module _ (x : Session) (keyed : KeyedIn x) where
    on_device-Raises : (d : Device) → Raises x (on_device env ids request owner_id d)
    unfolding on_device is_active
    on_device-Raises d =
        let (r, y) = is_active env owner_id x in
        let still : KeyedIn y =
          ap (find_by_key request.device_id request.idempotency_key)
            (is_active-Reads env owner_id x).working
          ∙ keyed in
        if-any (Raises x) (not (d.owner_id == owner_id)) _ _ (λ _. tt)
          (λ _.
            if-any (Raises x) (not env.loads_enum) _ _ (λ _. tt)
              (λ _.
                if-any (Raises x) (not (is_trusted d.trust_status)) _ _ (λ _. tt)
                  (λ _. asked-Raises r y still)))

    create_command-Raises : Raises x (create_command env ids request owner_id)
    unfolding create_command
    create_command-Raises = found (find_device request.device_id x.working)
      where
        found :
            (o : Option Device)
            → Raises x (
                case_found o
                  (raise (api_error device_not_found 404))
                  (λ d. on_device env ids request owner_id d))
        found none = tt
        found (some d) = on_device-Raises d

-- Whoever asks, in whatever state the device, its owner's stop and the cache are: a request whose key
-- stands on a command of the device raises and changes no table; it never returns that command.
pub create_command-replayed :
    (env : Environment) (ids : Fresh) (request : CreateCommandRequest) (owner_id : ℕ) (w : World)
    (e : Command)
    → find_by_key request.device_id request.idempotency_key w.database ≡ some e
    → (f : Error) × ((with_session (create_command env ids request owner_id) w).0 ≡ err f)
      × ((with_session (create_command env ids request owner_id) w).1.database ≡ w.database)
create_command-replayed env ids request owner_id w e keyed =
    let (m, z) = create_command env ids request owner_id (open_session w) in
    let (f, raised) =
      the_error m (create_command-Raises env ids request owner_id e (open_session w) keyed) in
    let ended = closed m z ∙ raised in
    (f, ended, create_command-atomic env ids request owner_id w f ended)
