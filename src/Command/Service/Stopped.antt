-- ===== src/Command/Service/Stopped.antt =====
-- No command is created while the emergency stop of its owner is active.
use veyaan_core_backend.Prelude.{
  ℕ, true, not, ◌==◌, Option, none, some, ◌≡◌, refl, sym, ◌∙◌, if-any,
}
use veyaan_core_backend.Python.{Error, Result, ok, err, api_error, device_not_found}
use veyaan_core_backend.Database.{Environment, World}
use veyaan_core_backend.Database.Session.{Session, Tx, raise, case_found, close, with_session}
use veyaan_core_backend.Database.Keeps.{open_session}
use veyaan_core_backend.Device.Model.{Device, is_trusted}
use veyaan_core_backend.Device.Repository.{find_device}
use veyaan_core_backend.EmergencyStop.Service.{is_active}
use veyaan_core_backend.Command.Service.{
  CreateCommandRequest, CreateCommandResponse, Fresh, on_device, create_command,
}
use veyaan_core_backend.Command.Service.Atomicity.{create_command-atomic}

abbrev pub IsRaised : {A : Type 0} → Result A → Type 0
IsRaised (ok a) = ⊥
IsRaised (err e) = Unit {0}

module _ (env : Environment) (ids : Fresh) (request : CreateCommandRequest) (owner_id : ℕ)
    (x : Session) (stopped : (is_active env owner_id x).0 ≡ ok true) where
  abbrev Raises : Tx CreateCommandResponse → Type 0
  Raises m = IsRaised (m x).0

  on_device-Raises : (d : Device) → Raises (on_device env ids request owner_id d)
  unfolding on_device is_active
  on_device-Raises d =
      if-any Raises (not (d.owner_id == owner_id)) _ _ (λ _. tt)
        (λ _.
          if-any Raises (not env.loads_enum) _ _ (λ _. tt)
            (λ _.
              if-any Raises (not (is_trusted d.trust_status)) _ _ (λ _. tt) (λ _. rw stopped tt)))

  create_command-Raises : Raises (create_command env ids request owner_id)
  unfolding create_command
  create_command-Raises = found (find_device request.device_id x.working)
    where
      found :
          (o : Option Device)
          → Raises (
              case_found o
                (raise (api_error device_not_found 404))
                (λ d. on_device env ids request owner_id d))
      found none = tt
      found (some d) = on_device-Raises d

pub closed : {A : Type 0} (r : Result A) (y : Session) → (close r y).0 ≡ r
closed (ok a) y = refl
closed (err e) y = refl

pub the_error : {A : Type 0} (r : Result A) → IsRaised r → (e : Error) × (r ≡ err e)
the_error (ok a) h = elim h [ ]
the_error (err e) h = (e, refl)

-- Where `is_active` answers that the owner is stopped, creating a command raises and changes no
-- table.
pub create_command-stopped :
    (env : Environment) (ids : Fresh) (request : CreateCommandRequest) (owner_id : ℕ) (w : World)
    → (with_session (is_active env owner_id) w).0 ≡ ok true
    → (e : Error) × ((with_session (create_command env ids request owner_id) w).0 ≡ err e)
      × ((with_session (create_command env ids request owner_id) w).1.database ≡ w.database)
create_command-stopped env ids request owner_id w stopped =
    let (r, y) = is_active env owner_id (open_session w) in
    let (m, z) = create_command env ids request owner_id (open_session w) in
    let (e, raised) = the_error m (
      create_command-Raises env ids request owner_id (open_session w)
        (sym (closed r y) ∙ stopped)) in
    let ended = closed m z ∙ raised in
    (e, ended, create_command-atomic env ids request owner_id w e ended)
