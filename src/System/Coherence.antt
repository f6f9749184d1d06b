-- ===== src/System/Coherence.antt =====
-- The cache of the emergency stop, whatever sequence of operations the program runs.
use veyaan_core_backend.Prelude.{ℕ, [], none, some, ◌≡◌, refl, ◌∙◌, sym, ap, arith, true}
use veyaan_core_backend.Python.{Error, ok, err}
use veyaan_core_backend.Database.{Environment, World}
use veyaan_core_backend.Database.Session.{with_session}
use veyaan_core_backend.Command.Service.{CreateCommandRequest, Fresh, insert_rows, create_command}
use veyaan_core_backend.Command.Service.Stopped.{create_command-stopped}
use veyaan_core_backend.Command.Service.Kept.{Keeps-create_command}
use veyaan_core_backend.EmergencyStop.Model.{was_active}
use veyaan_core_backend.EmergencyStop.Service.{is_active, find_stop}
use veyaan_core_backend.EmergencyStop.Service.Cache.{
  last_write, last_write-empty, HonestCache, IsCoherent, is_active-eq,
}
use veyaan_core_backend.EmergencyStop.Service.Cache.Coherence.{
  activate-IsCoherent, release-IsCoherent,
}
use veyaan_core_backend.EmergencyStop.Service.Cache.Agreement.{
  Agreed-writes, Agreed-IsKept, with_session-IsCoherent,
}
use veyaan_core_backend.System.{Operation, perform, Run, here, next}
use veyaan_core_backend.System.Kept.{IsPlain, perform-Kept, by_kind}

create_command-IsCoherent :
    (env : Environment) (ids : Fresh) (request : CreateCommandRequest) (owner_id : ℕ) (w : World)
    → IsCoherent w
    → IsCoherent (with_session (create_command env ids request owner_id) w).1
unfolding insert_rows
create_command-IsCoherent env ids request owner_id w h =
    with_session-IsCoherent (create_command env ids request owner_id) w
      (Keeps-create_command Agreed-IsKept env ids request
        (λ d. Agreed-writes (insert_rows env ids request d) (λ db. refl)) owner_id)
      h

plain :
    (env : Environment) (w : World)
    → IsCoherent w
    → (operation : Operation) → IsPlain operation
    → IsCoherent (perform env operation w)
plain env w h =
    perform-Kept (Agreed-IsKept {s = w.database.emergency_stops}) env w IsCoherent
      (λ A m km. with_session-IsCoherent m w km h)

perform-IsCoherent :
    (env : Environment) (operation : Operation) (w : World)
    → IsCoherent w
    → IsCoherent (perform env operation w)
perform-IsCoherent env operation w h =
    by_kind (λ o. IsCoherent (perform env o w)) (plain env w h)
      (λ ids q o. create_command-IsCoherent env ids q o w h)
      (λ o n a e. activate-IsCoherent env o w h n a e) (λ o n e. release-IsCoherent env o w h n e)
      operation

-- Every operation, in any history, keeps the cache in agreement with the stops.
pub Run-IsCoherent : {w v : World} → Run w v → IsCoherent w → IsCoherent v
Run-IsCoherent here h = h
Run-IsCoherent (next {v} run env operation fresh) h =
    perform-IsCoherent env operation v (Run-IsCoherent run h)

uncached : (w : World) → w.calls ≡ [] → IsCoherent w
uncached w e = record {
  agrees = λ k b h.
      let nothing : none ≡ some b = sym (ap (last_write k) e ∙ last_write-empty k) ∙ h in
      ground arith;
}

-- From any tables and before the first request, after any sequence of operations, with an honest
-- cache that may forget at any time, `is_active` answers whether the owner's row of the stop is active.
pub Run-is_active :
    {w v : World}
    → Run w v
    → w.calls ≡ []
    → (env : Environment) → HonestCache env
    → (owner_id : ℕ)
    → (with_session (is_active env owner_id) v).0 ≡ ok (was_active (find_stop owner_id v.database))
Run-is_active {w} {v} run e env honest owner_id =
    is_active-eq env owner_id v honest (Run-IsCoherent run (uncached w e))

-- From any tables and before the first request, after any sequence of operations and with an honest
-- cache: while the row of an owner's stop is active, creating a command for the owner raises and
-- changes no table.
pub Run-create_command :
    {w v : World}
    → Run w v
    → w.calls ≡ []
    → (env : Environment) → HonestCache env
    → (owner_id : ℕ) → was_active (find_stop owner_id v.database) ≡ true
    → (ids : Fresh) (request : CreateCommandRequest)
    → (e : Error) × ((with_session (create_command env ids request owner_id) v).0 ≡ err e)
      × ((with_session (create_command env ids request owner_id) v).1.database ≡ v.database)
Run-create_command {w} {v} run e env honest owner_id active ids request =
    create_command-stopped env ids request owner_id v
      (Run-is_active run e env honest owner_id ∙ ap ok active)
