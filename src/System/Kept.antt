-- ===== src/System/Kept.antt =====
-- Whatever the shared steps keep is kept by every operation of the program that is made of them.
use veyaan_core_backend.Prelude.{ℕ, String, Option, List, [], ◌∷◌}
use veyaan_core_backend.Database.{Environment, World}
use veyaan_core_backend.Database.Session.{Session, Tx, pure, with_session}
use veyaan_core_backend.Database.Keeps.{Keeps, Keeps-pure}
use veyaan_core_backend.Kept.{IsKept}
use veyaan_core_backend.Command.Service.{
  CreateCommandRequest, Fresh, cancel_command, approve_command, reject_command,
}
use veyaan_core_backend.Command.Service.Kept.{
  Keeps-cancel_command, Keeps-approve_command, Keeps-reject_command,
}
use veyaan_core_backend.EmergencyStop.Service.{is_active}
use veyaan_core_backend.Approval.Service.{create_approval_for, decide_approval}
use veyaan_core_backend.Approval.Service.Kept.{Keeps-create_approval_for, Keeps-decide_approval}
use veyaan_core_backend.Device.Service.{start_pairing, confirm_pairing, revoke}
use veyaan_core_backend.Device.Service.Kept.{
  Keeps-start_pairing, Keeps-confirm_pairing, Keeps-revoke,
}
use veyaan_core_backend.Worker.Publisher.{process_batch}
use veyaan_core_backend.Worker.Publisher.Kept.{Keeps-process_batch}
use veyaan_core_backend.Worker.Scheduler.{maintain}
use veyaan_core_backend.Worker.Scheduler.Kept.{Keeps-maintain, Keeps-touch}
use veyaan_core_backend.Worker.Scheduler.Presence.{
  touch, touch_all, touch_listed, stale_ids, detect_stale_device_presence,
}
use veyaan_core_backend.Worker.Consumer.{
  handle_delivered, handle_acknowledged, handle_progress, handle_result,
}
use veyaan_core_backend.Worker.Consumer.Kept.{
  Keeps-handle_delivered, Keeps-handle_acknowledged, Keeps-handle_progress, Keeps-handle_result,
}
use veyaan_core_backend.System.{
  Operation, create, cancel, approve, reject, ask, decide, pair, confirm, revoke_device, stop,
  resume, publish_round, schedule_round, detect_round, on_delivered, on_acknowledged, on_progress,
  on_result, read_stop, perform,
}

-- The operations that are made of the shared steps: all but the creation of a command and the stop
-- itself.
abbrev pub IsPlain : Operation → Type 0
IsPlain (create ids request owner_id) = ⊥
IsPlain (stop owner_id reason actor_id event_id) = ⊥
IsPlain (resume owner_id released_by event_id) = ⊥
IsPlain operation = Unit {0}

-- What holds of the plain operations, of the creation of a command and of the two changes of the stop
-- holds of every operation.
pub by_kind :
    (Q : Operation → Type 0)
    → ((operation : Operation) → IsPlain operation → Q operation)
    → ((ids : Fresh) (request : CreateCommandRequest) (owner_id : ℕ)
        → Q (create ids request owner_id))
    → ((owner_id : ℕ) (reason : Option String) (actor_id event_id : ℕ)
        → Q (stop owner_id reason actor_id event_id))
    → ((owner_id released_by event_id : ℕ) → Q (resume owner_id released_by event_id))
    → (operation : Operation) → Q operation
by_kind Q plain creates stops resumes (create ids q o) = creates ids q o
by_kind Q plain creates stops resumes (stop o n a e) = stops o n a e
by_kind Q plain creates stops resumes (resume o n e) = resumes o n e
by_kind Q plain creates stops resumes (cancel i o) = plain (cancel i o) tt
by_kind Q plain creates stops resumes (approve i) = plain (approve i) tt
by_kind Q plain creates stops resumes (reject i) = plain (reject i) tt
by_kind Q plain creates stops resumes (ask g i o t d m) = plain (ask g i o t d m) tt
by_kind Q plain creates stops resumes (decide a o e d n t) = plain (decide a o e d n t) tt
by_kind Q plain creates stops resumes (pair i c p) = plain (pair i c p) tt
by_kind Q plain creates stops resumes (confirm g p o c) = plain (confirm g p o c) tt
by_kind Q plain creates stops resumes (revoke_device e d o) = plain (revoke_device e d o) tt
by_kind Q plain creates stops resumes publish_round = plain publish_round tt
by_kind Q plain creates stops resumes schedule_round = plain schedule_round tt
by_kind Q plain creates stops resumes (detect_round p) = plain (detect_round p) tt
by_kind Q plain creates stops resumes (on_delivered p) = plain (on_delivered p) tt
by_kind Q plain creates stops resumes (on_acknowledged p) = plain (on_acknowledged p) tt
by_kind Q plain creates stops resumes (on_progress p) = plain (on_progress p) tt
by_kind Q plain creates stops resumes (on_result p) = plain (on_result p) tt
by_kind Q plain creates stops resumes (read_stop o) = plain (read_stop o) tt

-- An operation that is made of the shared steps keeps whatever these keep, in its session.
module _ {P : Session → Type 0} (r : IsKept P) (env : Environment) (w : World) (R : World → Type 0)
    (runs : (A : Type 0) (m : Tx A) → Keeps P m → R (with_session m w).1) where
  pub perform-Kept : (operation : Operation) → IsPlain operation → R (perform env operation w)
  unfolding detect_stale_device_presence touch_all
  perform-Kept (cancel i o) h = runs _ (cancel_command env i o) (Keeps-cancel_command r env i o)
  perform-Kept (approve i) h = runs _ (approve_command env i) (Keeps-approve_command r env i)
  perform-Kept (reject i) h = runs _ (reject_command env i) (Keeps-reject_command r env i)
  perform-Kept (ask g i o t d m) h =
      runs _ (create_approval_for env g i o t d m) (Keeps-create_approval_for r env g i o t d m)
  perform-Kept (decide a o e d n t) h =
      runs _ (decide_approval env a o e d n t) (Keeps-decide_approval r env a o e d n t)
  perform-Kept (pair i c p) h = runs _ (start_pairing env i c p) (Keeps-start_pairing r env i c p)
  perform-Kept (confirm g p o c) h =
      runs _ (confirm_pairing env g p o c) (Keeps-confirm_pairing r env g p o c)
  perform-Kept (revoke_device e d o) h = runs _ (revoke env e d o) (Keeps-revoke r env e d o)
  perform-Kept publish_round h = runs _ (process_batch env) (Keeps-process_batch r env)
  perform-Kept schedule_round h = runs _ (maintain env) (Keeps-maintain r env)
  perform-Kept (detect_round p) h = touched (stale_ids p w.database)
    where
      touched : (ids : List ℕ) → R (touch_listed env.now ids w)
      touched [] = runs _ (pure tt) (Keeps-pure tt)
      touched (i ∷ ids) = runs _ (touch env.now (i ∷ ids)) (Keeps-touch r env.now (i ∷ ids))
  perform-Kept (on_delivered p) h = runs _ (handle_delivered env p) (Keeps-handle_delivered r env p)
  perform-Kept (on_acknowledged p) h =
      runs _ (handle_acknowledged env p) (Keeps-handle_acknowledged r env p)
  perform-Kept (on_progress p) h = runs _ (handle_progress env p) (Keeps-handle_progress r env p)
  perform-Kept (on_result p) h = runs _ (handle_result env p) (Keeps-handle_result r env p)
  perform-Kept (read_stop o) h = runs _ (is_active env o) (r.asks env o)
  perform-Kept (create g q o) h = elim h [ ]
  perform-Kept (stop o n a e) h = elim h [ ]
  perform-Kept (resume o n e) h = elim h [ ]
