-- ===== src/System/Audited.antt =====
-- Every stop that is active stands in the audit log.
use mathlib.Core.Option
use veyaan_core_backend.Prelude.{
  ℕ, String, Bool, true, false, ◌&&◌, ◌==◌, Option, none, some, List, [], ◌∷◌, ◌++◌, ◌≡◌, refl, sym,
  ap, ◌∙◌, subst, ◌⊎◌, inl, inr, Bool-cases, ==→eq, any, str_eq, find?, arith,
}
use veyaan_core_backend.Python.{Json, uuid, Dict, lookup}
use veyaan_core_backend.Database.{Database, Environment, World}
use veyaan_core_backend.Database.Session.{Tx, with_session}
use veyaan_core_backend.Database.Keeps.{open_session, with_session-within, with_session-relates}
use veyaan_core_backend.Kept.{both-IsKept}
use veyaan_core_backend.Command.Service.{CreateCommandRequest, Fresh, insert_rows, create_command}
use veyaan_core_backend.Command.Service.Kept.{Keeps-create_command}
use veyaan_core_backend.EmergencyStop.Model.{EmergencyStop, AuditLog, was_active}
use veyaan_core_backend.EmergencyStop.Service.{
  find_stop, write_stop, set_released, activate, release, append_audit,
}
use veyaan_core_backend.EmergencyStop.Service.Blocking.{activation, activate-eq}
use veyaan_core_backend.EmergencyStop.Service.Stops.{
  find_stop-write_self, find_stop-write_other, find_stop-activation, find_stop-with_stop_other,
  find_stop-appends,
}
use veyaan_core_backend.EmergencyStop.Service.Unchanged.{
  SameStops, SameStops-writes, SameStops-IsKept,
}
use veyaan_core_backend.Outbox.Model.{OutboxEvent}
use veyaan_core_backend.Outbox.Repository.{append_event, add_event}
use veyaan_core_backend.Audit.Trail.{Trail, Trail-same, Trail-IsKept}
use veyaan_core_backend.System.{Operation, create, stop, perform, Run, here, next, empty}
use veyaan_core_backend.System.Kept.{perform-Kept, by_kind}
use veyaan_core_backend.System.Trail.{perform-Trail}

abbrev is_uuid : ℕ → Option Json → Bool
is_uuid id (some (uuid i)) = i == id
is_uuid id v = false

abbrev names_owner : ℕ → Option Dict → Bool
names_owner owner_id none = false
names_owner owner_id (some metadata) = is_uuid owner_id (lookup "owner_id" metadata)

-- A row that says that the stop of an owner was activated.
abbrev pub is_activation : ℕ → AuditLog → Bool
is_activation owner_id log =
    str_eq log.action "emergency_stop_activated" && names_owner owner_id log.event_metadata

-- The log has such a row for each owner whose stop is active.
pub record IsAudited (db : Database) : Type 0 where
  pub at :
      (owner_id : ℕ)
      → was_active (find_stop owner_id db) ≡ true
      → any (is_activation owner_id) db.audit ≡ true

module _ {A : Type 0} (p : A → Bool) where
  any-grown : (xs ys : List A) → any p xs ≡ true → any p (xs ++ ys) ≡ true
  unfolding any
  any-grown [] ys h = ground arith
  any-grown (x ∷ xs) ys h = elim (Bool-cases (p x)) [
    | inl e ↦ rw e refl
    | inr e ↦ rw e (any-grown xs ys (rw e at h))
  ]

  any-last : (xs : List A) (x : A) → p x ≡ true → any p (xs ++ x ∷ []) ≡ true
  unfolding any
  any-last [] x h = rw h refl
  any-last (y ∷ ys) x h = elim (Bool-cases (p y)) [
    | inl e ↦ rw e refl
    | inr e ↦ rw e (any-last ys x h)
  ]

-- Where the log only grows, and each stop that is active was so before or is logged.
carried :
    (a b : Database)
    → Trail a b
    → ((k : ℕ)
        → was_active (find_stop k b) ≡ true
        → (was_active (find_stop k a) ≡ true) ⊎ (any (is_activation k) b.audit ≡ true))
    → IsAudited a
    → IsAudited b
carried a b trail known h = record {
  at = λ k active. elim (known k active) [
    | inl before ↦ rw trail.log (any-grown (is_activation k) a.audit trail.rows (h.at k before))
    | inr logged ↦ logged
  ];
}

module _ (env : Environment) (w : World) (h : IsAudited w.database) where
  calm :
      (A : Type 0) (m : Tx A)
      → Trail w.database (with_session m w).1.database
      → SameStops w.database (with_session m w).1.database
      → IsAudited (with_session m w).1.database
  unfolding find_stop
  calm A m trail same =
      carried w.database (with_session m w).1.database trail
        (λ k active.
          inl (subst (λ l. was_active (find? (λ e. e.owner_id == k) l) ≡ true) same.stops active))
        h

  module _ (owner_id : ℕ) (reason : Option String) (actor_id event_id : ℕ) where
    activated_log :
        (k : ℕ) (db : Database)
        → (owner_id == k) ≡ true
        → any (is_activation k) (activation env owner_id reason actor_id event_id db).audit ≡ true
    unfolding activation append_event append_audit lookup
    activated_log k db same = any-last (is_activation k) _ _ (rw same refl)

    newly_active :
        (o : Option EmergencyStop)
        → find_stop owner_id w.database ≡ o
        → was_active o ≡ false
        → IsAudited (with_session (activate env owner_id reason actor_id event_id) w).1.database
    newly_active o found ended =
        let eq = activate-eq env owner_id reason actor_id event_id o w found ended in
        let trail : Trail w.database
            (with_session (activate env owner_id reason actor_id event_id) w).1.database =
          perform-Trail env w (stop owner_id reason actor_id event_id) in
        rw eq (
          carried w.database _ (rw eq at trail)
            (λ k active. elim (Bool-cases (owner_id == k)) [
              | inl same ↦ inr (activated_log k _ same)
              | inr ne ↦ inl (
                  sym (
                    ap was_active (
                      find_stop-activation env owner_id reason actor_id event_id k _
                      ∙ find_stop-with_stop_other env owner_id reason actor_id event_id o w.database
                          k ne))
                  ∙ active)
            ])
            h)

    already_active :
        (s : EmergencyStop)
        → find_stop owner_id w.database ≡ some s
        → s.active ≡ true
        → IsAudited (with_session (activate env owner_id reason actor_id event_id) w).1.database
    unfolding activate add_event append_event find_stop
    already_active s found active = rw (found, active) (record { at = λ k a. h.at k a })

    activate-IsAudited :
        IsAudited (with_session (activate env owner_id reason actor_id event_id) w).1.database
    activate-IsAudited = either (find_stop owner_id w.database) refl
      where
        either :
            (o : Option EmergencyStop)
            → find_stop owner_id w.database ≡ o
            → IsAudited (with_session (activate env owner_id reason actor_id event_id) w).1.database
        either none found = newly_active none found refl
        either (some s) found = elim (Bool-cases s.active) [
          | inl active ↦ already_active s found active
          | inr ended ↦ newly_active (some s) found ended
        ]

  module _ (owner_id released_by event_id : ℕ) where
    -- Of the owner's stop nothing is to be shown, since it has ended; the others are as they were.
    still :
        (s : EmergencyStop) (k : ℕ) (e : OutboxEvent) (log : AuditLog)
        → find_stop owner_id w.database ≡ some s
        → (let db = write_stop owner_id (set_released env.now released_by) w.database in
            was_active (find_stop k (append_event e (append_audit log db))) ≡ true)
        → was_active (find_stop k w.database) ≡ true
    still s k e log found a = elim (Bool-cases (owner_id == k)) [
      | inl same ↦
          let row =
            find_stop-appends owner_id e log _
            ∙ find_stop-write_self owner_id (set_released env.now released_by) w.database
                (λ e. refl)
            ∙ ap (Option.map (set_released env.now released_by)) found in
          let own = rw (sym (==→eq owner_id k same), row) at a in cc own
      | inr ne ↦
          sym (
            ap was_active (
              find_stop-appends k e log _
              ∙ find_stop-write_other owner_id (set_released env.now released_by) w.database k
                  (λ e. refl) ne))
          ∙ a
    ]

    release-IsAudited :
        IsAudited (with_session (release env owner_id released_by event_id) w).1.database
    unfolding release add_event append_event append_audit write_stop
    release-IsAudited = either (find_stop owner_id w.database) refl
      where
        either :
            (o : Option EmergencyStop)
            → find_stop owner_id w.database ≡ o
            → IsAudited (with_session (release env owner_id released_by event_id) w).1.database
        either none found = rw found h
        either (some s) found = elim (Bool-cases s.active) [
          | inl active ↦
              rw (found, active)
                (record {
                  at = λ k a.
                      any-grown (is_activation k) w.database.audit _
                        (h.at k (still s k _ _ found a));
                })
          | inr ended ↦ rw (found, ended) h
        ]

  create-IsAudited :
      (ids : Fresh) (request : CreateCommandRequest) (owner_id : ℕ)
      → IsAudited (perform env (create ids request owner_id) w).database
  unfolding insert_rows
  create-IsAudited ids request owner_id =
      calm _ (create_command env ids request owner_id)
        (perform-Trail env w (create ids request owner_id))
        (with_session-relates SameStops (create_command env ids request owner_id) w
          (record { stops = refl })
          (Keeps-create_command SameStops-IsKept env ids request
            (λ d. SameStops-writes (insert_rows env ids request d) (λ db. refl)) owner_id))

-- Operations keep it.
perform-IsAudited :
    (env : Environment) (w : World)
    → IsAudited w.database
    → (operation : Operation) → IsAudited (perform env operation w).database
perform-IsAudited env w h =
    by_kind (λ operation. IsAudited (perform env operation w).database)
      (perform-Kept (both-IsKept Trail-IsKept SameStops-IsKept) env w (λ v. IsAudited v.database)
        (λ A m km.
          let x = open_session w in
          let (trail, same) = km.at x (
            (record { working = Trail-same refl; committed = Trail-same refl }),
            (record { working = record { stops = refl }; committed = record { stops = refl } }),
          ) in
          calm env w h A m (with_session-within Trail m w trail)
            (with_session-within SameStops m w same)))
      (create-IsAudited env w h) (activate-IsAudited env w h) (release-IsAudited env w h)

-- After any sequence of operations from empty tables, each owner whose stop is active has a row in the
-- audit log that says that it was activated.
pub Run-IsAudited : {w v : World} → Run w v → w.database ≡ empty → IsAudited v.database
unfolding find_stop find?
Run-IsAudited here e = rw e (record { at = λ k active. cc active })
Run-IsAudited (next {v} run env operation fresh) e =
    perform-IsAudited env v (Run-IsAudited run e) operation
