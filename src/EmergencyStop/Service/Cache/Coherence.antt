-- ===== src/EmergencyStop/Service/Cache/Coherence.antt =====
-- Activating, releasing and asking keep the cache in agreement with the database.
use veyaan_core_backend.Prelude.{
  ℕ, String, Bool, true, false, ◌==◌, [], ◌∷◌, ◌++◌, Option, none, some, ◌≡◌, refl, ap, ◌∙◌, sym,
  subst, inl, inr, if◌then◌else◌, Bool-cases, ==→eq,
}
use veyaan_core_backend.Database.{Database, Environment, World, Call, cache_set, cache_delete}
use veyaan_core_backend.Database.Session.{with_session}
use veyaan_core_backend.EmergencyStop.Model.{EmergencyStop, was_active}
use veyaan_core_backend.EmergencyStop.Service.{find_stop, set_released, activate, release}
use veyaan_core_backend.EmergencyStop.Service.Blocking.{
  activation, with_stop, stop_row, activate-eq,
}
use veyaan_core_backend.EmergencyStop.Service.Cache.{
  cache_after, last_write, last_write-append, IsCoherent,
}
use veyaan_core_backend.EmergencyStop.Service.Stops.{
  find_stop-write_other, find_stop-activation, find_stop-with_stop_self, find_stop-with_stop_other,
  find_stop-appends,
}
use veyaan_core_backend.Outbox.Repository.{append_event, add_event}

-- One more write of a key, and the row that it speaks of.
agrees_after :
    (w : World) (db : Database) (c : Call) (owner_id : ℕ) (b : Option Bool)
    → IsCoherent w
    → ((k : ℕ) (o : Option Bool) → cache_after k o c ≡ (if owner_id == k then b else o))
    → ((k : ℕ) → (owner_id == k) ≡ false → find_stop k db ≡ find_stop k w.database)
    → ((v : Bool) → b ≡ some v → was_active (find_stop owner_id db) ≡ v)
    → IsCoherent (record { database = db; calls = w.calls ++ c ∷ [] })
agrees_after w db c owner_id b coherent shape others own = record {
  agrees = λ k v written.
      let after : (if owner_id == k then b else last_write k w.calls) ≡ some v =
        sym (shape k (last_write k w.calls)) ∙ sym (last_write-append k w.calls c) ∙ written in
      elim (Bool-cases (owner_id == k)) [
        | inl same ↦
            subst (λ j. was_active (find_stop j db) ≡ v) (==→eq owner_id k same)
              (own v (rw same at after))
        | inr ne ↦ ap was_active (others k ne) ∙ coherent.agrees k v (rw ne at after)
      ];
}

module _ (env : Environment) (owner_id : ℕ) (w : World) (coherent : IsCoherent w) where
  module _ (reason : Option String) (actor_id event_id : ℕ) where
    abbrev row_after : Option EmergencyStop → EmergencyStop
    row_after o = stop_row env owner_id reason actor_id event_id o

    abbrev tables_after : Option EmergencyStop → Database
    tables_after o =
        activation env owner_id reason actor_id event_id
          (with_stop env owner_id reason actor_id event_id o w.database)

    active-row_after : (o : Option EmergencyStop) → (row_after o).active ≡ true
    active-row_after none = refl
    active-row_after (some stop) = refl

    newly_active :
        (o : Option EmergencyStop)
        → find_stop owner_id w.database ≡ o
        → was_active o ≡ false
        → IsCoherent (with_session (activate env owner_id reason actor_id event_id) w).1
    newly_active o found h = rw (activate-eq env owner_id reason actor_id event_id o w found h) (
        agrees_after w (tables_after o) (cache_set owner_id true (row_after o).activated_at 3600)
          owner_id (some true) coherent (λ k p. refl)
          (λ k ne.
            find_stop-activation env owner_id reason actor_id event_id k _
            ∙ find_stop-with_stop_other env owner_id reason actor_id event_id o w.database k ne)
          (λ v e.
            ap was_active (
              find_stop-activation env owner_id reason actor_id event_id owner_id _
              ∙ find_stop-with_stop_self env owner_id reason actor_id event_id o w.database found)
            ∙ active-row_after o
            ∙ cc e))

    already_active :
        (stop : EmergencyStop)
        → find_stop owner_id w.database ≡ some stop
        → stop.active ≡ true
        → IsCoherent (with_session (activate env owner_id reason actor_id event_id) w).1
    unfolding activate add_event append_event find_stop
    already_active stop found h =
        rw (found, h) (record { agrees = λ k b written. coherent.agrees k b written })

    -- Where the cache agrees with the database, it still does after `activate`, whether the stop was
    -- active before or not.
    pub activate-IsCoherent :
        IsCoherent (with_session (activate env owner_id reason actor_id event_id) w).1
    activate-IsCoherent = either (find_stop owner_id w.database) refl
      where
        either :
            (o : Option EmergencyStop)
            → find_stop owner_id w.database ≡ o
            → IsCoherent (with_session (activate env owner_id reason actor_id event_id) w).1
        either none found = newly_active none found refl
        either (some stop) found = elim (Bool-cases stop.active) [
          | inl h ↦ already_active stop found h
          | inr h ↦ newly_active (some stop) found h
        ]

  module _ (released_by event_id : ℕ) where
    released :
        (stop : EmergencyStop)
        → find_stop owner_id w.database ≡ some stop
        → stop.active ≡ true
        → IsCoherent (with_session (release env owner_id released_by event_id) w).1
    unfolding release
    released stop found h =
        rw (found, h)
          (agrees_after w _ (cache_delete owner_id) owner_id none coherent (λ k o. refl)
            (λ k ne.
              find_stop-appends k _ _ _
              ∙ find_stop-write_other owner_id (set_released env.now released_by) w.database k
                  (λ e. refl) ne)
            (λ v e. cc e))

    -- Where the cache agrees with the database, it still does after `release`, whether there was a stop
    -- to release or not.
    pub release-IsCoherent :
        IsCoherent (with_session (release env owner_id released_by event_id) w).1
    unfolding release
    release-IsCoherent = either (find_stop owner_id w.database) refl
      where
        either :
            (o : Option EmergencyStop)
            → find_stop owner_id w.database ≡ o
            → IsCoherent (with_session (release env owner_id released_by event_id) w).1
        either none found = rw found coherent
        either (some stop) found = elim (Bool-cases stop.active) [
          | inl h ↦ released stop found h
          | inr h ↦ rw (found, h) coherent
        ]
