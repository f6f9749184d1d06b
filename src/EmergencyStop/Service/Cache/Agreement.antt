-- ===== src/EmergencyStop/Service/Cache/Agreement.antt =====
-- The steps that the other services are made of keep the cache in agreement with the stops.
use veyaan_core_backend.Prelude.{
  ℕ, String, Bool, true, ◌==◌, List, [], ◌∷◌, ◌++◌, Option, none, some, ◌≡◌, refl, ◌∙◌, sym, subst,
  inl, inr, if◌then◌else◌, Bool-cases, ==→eq, find?,
}
use veyaan_core_backend.Python.{Dict, Result, ok, err}
use veyaan_core_backend.Database.{Database, Environment, World, Call, Cached, cache_set, publish}
use veyaan_core_backend.Database.Session.{Session, Tx, modify, commit, call, close, with_session}
use veyaan_core_backend.Database.Keeps.{Keeps, open_session}
use veyaan_core_backend.Command.Model.{CommandState, Command}
use veyaan_core_backend.Command.StateMachine.{find_command, transition_command, record_transition}
use veyaan_core_backend.Command.StateMachine.Moves.{accepts, outcome, transition_command-eq}
use veyaan_core_backend.EmergencyStop.Model.{EmergencyStop, AuditLog, was_active}
use veyaan_core_backend.EmergencyStop.Service.{is_active, find_stop, append_audit, create_audit_log}
use veyaan_core_backend.EmergencyStop.Service.Cache.{last_write, last_write-append, IsCoherent}
use veyaan_core_backend.Outbox.Model.{Subject}
use veyaan_core_backend.Kept.{IsKept}

-- What the cache holds, as the calls have left it, agrees with the stops `s`.
abbrev Agrees : List EmergencyStop → List Call → Type 0
Agrees s calls =
    (k : ℕ) (b : Bool)
    → last_write k calls ≡ some b
    → was_active (find? (λ e. e.owner_id == k) s) ≡ b

-- Both copies of the stops are `s`, and the cache agrees with them.
pub record Agreed (s : List EmergencyStop) (x : Session) : Type 0 where
  working : x.working.emergency_stops ≡ s
  committed : x.committed.emergency_stops ≡ s
  agrees : Agrees s x.calls

module _ {s : List EmergencyStop} where
  Agreed-commit : Keeps (Agreed s) commit
  Agreed-commit = record {
    at = λ x h. record { working = h.working; committed = h.working; agrees = h.agrees };
  }

  Agreed-publish :
      (subject : Subject) (payload : Dict) (i : ℕ)
      → Keeps (Agreed s) (call (publish subject payload i))
  Agreed-publish subject payload i = record {
    at = λ x h. record {
      working = h.working;
      committed = h.committed;
      agrees =
          λ k b e. h.agrees k b (sym (last_write-append k x.calls (publish subject payload i)) ∙ e);
    };
  }

  pub Agreed-writes :
      (f : Database → Database)
      → ((db : Database) → (f db).emergency_stops ≡ db.emergency_stops)
      → Keeps (Agreed s) (modify f)
  Agreed-writes f same = record {
    at = λ x h. record {
      working = same x.working ∙ h.working;
      committed = h.committed;
      agrees = h.agrees;
    };
  }

  module _ (env : Environment) (i : ℕ) (t : CommandState) (source : String)
      (metadata : Option Dict) where
    Agreed-outcome :
        (x : Session)
        → Agreed s x
        → (o : Option Command) → Agreed s (outcome env t source metadata i x o).1
    Agreed-outcome x h none = h
    Agreed-outcome x h (some c) = elim (Bool-cases (accepts c.state t)) [
      | inl e ↦ rw e (record {
        working = unfold record_transition in h.working;
        committed = h.committed;
        agrees = h.agrees;
      })
      | inr e ↦ rw e h
    ]

    Agreed-moves : Keeps (Agreed s) (transition_command env i t source metadata)
    Agreed-moves = record {
      at = λ x h.
          rw (transition_command-eq env t source metadata i x)
            (Agreed-outcome x h (find_command i x.working));
    }

  -- A row that `is_active` finds active is written to the cache as what it is.
  Agreed-filled :
      (owner_id ttl : ℕ) (stop : EmergencyStop) (x : Session)
      → find_stop owner_id x.committed ≡ some stop
      → stop.active ≡ true
      → Agreed s x
      → Agreed s
          (record x { calls = x.calls ++ cache_set owner_id true stop.activated_at ttl ∷ [] })
  unfolding find_stop
  Agreed-filled owner_id ttl stop x found active h = record {
    working = h.working;
    committed = h.committed;
    agrees = λ k b e.
        let after : (if owner_id == k then some true else last_write k x.calls) ≡ some b =
          sym (last_write-append k x.calls (cache_set owner_id true stop.activated_at ttl)) ∙ e in
        elim (Bool-cases (owner_id == k)) [
          | inl same ↦
              let row : find? (λ e. e.owner_id == owner_id) s ≡ some stop =
                subst (λ l. find? (λ e. e.owner_id == owner_id) l ≡ some stop) h.committed found in
              subst (λ j. was_active (find? (λ e. e.owner_id == j) s) ≡ b) (==→eq owner_id k same)
                (rw row (active ∙ (let at = rw same at after in cc at)))
          | inr ne ↦ h.agrees k b (rw ne at after)
        ];
  }

  Agreed-asks : (env : Environment) (owner_id : ℕ) → Keeps (Agreed s) (is_active env owner_id)
  unfolding is_active
  Agreed-asks env owner_id = record { at = λ x h. reply x h (env.cached x.calls owner_id) refl }
    where
      row :
          (x : Session)
          → Agreed s x
          → (o : Option EmergencyStop) → env.cached x.calls owner_id ≡ none
          → find_stop owner_id x.committed ≡ o
          → Agreed s (is_active env owner_id x).1
      row x h none miss found = rw (miss, found) h
      row x h (some stop) miss found = elim (Bool-cases stop.active) [
        | inl active ↦ rw (miss, found, active) (Agreed-filled owner_id 60 stop x found active h)
        | inr ended ↦ rw (miss, found, ended) h
      ]

      reply :
          (x : Session)
          → Agreed s x
          → (o : Option Cached) → env.cached x.calls owner_id ≡ o
          → Agreed s (is_active env owner_id x).1
      reply x h none e = row x h (find_stop owner_id x.committed) e refl
      reply x h (some v) e = rw e h

  Agreed-logs : (log : AuditLog) → Keeps (Agreed s) (create_audit_log log)
  unfolding create_audit_log append_audit
  Agreed-logs log = Agreed-writes (append_audit log) (λ db. refl)

  -- The shared steps keep the agreement.
  pub Agreed-IsKept : IsKept (Agreed s)
  Agreed-IsKept = record {
    commits = Agreed-commit;
    publishes = Agreed-publish;
    asks = Agreed-asks;
    moves = Agreed-moves;
    logs = Agreed-logs;
    writes = λ f hc he hs ha. Agreed-writes f hs;
  }

Agreed-close :
    {A : Type 0} (s : List EmergencyStop) (r : Result A) (y : Session)
    → Agreed s y
    → (t : List EmergencyStop) × ((close r y).1.database.emergency_stops ≡ t)
      × Agrees t (close r y).1.calls
Agreed-close s (ok a) y h = (s, h.working, h.agrees)
Agreed-close s (err e) y h = (s, h.committed, h.agrees)

-- An operation that keeps the agreement, in its session.
pub with_session-IsCoherent :
    {A : Type 0} (m : Tx A) (w : World)
    → Keeps (Agreed w.database.emergency_stops) m
    → IsCoherent w
    → IsCoherent (with_session m w).1
unfolding find_stop
with_session-IsCoherent m w km coherent =
    let (r, y) = m (open_session w) in
    let opened : Agreed w.database.emergency_stops (open_session w) = record {
      working = refl;
      committed = refl;
      agrees = λ k b e. coherent.agrees k b e;
    } in
    let (t, stops, agrees) =
      Agreed-close w.database.emergency_stops r y (km.at (open_session w) opened) in
    record {
      agrees = λ k b e.
          subst (λ l. was_active (find? (λ e. e.owner_id == k) l) ≡ b) (sym stops) (agrees k b e);
    }
