-- ===== src/EmergencyStop/Service/Reads.antt =====
-- `is_active` returns an answer and writes no table.
use veyaan_core_backend.Prelude.{
  ℕ, Bool, true, false, Option, none, some, ◌≡◌, refl, Bool-cases, inl, inr,
}
use veyaan_core_backend.Python.{ok}
use veyaan_core_backend.Database.{Environment, Cached}
use veyaan_core_backend.Database.Session.{Session}
use veyaan_core_backend.EmergencyStop.Model.{EmergencyStop}
use veyaan_core_backend.EmergencyStop.Service.{is_active, find_stop, cached_active}

pub record Reads (env : Environment) (owner_id : ℕ) (x : Session) : Type 0 where
  pub answer : Bool
  pub returns : (is_active env owner_id x).0 ≡ ok answer
  pub working : (is_active env owner_id x).1.working ≡ x.working
  pub committed : (is_active env owner_id x).1.committed ≡ x.committed

module _ (env : Environment) (owner_id : ℕ) (x : Session) where
  from_row :
      (o : Option EmergencyStop)
      → env.cached x.calls owner_id ≡ none
      → find_stop owner_id x.committed ≡ o
      → Reads env owner_id x
  unfolding is_active
  from_row none miss found = record {
    answer = false;
    returns = rw (miss, found);
    working = rw (miss, found);
    committed = rw (miss, found);
  }
  from_row (some stop) miss found = elim (Bool-cases stop.active) [
    | inl h ↦ record {
      answer = true;
      returns = rw (miss, found, h);
      working = rw (miss, found, h);
      committed = rw (miss, found, h);
    }
    | inr h ↦ record {
      answer = false;
      returns = rw (miss, found, h);
      working = rw (miss, found, h);
      committed = rw (miss, found, h);
    }
  ]

  from_cache : (o : Option Cached) → env.cached x.calls owner_id ≡ o → Reads env owner_id x
  unfolding is_active
  from_cache none miss = from_row (find_stop owner_id x.committed) miss refl
  from_cache (some v) hit = record {
    answer = cached_active v;
    returns = rw hit;
    working = rw hit;
    committed = rw hit;
  }

  pub is_active-Reads : Reads env owner_id x
  is_active-Reads = from_cache (env.cached x.calls owner_id) refl
