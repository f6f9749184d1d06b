-- ===== src/EmergencyStop/Service/Cache.antt =====
-- The Valkey cache of the stop: what `is_active` answers, and that the cache never misleads it.
pub mod Coherence
pub mod Agreement
use mathlib.Core.Option
use veyaan_core_backend.Prelude.{
  ℕ, String, Bool, true, false, ◌==◌, List, [], ◌∷◌, ◌++◌, Option, none, some, ◌≡◌, refl, ap, ◌∙◌,
  sym, inl, inr, if◌then◌else◌, Bool-cases, ==→eq, ==_refl, find?, update, find?-update_self,
  find?-update_other, find?-append_some, find?-append_none, arith,
}
use veyaan_core_backend.Python.{Result, ok}
use veyaan_core_backend.Database.{
  Database, Environment, World, Call, Cached, entry, other, cache_set, cache_delete, publish,
}
use veyaan_core_backend.Database.Session.{
  Session, with_session, case_found, gets, gets_calls, ◌>>=◌,
}
use veyaan_core_backend.EmergencyStop.Model.{EmergencyStop, was_active}
use veyaan_core_backend.EmergencyStop.Service.{
  is_active, is_active_row, find_stop, cached_active, insert_stop, write_stop, set_active,
  set_released, activate, notify_activated, release, release_row, create_audit_log, append_audit,
}
use veyaan_core_backend.EmergencyStop.Service.Blocking.{
  activation, with_stop, stop_row, activate-eq, block_all, block_one, block_found, halted_ids,
}
use veyaan_core_backend.Outbox.Repository.{append_event, add_event}

-- The `active` that the last write of a key left, if no delete came after it.
abbrev cache_after : ℕ → Option Bool → Call → Option Bool
cache_after k before (cache_set owner_id active _ _) = if owner_id == k then some active else before
cache_after k before (cache_delete owner_id) = if owner_id == k then none else before
cache_after k before (publish _ _ _) = before

last_write_from : ℕ → Option Bool → List Call → Option Bool
last_write_from k before [] = before
last_write_from k before (c ∷ calls) = last_write_from k (cache_after k before c) calls

pub last_write : ℕ → List Call → Option Bool
unfolding last_write_from
last_write k calls = last_write_from k none calls

pub last_write-empty : (k : ℕ) → last_write k [] ≡ none
unfolding last_write last_write_from
last_write-empty k = refl

last_write_from-append :
    (k : ℕ) (before : Option Bool) (calls : List Call) (c : Call)
    → last_write_from k before (calls ++ c ∷ []) ≡ cache_after k (last_write_from k before calls) c
unfolding last_write_from
last_write_from-append k before [] c = refl
last_write_from-append k before (b ∷ calls) c =
    last_write_from-append k (cache_after k before b) calls c

pub last_write-append :
    (k : ℕ) (calls : List Call) (c : Call)
    → last_write k (calls ++ c ∷ []) ≡ cache_after k (last_write k calls) c
unfolding last_write
last_write-append k calls c = last_write_from-append k none calls c

-- What Valkey and the JSON decoder promise: a GET finds nothing (never written, deleted or expired),
-- or the `dict` of the last SET that no DEL followed.
pub record HonestCache (env : Environment) : Type 0 where
  pub last :
      (calls : List Call) (k : ℕ) (v : Cached)
      → env.cached calls k ≡ some v
      → (b : Bool) × (v ≡ entry (some b)) × (last_write k calls ≡ some b)

-- The cache, where it still holds something, agrees with the database.
pub record IsCoherent (w : World) : Type 0 where
  pub agrees :
      (k : ℕ) (b : Bool) → last_write k w.calls ≡ some b → was_active (find_stop k w.database) ≡ b

module _ (env : Environment) (owner_id : ℕ) where
  is_active_uncached :
      (o : Option EmergencyStop) (w : World)
      → find_stop owner_id w.database ≡ o
      → env.cached w.calls owner_id ≡ none
      → (with_session (is_active env owner_id) w).0 ≡ ok (was_active o)
  unfolding is_active
  is_active_uncached none w found miss = rw (miss, found)
  is_active_uncached (some stop) w found miss = elim (Bool-cases stop.active) [
    | inl h ↦ rw (miss, found, h)
    | inr h ↦ rw (miss, found, h)
  ]

  -- With an honest cache that agrees with the database, `is_active` answers what the database says,
  -- whether the cache still holds the key or not.
  pub is_active-eq :
      (w : World)
      → HonestCache env
      → IsCoherent w
      → (with_session (is_active env owner_id) w).0
        ≡ ok (was_active (find_stop owner_id w.database))
  unfolding is_active
  is_active-eq w honest coherent = reply (env.cached w.calls owner_id) refl
    where
      reply :
          (o : Option Cached)
          → env.cached w.calls owner_id ≡ o
          → (with_session (is_active env owner_id) w).0
            ≡ ok (was_active (find_stop owner_id w.database))
      reply none e = is_active_uncached (find_stop owner_id w.database) w refl e
      reply (some v) e =
          let (b, shape, written) = honest.last w.calls owner_id v e in
          rw (e, shape, coherent.agrees owner_id b written)
