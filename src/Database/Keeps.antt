-- ===== src/Database/Keeps.antt =====
-- Invariants of operations, one rule for each way to build an operation.
use veyaan_core_backend.Prelude.{
  Bool, true, false, List, [], ◌∷◌, Option, none, some, if◌then◌else◌,
}
use veyaan_core_backend.Python.{Error, Result, ok, err}
use veyaan_core_backend.Database.{Database, Call, World}
use veyaan_core_backend.Database.Session.{
  Session, Tx, pure, raise, gets, gets_committed, modify, commit, call, gets_calls, continue, ◌>>=◌,
  case_found, for_each, recover, try_catch, close, with_session,
}

-- `m` keeps `P`, whether it returns or raises.
pub record Keeps {ℓ} {A : Type ℓ} (P : Session → Type 0) (m : Tx A) : Type ℓ where
  pub at : (x : Session) → P x → P (m x).1

module _ {ℓ} {A : Type ℓ} {P : Session → Type 0} where
  pub Keeps-pure : (a : A) → Keeps P (pure a)
  Keeps-pure a = record { at = λ x h. h }

  pub Keeps-raise : (e : Error) → Keeps P (raise {A = A} e)
  Keeps-raise e = record { at = λ x h. h }

  pub Keeps-gets : (f : Database → A) → Keeps P (gets f)
  Keeps-gets f = record { at = λ x h. h }

  pub Keeps-gets_committed : (f : Database → A) → Keeps P (gets_committed f)
  Keeps-gets_committed f = record { at = λ x h. h }

  pub Keeps-gets_calls : (f : List Call → A) → Keeps P (gets_calls f)
  Keeps-gets_calls f = record { at = λ x h. h }

  pub Keeps-if : (b : Bool) (m n : Tx A) → Keeps P m → Keeps P n → Keeps P (if b then m else n)
  Keeps-if true m n km kn = km
  Keeps-if false m n km kn = kn

  Keeps-recover :
      (r : Result A) (handler : Error → Tx A)
      → ((e : Error) → Keeps P (handler e))
      → Keeps P (recover r handler)
  Keeps-recover (ok a) handler kh = record { at = λ x h. h }
  Keeps-recover (err e) handler kh = kh e

  pub Keeps-try_catch :
      (m : Tx A) (handler : Error → Tx A)
      → Keeps P m
      → ((e : Error) → Keeps P (handler e))
      → Keeps P (try_catch m handler)
  Keeps-try_catch m handler km kh = record {
    at = λ x h. let (r, x') = m x in (Keeps-recover r handler kh).at x' (km.at x h);
  }

module _ {ℓ κ} {A : Type ℓ} {B : Type κ} {P : Session → Type 0} where
  pub Keeps-continue :
      (r : Result A) (f : A → Tx B) → ((a : A) → Keeps P (f a)) → Keeps P (continue r f)
  Keeps-continue (ok a) f kf = kf a
  Keeps-continue (err e) f kf = record { at = λ x h. h }

  pub Keeps-bind :
      (m : Tx A) (f : A → Tx B) → Keeps P m → ((a : A) → Keeps P (f a)) → Keeps P (m >>= f)
  Keeps-bind m f km kf = record {
    at = λ x h. let (r, x') = m x in (Keeps-continue r f kf).at x' (km.at x h);
  }

  pub Keeps-case_found :
      (o : Option A) (m : Tx B) (f : A → Tx B)
      → Keeps P m
      → ((a : A) → Keeps P (f a))
      → Keeps P (case_found o m f)
  Keeps-case_found none m f km kf = km
  Keeps-case_found (some a) m f km kf = kf a

module _ {ℓ} {A : Type ℓ} {P : Session → Type 0} where
  pub Keeps-for_each :
      (xs : List A) (f : A → Tx (Unit {0})) → ((a : A) → Keeps P (f a)) → Keeps P (for_each xs f)
  unfolding for_each
  Keeps-for_each [] f kf = Keeps-pure tt
  Keeps-for_each (x ∷ xs) f kf =
      Keeps-bind (f x) (λ _. for_each xs f) (kf x) (λ _. Keeps-for_each xs f kf)

pub ruleset keeps_rules = (
  Keeps-pure, Keeps-raise, Keeps-gets, Keeps-gets_committed, Keeps-if, Keeps-try_catch, Keeps-bind,
  Keeps-case_found, Keeps-for_each,
)

-- A relation between the tables that an operation starts from and both copies of its session.
pub record Within (R : Database → Database → Type 0) (d : Database) (x : Session) : Type 0 where
  pub working : R d x.working
  pub committed : R d x.committed

module _ {R : Database → Database → Type 0} {d : Database} where
  pub Keeps-commit : Keeps (Within R d) commit
  Keeps-commit = record { at = λ x h. record { working = h.working; committed = h.working } }

  pub Keeps-call : (c : Call) → Keeps (Within R d) (call c)
  Keeps-call c = record { at = λ x h. record { working = h.working; committed = h.committed } }

  pub Keeps-modify :
      (f : Database → Database)
      → ((a b c : Database) → R a b → R b c → R a c)
      → ((db : Database) → R db (f db))
      → Keeps (Within R d) (modify f)
  Keeps-modify f trans step = record {
    at = λ x h. record {
      working = trans d x.working (f x.working) h.working (step x.working);
      committed = h.committed;
    };
  }

  Within-close :
      {A : Type 0} (r : Result A) (x : Session) → Within R d x → R d (close r x).1.database
  Within-close (ok a) x h = h.working
  Within-close (err e) x h = h.committed

abbrev pub open_session : World → Session
open_session w = record { working = w.database; committed = w.database; calls = w.calls }

pub with_session-within :
    (R : Database → Database → Type 0) {A : Type 0} (m : Tx A) (w : World)
    → Within R w.database (m (open_session w)).1
    → R w.database (with_session m w).1.database
with_session-within R m w h = let (r, x') = m (open_session w) in Within-close r x' h

-- An operation in its session: the relation holds between the database before and after it.
pub with_session-relates :
    (R : Database → Database → Type 0) {A : Type 0} (m : Tx A) (w : World)
    → R w.database w.database
    → Keeps (Within R w.database) m
    → R w.database (with_session m w).1.database
with_session-relates R m w same km =
    with_session-within R m w (km.at (open_session w) (record { working = same; committed = same }))
