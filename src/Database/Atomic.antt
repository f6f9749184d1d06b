-- ===== src/Database/Atomic.antt =====
-- Operations that leave the committed tables as they were when they raise, one rule for each way to
-- build an operation.
use veyaan_core_backend.Prelude.{
  Bool, true, false, Option, none, some, ◌≡◌, refl, if◌then◌else◌, arith,
}
use veyaan_core_backend.Python.{Error, Result, ok, err}
use veyaan_core_backend.Database.{Database, Call, World}
use veyaan_core_backend.Database.Session.{
  Session, Tx, pure, raise, modify, commit, call, continue, ◌>>=◌, ◌>>◌, case_found, recover,
  try_catch, close, with_session,
}
use veyaan_core_backend.Database.Keeps.{Keeps, open_session, keeps_rules}

-- The committed tables are those of `d`.
pub record Committed (d : Database) (x : Session) : Type 0 where
  pub committed : x.committed ≡ d

module _ {d : Database} where
  pub Keeps-write : (f : Database → Database) → Keeps (Committed d) (modify f)
  Keeps-write f = record { at = λ x h. record { committed = h.committed } }

  pub Keeps-request : (c : Call) → Keeps (Committed d) (call c)
  Keeps-request c = record { at = λ x h. record { committed = h.committed } }

pub ruleset committed_rules = (keeps_rules, Keeps-write, Keeps-request)

abbrev Clean {ℓ} : {A : Type ℓ} → Database → Result A → Session → Type 0
Clean d (ok a) x = Unit {0}
Clean d (err e) x = Committed d x

pub record Atomic {ℓ} {A : Type ℓ} (d : Database) (m : Tx A) : Type ℓ where
  pub at : (x : Session) → Committed d x → Clean d (m x).0 (m x).1

module _ {ℓ} {A : Type ℓ} {d : Database} where
  Clean-any : (r : Result A) (x : Session) → Committed d x → Clean d r x
  Clean-any (ok a) x h = tt
  Clean-any (err e) x h = h

  pub Atomic-Keeps : (m : Tx A) → Keeps (Committed d) m → Atomic d m
  Atomic-Keeps m km = record { at = λ x h. let (r, x') = m x in Clean-any r x' (km.at x h) }

  pub Atomic-raise : (e : Error) → Atomic d (raise {A = A} e)
  Atomic-raise e = record { at = λ x h. h }

  pub Atomic-pure : (a : A) → Atomic d (pure a)
  Atomic-pure a = record { at = λ x h. tt }

  pub Atomic-if : (b : Bool) (m n : Tx A) → Atomic d m → Atomic d n → Atomic d (if b then m else n)
  Atomic-if true m n am an = am
  Atomic-if false m n am an = an

  -- A commit is followed by requests and the `return` only.
  pub Atomic-commit : (a : A) → Atomic d (commit >> pure a)
  Atomic-commit a = record { at = λ x h. tt }

  pub Atomic-commit-call : (c : Call) (a : A) → Atomic d (commit >> (call c >> pure a))
  Atomic-commit-call c a = record { at = λ x h. tt }

  Clean-recover :
      (r : Result A) (handler : Error → Tx A) (x : Session)
      → Clean d r x
      → ((e : Error) → Atomic d (handler e))
      → Clean d (recover r handler x).0 (recover r handler x).1
  Clean-recover (ok a) handler x h ah = tt
  Clean-recover (err e) handler x h ah = (ah e).at x h

  pub Atomic-try_catch :
      (m : Tx A) (handler : Error → Tx A)
      → Atomic d m
      → ((e : Error) → Atomic d (handler e))
      → Atomic d (try_catch m handler)
  Atomic-try_catch m handler am ah = record {
    at = λ x h. let (r, x') = m x in Clean-recover r handler x' (am.at x h) ah;
  }

  Clean-close :
      (r : Result A) (x : Session) (e : Error)
      → Clean d r x
      → (close r x).0 ≡ err e
      → (close r x).1.database ≡ d
  Clean-close (ok a) x e h q = ground arith
  Clean-close (err f) x e h q = h.committed

module _ {ℓ κ} {A : Type ℓ} {B : Type κ} {d : Database} where
  Atomic-continue :
      (r : Result A) (f : A → Tx B) → ((a : A) → Atomic d (f a)) → Atomic d (continue r f)
  Atomic-continue (ok a) f af = af a
  Atomic-continue (err e) f af = record { at = λ x h. h }

  pub Atomic-bind :
      (m : Tx A) (f : A → Tx B)
      → Keeps (Committed d) m
      → ((a : A) → Atomic d (f a))
      → Atomic d (m >>= f)
  Atomic-bind m f km af = record {
    at = λ x h. let (r, x') = m x in (Atomic-continue r f af).at x' (km.at x h);
  }

  pub Atomic-case_found :
      (o : Option A) (m : Tx B) (f : A → Tx B)
      → Atomic d m
      → ((a : A) → Atomic d (f a))
      → Atomic d (case_found o m f)
  Atomic-case_found none m f am af = am
  Atomic-case_found (some a) m f am af = af a

pub ruleset atomic_rules = (
  Atomic-pure, Atomic-raise, Atomic-commit, Atomic-commit-call, Atomic-if, Atomic-case_found,
  Atomic-try_catch, Atomic-bind, committed_rules,
)

-- An operation that raises leaves the database as it found it.
pub with_session-Atomic :
    {A : Type 0} (m : Tx A) (w : World) (e : Error)
    → Atomic w.database m
    → (with_session m w).0 ≡ err e
    → (with_session m w).1.database ≡ w.database
with_session-Atomic m w e am h =
    let (r, x') = m (open_session w) in
    Clean-close r x' e (am.at (open_session w) (record { committed = refl })) h
