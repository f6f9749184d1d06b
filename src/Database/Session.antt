-- ===== src/Database/Session.antt =====
-- app/database/session.py: an operation inside `async with get_db_session()`. It works on a copy of
-- the tables; `commit` makes the copy the database, a normal end commits too, and an exception
-- rolls back to the last commit. Calls to Valkey and NATS are never taken back.
use veyaan_core_backend.Prelude.{List, [], ◌∷◌, ◌++◌, Option, none, some, if◌then◌else◌}
use veyaan_core_backend.Python.{Error, type_error, Result, ok, err}
use veyaan_core_backend.Database.{Database, Call, Environment, LogLevel, World}

pub record Session : Type 0 where
  pub working : Database
  pub committed : Database
  pub calls : List Call

abbrev pub Tx {ℓ} : Type ℓ → Type ℓ
Tx A = Session → Result A × Session

module _ {ℓ} {A : Type ℓ} where
  abbrev pub pure : A → Tx A
  pure a s = (ok a, s)

  abbrev pub raise : Error → Tx A
  raise e s = (err e, s)

  abbrev pub gets : (Database → A) → Tx A
  gets f s = (ok (f s.working), s)

  -- What a second session sees: the committed tables.
  abbrev pub gets_committed : (Database → A) → Tx A
  gets_committed f s = (ok (f s.committed), s)

abbrev pub modify : (Database → Database) → Tx (Unit {0})
modify f s = (ok tt, record s { working = f s.working })

abbrev pub commit : Tx (Unit {0})
commit s = (ok tt, record s { committed = s.working })

-- A request to Valkey or NATS.
abbrev pub call : Call → Tx (Unit {0})
call c s = (ok tt, record s { calls = s.calls ++ c ∷ [] })

-- A call of a worker's logger with keyword arguments.
abbrev pub log : Environment → LogLevel → Tx (Unit {0})
log env level = if env.logs level then pure tt else raise type_error

abbrev pub gets_calls {ℓ} : {A : Type ℓ} → (List Call → A) → Tx A
gets_calls f s = (ok (f s.calls), s)

abbrev pub continue {ℓ κ} : {A : Type ℓ} {B : Type κ} → Result A → (A → Tx B) → Tx B
continue (ok a) f s = f a s
continue (err e) f s = (err e, s)

infixl 5 ◌>>=◌ ◌>>◌
abbrev pub ◌>>=◌ {ℓ κ} : {A : Type ℓ} {B : Type κ} → Tx A → (A → Tx B) → Tx B
◌>>=◌ m f s = let (r, s') = m s in continue r f s'

abbrev pub ◌>>◌ {ℓ κ} : {A : Type ℓ} {B : Type κ} → Tx A → Tx B → Tx B
m >> n = m >>= λ _. n

-- `if row: … else: …` on a row that a query may have found.
abbrev pub case_found {ℓ κ} : {A : Type ℓ} {B : Type κ} → Option A → Tx B → (A → Tx B) → Tx B
case_found none m f = m
case_found (some a) m f = f a

-- `for x in xs: f(x)`.
unfoldable pub for_each {ℓ} : {A : Type ℓ} → List A → (A → Tx (Unit {0})) → Tx (Unit {0})
for_each [] f = pure tt
for_each (x ∷ xs) f = let rest = for_each xs f in f x >> rest

abbrev pub recover {ℓ} : {A : Type ℓ} → Result A → (Error → Tx A) → Tx A
recover (ok a) handler s = (ok a, s)
recover (err e) handler s = handler e s

-- `try: m except …: handler`: what `m` wrote before the exception stays in the session.
abbrev pub try_catch {ℓ} : {A : Type ℓ} → Tx A → (Error → Tx A) → Tx A
try_catch m handler s = let (r, s') = m s in recover r handler s'

abbrev pub close {ℓ} : {A : Type ℓ} → Result A → Session → Result A × World
close (ok a) s = (ok a, record { database = s.working; calls = s.calls })
close (err e) s = (err e, record { database = s.committed; calls = s.calls })

-- The block `async with get_db_session() as session: m`.
abbrev pub with_session {ℓ} : {A : Type ℓ} → Tx A → World → Result A × World
with_session m w =
    let (r, s) = m (record { working = w.database; committed = w.database; calls = w.calls }) in
    close r s
