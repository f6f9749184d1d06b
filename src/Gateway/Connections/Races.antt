-- ===== src/Gateway/Connections/Races.antt =====
-- A late deregistration of an old connection, after the device has come back on a new one.
use veyaan_core_backend.Prelude.{
  ℕ, false, ◌==◌, ==_refl, ==_ne, ◌≢◌, Option, none, some, List, [], ◌∷◌, ◌++◌, ◌≡◌, refl, sym, ◌∙◌,
  arith, if◌then◌else◌,
}
use veyaan_core_backend.Gateway.Connections.{
  DeviceConnection, Request, set_connection, delete_connection, Outside, Gateway, get, close_old,
  register, is_same, is_own, unregister,
}
use veyaan_core_backend.Gateway.Connections.Laws.{get-register}

-- The connection id that the last write of the hash of a device left.
abbrev hash_after : ℕ → Option ℕ → Request → Option ℕ
hash_after d before (set_connection e c) = if e == d then some c else before
hash_after d before (delete_connection e) = if e == d then none else before
hash_after d before r = before

unfoldable pub last_from : ℕ → Option ℕ → List Request → Option ℕ
last_from d before [] = before
last_from d before (r ∷ log) = last_from d (hash_after d before r) log

unfoldable pub last_connection : ℕ → List Request → Option ℕ
unfolding last_from
last_connection d log = last_from d none log

-- What Valkey promises of a hash: it is gone (never written, deleted or expired), or it has what
-- was written last.
pub record HonestHashes (out : Outside) : Type 0 where
  pub last :
      (log : List Request) (d c : ℕ)
      → out.connection_of log d ≡ some c
      → last_connection d log ≡ some c

last_from-append :
    (d : ℕ) (before : Option ℕ) (log : List Request) (r : Request)
    → last_from d before (log ++ r ∷ []) ≡ hash_after d (last_from d before log) r
unfolding last_from
last_from-append d before [] r = refl
last_from-append d before (q ∷ log) r = last_from-append d (hash_after d before q) log r

last_connection-set :
    (d c : ℕ) (log : List Request) → last_connection d (log ++ set_connection d c ∷ []) ≡ some c
unfolding last_connection
last_connection-set d c log = last_from-append d none log (set_connection d c) ∙ rw (==_refl d)

-- Whatever Valkey still holds, it does not name the old connection.
not_own :
    (o : Option ℕ) (old new : ℕ)
    → new ≢ old
    → ((c : ℕ) → o ≡ some c → c ≡ new)
    → is_own old o ≡ false
not_own none old new ne h = refl
not_own (some c) old new ne h = rw (h c refl) (==_ne new old ne)

some_inj : {a b : ℕ} → some a ≡ some b → a ≡ b
some_inj h = ground arith

-- With an honest Valkey, a device that has come back on a new connection keeps it when its old
-- connection is deregistered late: nothing changes in the gateway, in Valkey or in what is sent.
pub unregister-register :
    (out : Outside) (conn : DeviceConnection) (old : ℕ) (g : Gateway)
    → HonestHashes out
    → conn.connection_id ≢ old
    → unregister out conn.device_id old (register conn g) ≡ register conn g
unfolding unregister register
unregister-register out conn old g honest ne =
    let d = conn.device_id in
    let new = register conn g in
    let current : get d new ≡ some conn = get-register conn d g ∙ rw (==_refl d) in
    let foreign : is_own old (out.connection_of new.log d) ≡ false =
      not_own (out.connection_of new.log d) old conn.connection_id ne (λ c h. some_inj (
        sym (honest.last new.log d c h)
        ∙ last_connection-set d conn.connection_id (close_old (get d g) g).log)) in
    let other : is_same old (get d new) ≡ false = rw current (==_ne conn.connection_id old ne) in
    rw (foreign, other)
