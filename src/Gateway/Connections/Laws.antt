-- ===== src/Gateway/Connections/Laws.antt =====
-- Which connection a device has after a registration, a deregistration or a revocation.
use veyaan_core_backend.Prelude.{
  ℕ, Bool, true, false, ◌==◌, ◌&&◌, Option, none, some, List, [], ◌∷◌, ◌≡◌, refl, sym, ◌∙◌, ap,
  arith, if◌then◌else◌, if-any, find?, select, ==→eq, ==_refl, subst, inl, inr, Bool-cases,
}
use veyaan_core_backend.EmergencyStop.Service.Reads.{is_active-Reads}
use veyaan_core_backend.Gateway.Connections.{
  DeviceConnection, Outside, Gateway, note, get, put, remove, close_old, register, is_same, is_own,
  forget_presence, unregister, close, ask_stop, close_device_connection, close_found,
}

pub find?-put :
    (d : ℕ) (conn : DeviceConnection) (cs : List DeviceConnection)
    → find? (λ c. c.device_id == d) (put conn cs)
      ≡ (if conn.device_id == d then some conn else find? (λ c. c.device_id == d) cs)
unfolding put find?
find?-put d conn [] = refl
find?-put d conn (c ∷ cs) = ground (arith, find?-put d conn cs)

find?-remove :
    (d e : ℕ) (cs : List DeviceConnection)
    → find? (λ c. c.device_id == d) (remove e cs)
      ≡ (if d == e then none else find? (λ c. c.device_id == d) cs)
unfolding remove find? select
find?-remove d e [] = ground arith
find?-remove d e (c ∷ cs) = ground (arith, find?-remove d e cs)

active-close_old :
    (o : Option DeviceConnection) (g : Gateway)
    → (close_old o g).active_connections ≡ g.active_connections
active-close_old none g = refl
active-close_old (some c) g = refl

pub active-register :
    (conn : DeviceConnection) (g : Gateway)
    → (register conn g).active_connections ≡ put conn g.active_connections
unfolding register
active-register conn g = ap (put conn) (active-close_old (get conn.device_id g) g)

-- After a registration the device has the new connection, and every other device the one it had.
pub get-register :
    (conn : DeviceConnection) (d : ℕ) (g : Gateway)
    → get d (register conn g) ≡ (if conn.device_id == d then some conn else get d g)
unfolding register get
get-register conn d g =
    rw (active-close_old (get conn.device_id g) g) (find?-put d conn g.active_connections)

removed :
    (b : Bool) (d e : ℕ) (g : Gateway)
    → get d (if b then record g { active_connections = remove e g.active_connections } else g)
      ≡ (if (d == e) && b then none else get d g)
unfolding get
removed true d e g = find?-remove d e g.active_connections ∙ ground arith
removed false d e g = ground arith

dropped :
    (own : Bool) (d e connection_id : ℕ) (g : Gateway)
    → get d (
        if is_same connection_id (get e (forget_presence own e g))
        then record (forget_presence own e g) {
          active_connections = remove e (forget_presence own e g).active_connections;
        }
        else forget_presence own e g)
      ≡ (if (d == e) && is_same connection_id (get e g) then none else get d g)
unfolding get
dropped true d e connection_id g =
    removed (is_same connection_id (get e g)) d e (forget_presence true e g)
dropped false d e connection_id g = removed (is_same connection_id (get e g)) d e g

-- A deregistration takes the connection of its device if that is the connection which it names, and
-- leaves every other.
pub get-unregister :
    (out : Outside) (d e connection_id : ℕ) (g : Gateway)
    → get d (unregister out e connection_id g)
      ≡ (if (d == e) && is_same connection_id (get e g) then none else get d g)
unfolding unregister get
get-unregister out d e connection_id g =
    dropped (is_own connection_id (out.connection_of g.log e)) d e connection_id g

closed :
    (o : Option DeviceConnection) (out : Outside) (d e : ℕ) (g : Gateway)
    → get e g ≡ o
    → get d (close_found out e o g) ≡ (if d == e then none else get d g)
unfolding get
closed none out d e g h = elim (Bool-cases (d == e)) [
  | inl same ↦ rw same (subst (λ k. get k g ≡ none) (sym (==→eq d e same)) h)
  | inr other ↦ rw other refl
]
closed (some c) out d e g h =
    get-unregister out d e c.connection_id (note (close c.connection_id 4002) g)
    ∙ rw (h, ==_refl c.connection_id) (ground arith)

-- After `close_device_connection` the device has no connection, and every other device the one it
-- had.
pub get-close_device_connection :
    (out : Outside) (d e : ℕ) (g : Gateway)
    → get d (close_device_connection out e g) ≡ (if d == e then none else get d g)
unfolding close_device_connection
get-close_device_connection out d e g = closed (get e g) out d e g refl

world-forget_presence :
    (own : Bool) (d : ℕ) (g : Gateway) → (forget_presence own d g).world ≡ g.world
world-forget_presence true d g = refl
world-forget_presence false d g = refl

-- A deregistration and a revocation change no table.
pub world-unregister :
    (out : Outside) (e connection_id : ℕ) (g : Gateway)
    → (unregister out e connection_id g).world ≡ g.world
unfolding unregister
world-unregister out e connection_id g =
    let own = is_own connection_id (out.connection_of g.log e) in
    let forgot = forget_presence own e g in
    if-any (λ (k : Gateway). k.world ≡ g.world) (is_same connection_id (get e forgot)) _ _
      (λ h. world-forget_presence own e g) (λ h. world-forget_presence own e g)

closed_world :
    (o : Option DeviceConnection) (out : Outside) (e : ℕ) (g : Gateway)
    → (close_found out e o g).world ≡ g.world
closed_world none out e g = refl
closed_world (some c) out e g =
    world-unregister out e c.connection_id (note (close c.connection_id 4002) g)

pub world-close_device_connection :
    (out : Outside) (e : ℕ) (g : Gateway) → (close_device_connection out e g).world ≡ g.world
unfolding close_device_connection
world-close_device_connection out e g = closed_world (get e g) out e g

-- To ask for a stop changes no table.
pub database-ask_stop :
    (out : Outside) (owner_id : ℕ) (g : Gateway)
    → (ask_stop out owner_id g).1.world.database ≡ g.world.database
unfolding ask_stop
database-ask_stop out owner_id g =
    let r = is_active-Reads out.environment owner_id (record {
      working = g.world.database;
      committed = g.world.database;
      calls = g.world.calls;
    }) in
    rw (r.returns, r.working) refl
