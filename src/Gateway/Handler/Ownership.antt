-- ===== src/Gateway/Handler/Ownership.antt =====
-- What a device makes the gateway do by one frame.
use mathlib.Core.Option
use veyaan_core_backend.Prelude.{
  find?-update_self, ◌∙◌, ◌==◌, ℕ, false, not, Option, none, some, [], ◌∷◌, ◌++◌, ◌≡◌, refl, ap,
  leb, ◌+◌, arith, ◌⊎◌, inl, inr, if-any,
}
use veyaan_core_backend.Python.{Dict}
use veyaan_core_backend.Database.{Database}
use veyaan_core_backend.Command.Model.{Command}
use veyaan_core_backend.Command.StateMachine.{find_command}
use veyaan_core_backend.Outbox.Model.{
  Subject, command_acknowledged, command_progress, command_result, device_lifecycle,
}
use veyaan_core_backend.Gateway.Messages.{
  ClientMessage, hello, heartbeat, acknowledge, progress, result, status_update, Frame, Parsed,
  message, protocol_error, exception, parse_client_message,
}
use veyaan_core_backend.Gateway.Connections.{
  DeviceConnection, Request, Outside, Gateway, get, close, publish, set_presence,
}
use veyaan_core_backend.Gateway.Handler.{
  row_belongs, command_belongs_to_device, change, beat, report, head, on_message, violate_found,
  violate, on_parsed, handle_device_message, max_violations,
}

-- The subjects of the three reports on a command.
abbrev ReportsOn : ℕ → Subject → Type 0
ReportsOn id s =
    (s ≡ command_acknowledged id) ⊎ ((s ≡ command_progress id) ⊎ (s ≡ command_result id))

-- A report on a command that stands in the database as one of the device's.
pub record OwnReport (db : Database) (device_id : ℕ) (s : Subject) (payload : Dict) : Type 0 where
  pub id : ℕ
  pub command : Command
  pub rest : Dict
  pub subject : ReportsOn id s
  pub found : find_command id db ≡ some command
  pub own : command.device_id ≡ device_id
  pub names : payload ≡ head id device_id rest

-- What a frame of a device may lead to: of the connections, only the device's own may be closed.
abbrev pub Allowed : Gateway → ℕ → Request → Type 0
Allowed g d (set_presence e state count) = e ≡ d
Allowed g d (publish s payload) = (s ≡ device_lifecycle d) ⊎ OwnReport g.world.database d s payload
Allowed g d (close connection_id code) =
    (code ≡ 4005)
    × ((c : DeviceConnection) × (get d g ≡ some c) × (c.connection_id ≡ connection_id))
Allowed g d r = ⊥

-- At most one request, and an allowed one; the tables and the calls stay.
pub record Confined (d : ℕ) (g after : Gateway) : Type 0 where
  pub world : after.world ≡ g.world
  pub requests :
      (after.log ≡ g.log) ⊎ ((r : Request) × (after.log ≡ g.log ++ r ∷ []) × Allowed g d r)

unchanged : (d : ℕ) (g : Gateway) → Confined d g g
unchanged d g = record { world = refl; requests = inl refl }

belongs-inv :
    (d : ℕ) (o : Option Command)
    → not (row_belongs d o) ≡ false
    → (c : Command) × (o ≡ some c) × (c.device_id ≡ d)
belongs-inv d none h = ground arith
belongs-inv d (some c) h = (c, refl, ground arith)

report-Confined :
    (d id : ℕ) (s : Subject) (rest : Dict) (g : Gateway)
    → ReportsOn id s
    → Confined d g (report d id s (head id d rest) g)
unfolding report command_belongs_to_device
report-Confined d id s rest g on =
    if-any (λ (k : Gateway). Confined d g k) (not (command_belongs_to_device id d g.world.database))
      _ _ (λ h. unchanged d g)
      (λ h.
        let (c, found, own) = belongs-inv d (find_command id g.world.database) h in
        record {
          world = refl;
          requests = inr (
            publish s (head id d rest),
            refl,
            inr (record {
              id = id;
              command = c;
              rest = rest;
              subject = on;
              found = found;
              own = own;
              names = refl;
            }),
          );
        })

message-Confined :
    (out : Outside) (d : ℕ) (m : ClientMessage) (g : Gateway) → Confined d g (on_message out d m g)
unfolding on_message beat change
message-Confined out d (heartbeat state count) g = record {
  world = refl;
  requests = inr (set_presence d state count, refl, refl);
}
message-Confined out d (acknowledge id accepted reason) g =
    report-Confined d id (command_acknowledged id) _ g (inl refl)
message-Confined out d (progress id percent stage) g =
    report-Confined d id (command_progress id) _ g (inr (inl refl))
message-Confined out d (result id success v code reason started finished) g =
    report-Confined d id (command_result id) _ g (inr (inr refl))
message-Confined out d (status_update state) g = record {
  world = refl;
  requests = inr (_, refl, inl refl);
}
message-Confined out d (hello _ _ _) g = unchanged d g

-- One more violation.
abbrev more : DeviceConnection → DeviceConnection
more c = record c { violations = c.violations + 1 }

get-counted :
    (d : ℕ) (o : Option DeviceConnection) (g : Gateway)
    → get d g ≡ o
    → get d (change d more g) ≡ Option.map more o
unfolding get change
get-counted d o g h =
    find?-update_self (λ c. c.device_id == d) more g.active_connections (λ c. refl)
    ∙ ap (Option.map more) h

violate-Confined :
    (d : ℕ) (o : Option DeviceConnection) (g : Gateway)
    → get d g ≡ o
    → Confined d g (violate_found d (Option.map more o) (change d more g))
unfolding change
violate-Confined d none g h = record { world = refl; requests = inl refl }
violate-Confined d (some conn) g h =
    if-any (λ (k : Gateway). Confined d g k) (leb max_violations (conn.violations + 1)) _ _
      (λ many. record {
        world = refl;
        requests = inr (close conn.connection_id 4005, refl, (refl, (conn, h, refl)));
      })
      (λ few. record { world = refl; requests = inl refl })

parsed-Confined :
    (out : Outside) (d : ℕ) (p : Parsed) (g : Gateway) → Confined d g (on_parsed out d p g)
unfolding violate
parsed-Confined out d (message m) g = message-Confined out d m g
parsed-Confined out d (protocol_error code) g =
    rw (get-counted d (get d g) g refl) (violate-Confined d (get d g) g refl)
parsed-Confined out d exception g = unchanged d g

-- Whatever frame a device sends, the gateway changes no table and makes at most one request: the
-- device's own presence, its own lifecycle event, the close of its own connection with 4005, or the report on a command
-- that stands in the database as the device's, whose payload names that command and the device.
pub handle_device_message-Confined :
    (out : Outside) (d : ℕ) (frame : Frame) (g : Gateway)
    → Confined d g (handle_device_message out d frame g)
unfolding handle_device_message
handle_device_message-Confined out d frame g =
    parsed-Confined out d (parse_client_message out.schemas frame) g
