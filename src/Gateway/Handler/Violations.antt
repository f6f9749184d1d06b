-- ===== src/Gateway/Handler/Violations.antt =====
-- The frames of a device that are refused with a `ProtocolError`. JSON that is no object and bytes that
-- are no UTF-8 raise otherwise, and are not counted.
use veyaan_core_backend.Prelude.{ℕ, ◌+◌, List, [], ◌∷◌, ◌≡◌}
use veyaan_core_backend.Gateway.Messages.{Frame, protocol_error, ProtocolCode, parse_client_message}
use veyaan_core_backend.Gateway.Connections.{DeviceConnection, Outside, Gateway}
use veyaan_core_backend.Gateway.Handler.{change, handle_device_message}

-- A connection with more violations.
abbrev pub with_more : ℕ → DeviceConnection → DeviceConnection
with_more n c = record c { violations = c.violations + n }

abbrev counted : ℕ → Gateway → Gateway
counted d g = change d (with_more 1) g

-- Frames that are each refused with a `ProtocolError`.
pub data Bad (out : Outside) : List Frame → Type 0 where
  none_left : Bad out []
  another :
      (frame : Frame) (frames : List Frame) (code : ProtocolCode)
      → parse_client_message out.schemas frame ≡ protocol_error code
      → Bad out frames
      → Bad out (frame ∷ frames)

-- The frames of a list, the last one first.
unfoldable pub handle_all : Outside → ℕ → List Frame → Gateway → Gateway
unfolding handle_device_message
handle_all out d [] g = g
handle_all out d (frame ∷ frames) g = handle_device_message out d frame (handle_all out d frames g)
