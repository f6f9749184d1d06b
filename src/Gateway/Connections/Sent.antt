-- ===== src/Gateway/Connections/Sent.antt =====
-- The messages that a log says were sent to devices.
use mathlib.Core.List.{append-nil, append_assoc}
use veyaan_core_backend.Prelude.{ℕ, List, [], ◌∷◌, ◌++◌, ◌≡◌, sym, ◌∙◌, ap}
use veyaan_core_backend.Gateway.Messages.{ServerMessage}
use veyaan_core_backend.Gateway.Connections.{Request, send}

-- What a log says was sent, with the connection.
abbrev pub message_in : Request → List (ℕ × ServerMessage)
message_in (send c m) = (c, m) ∷ []
message_in r = []

unfoldable pub messages : List Request → List (ℕ × ServerMessage)
messages [] = []
messages (r ∷ log) = message_in r ++ messages log

pub messages-append :
    (log : List Request) (r : Request) → messages (log ++ r ∷ []) ≡ messages log ++ message_in r
unfolding messages
messages-append [] r = append-nil (message_in r)
messages-append (q ∷ log) r =
    ap (λ t. message_in q ++ t) (messages-append log r)
    ∙ sym (append_assoc (message_in q) (messages log) (message_in r))

pub messages-other :
    (log : List Request) (r : Request) → message_in r ≡ [] → messages (log ++ r ∷ []) ≡ messages log
messages-other log r h = messages-append log r ∙ rw h (append-nil (messages log))
