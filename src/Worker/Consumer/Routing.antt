-- ===== src/Worker/Consumer/Routing.antt =====
-- app/workers/command_consumer.py: which handler a message goes to, and the reply to NATS.
use text.Mathlib.Text.{find? as find_text}
use veyaan_core_backend.Prelude.{
  ℕ, String, Bool, true, false, Option, none, some, List, [], ◌∷◌, if◌then◌else◌,
}
use veyaan_core_backend.Python.{Dict, Result, ok, err}
use veyaan_core_backend.Database.{Environment, World}
use veyaan_core_backend.Database.Session.{Tx, with_session}
use veyaan_core_backend.Outbox.Model.{Subject}
use veyaan_core_backend.Worker.Consumer.{
  handle_delivered, handle_acknowledged, handle_progress, handle_result,
}

pub data Handler : Type 0 where
  delivered acknowledged progress result : Handler

-- `_HANDLERS`: a key that is looked for in the subject, and the handler.
abbrev pub handlers : List (String × Handler)
handlers =
    ("delivered", delivered)
    ∷ ("acknowledged", acknowledged)
    ∷ ("progress", progress)
    ∷ ("result", result)
    ∷ []

abbrev pub is_some : Option ℕ → Bool
is_some none = false
is_some (some n) = true

-- `key in subject`. A key has letters that no UUID has, so it is not in the id of the subject.
abbrev pub is_in : String → Subject → Bool
is_in key subject = is_some (find_text subject.prefix key)

unfoldable pub first_of : List (String × Handler) → Subject → Option Handler
first_of [] subject = none
first_of ((key, handler) ∷ rest) subject =
    if is_in key subject then some handler else first_of rest subject

unfoldable pub route_handler : Subject → Option Handler
unfolding first_of
route_handler subject = first_of handlers subject

unfoldable pub run_handler : Environment → Handler → Dict → Tx (Unit {0})
unfolding handle_delivered handle_acknowledged handle_progress handle_result
run_handler env delivered payload = handle_delivered env payload
run_handler env acknowledged payload = handle_acknowledged env payload
run_handler env progress payload = handle_progress env payload
run_handler env result payload = handle_result env payload

pub data Reply : Type 0 where
  ack nak : Reply

abbrev pub reply_of : Result (Unit {0}) → Reply
reply_of (ok a) = ack
reply_of (err e) = nak

-- With no JSON, or with JSON that is no `dict`, the payload is `none`: the exception ends in `nak`.
unfoldable pub with_handler : Environment → Option Handler → Option Dict → World → Reply × World
unfolding run_handler
with_handler env none payload w = (ack, w)
with_handler env (some handler) none w = (nak, w)
with_handler env (some handler) (some payload) w =
    let (r, after) = with_session (run_handler env handler payload) w in (reply_of r, after)

-- The body of the loop over the fetched messages.
unfoldable pub poll_message : Environment → Subject → Option Dict → World → Reply × World
unfolding route_handler with_handler
poll_message env subject payload w = with_handler env (route_handler subject) payload w
