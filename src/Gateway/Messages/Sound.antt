-- ===== src/Gateway/Messages/Sound.antt =====
-- What a frame is that is read as a message.
use veyaan_core_backend.Prelude.{
  String, Bool, true, false, Option, none, some, ◌≡◌, refl, arith, if◌then◌else◌, str_eq,
}
use veyaan_core_backend.Python.{
  Json, null, flag, num, text, items, fields, nil, cons, end, field, JsonFields,
}
use veyaan_core_backend.Gateway.Messages.{
  MessageType, ClientMessage, Loaded, json, bad_json, bad_utf8, Frame, Schemas, message,
  protocol_error, missing_type, message_too_large, is_too_large, type_to_model, last_field, or_null,
  built, build, by_type, parse_content, parse_client_message,
}

-- A frame that says of itself what it is read as.
pub record Reads (schemas : Schemas) (frame : Frame) (m : ClientMessage) : Type 0 where
  pub fits : is_too_large frame ≡ false
  pub fs : JsonFields
  pub name : String
  pub model : MessageType
  pub content : frame.content ≡ json (fields fs)
  pub named : or_null (last_field "type" none fs) ≡ text name
  pub known : type_to_model name ≡ some model
  pub accepted : schemas model fs ≡ some m

-- The part of that which follows from the type.
abbrev Typed : Schemas → Json → JsonFields → ClientMessage → Type 0
Typed schemas v fs m =
    (name : String) × (model : MessageType) × (v ≡ text name)
    × (type_to_model name ≡ some model)
    × (schemas model fs ≡ some m)

built-inv : (o : Option ClientMessage) (m : ClientMessage) → built o ≡ message m → o ≡ some m
built-inv none m h = ground arith
built-inv (some n) m h = ground arith

build-inv :
    (schemas : Schemas) (o : Option MessageType) (fs : JsonFields) (m : ClientMessage)
    → build schemas o fs ≡ message m
    → (model : MessageType) × (o ≡ some model) × (schemas model fs ≡ some m)
build-inv schemas none fs m h = ground arith
build-inv schemas (some t) fs m h = (t, refl, built-inv (schemas t fs) m h)

by_name-inv :
    (b : Bool) (schemas : Schemas) (name : String) (fs : JsonFields) (m : ClientMessage)
    → (if b then protocol_error missing_type else build schemas (type_to_model name) fs) ≡ message m
    → (model : MessageType) × (type_to_model name ≡ some model) × (schemas model fs ≡ some m)
by_name-inv true schemas name fs m h = ground arith
by_name-inv false schemas name fs m h = build-inv schemas (type_to_model name) fs m h

by_type-inv :
    (schemas : Schemas) (v : Json) (fs : JsonFields) (m : ClientMessage)
    → by_type schemas v fs ≡ message m
    → Typed schemas v fs m
unfolding by_type
by_type-inv schemas (text name) fs m h =
    let (model, known, accepted) = by_name-inv (str_eq name "") schemas name fs m h in
    (name, model, refl, known, accepted)
by_type-inv schemas null fs m h = ground arith
by_type-inv schemas (flag b) fs m h = ground arith
by_type-inv schemas (num n) fs m h = ground arith
by_type-inv schemas (items nil) fs m h = ground arith
by_type-inv schemas (items (cons v vs)) fs m h = ground arith
by_type-inv schemas (fields end) fs m h = ground arith
by_type-inv schemas (fields (field k v gs)) fs m h = ground arith
by_type-inv schemas v fs m h = ground arith

content-inv :
    (schemas : Schemas) (frame : Frame) (content : Loaded) (m : ClientMessage)
    → is_too_large frame ≡ false
    → frame.content ≡ content
    → parse_content schemas content ≡ message m
    → Reads schemas frame m
unfolding parse_content
content-inv schemas frame bad_json m small e h = ground arith
content-inv schemas frame bad_utf8 m small e h = ground arith
content-inv schemas frame (json (fields fs)) m small e h =
    let (name, model, named, known, accepted) =
      by_type-inv schemas (or_null (last_field "type" none fs)) fs m h in
    record {
      fits = small;
      fs = fs;
      name = name;
      model = model;
      content = e;
      named = named;
      known = known;
      accepted = accepted;
    }
content-inv schemas frame (json v) m small e h = ground arith

size-inv :
    (b : Bool) (schemas : Schemas) (frame : Frame) (m : ClientMessage)
    → is_too_large frame ≡ b
    → (if b then protocol_error message_too_large else parse_content schemas frame.content)
      ≡ message m
    → Reads schemas frame m
size-inv true schemas frame m e h = ground arith
size-inv false schemas frame m e h = content-inv schemas frame frame.content m e refl h

-- A frame that is read as a message is at most 1 MiB long, is a JSON object whose last `type` is the
-- name of one of the six types of messages, and its fields pass the model of that type.
pub parse_client_message-Reads :
    (schemas : Schemas) (frame : Frame) (m : ClientMessage)
    → parse_client_message schemas frame ≡ message m
    → Reads schemas frame m
unfolding parse_client_message
parse_client_message-Reads schemas frame m h = size-inv (is_too_large frame) schemas frame m refl h
