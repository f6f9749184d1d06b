-- ===== src/Gateway/Messages.antt =====
-- app/websocket/protocol/messages.py and validator.py: the messages of a device, and how a frame is
-- read as one.
pub mod Sound
use veyaan_core_backend.Prelude.{
  ℕ, String, Bool, true, false, not, ltb, Option, none, some, List, [], ◌∷◌, if◌then◌else◌, str_eq,
  any,
}
use veyaan_core_backend.Python.{
  Json, null, flag, num, text, uuid, time, tagged, items, fields, nil, cons, end, field, JsonFields,
}

pub data MessageType : Type 0 where
  hello heartbeat acknowledge progress result status_update : MessageType

-- The fields of a message that the code reads. `uuid`s are ids, times are seconds.
pub data ClientMessage : Type 0 where
  hello : ℕ → String → String → ClientMessage
  heartbeat : String → ℕ → ClientMessage
  acknowledge : ℕ → Bool → Option String → ClientMessage
  progress : ℕ → Option ℕ → Option String → ClientMessage
  result : ℕ → Bool → Json → Option String → Option String → ℕ → ℕ → ClientMessage
  status_update : String → ClientMessage

abbrev pub type_of : ClientMessage → MessageType
type_of (hello _ _ _) = MessageType.hello
type_of (heartbeat _ _) = MessageType.heartbeat
type_of (acknowledge _ _ _) = MessageType.acknowledge
type_of (progress _ _ _) = MessageType.progress
type_of (result _ _ _ _ _ _ _) = MessageType.result
type_of (status_update _) = MessageType.status_update

-- Messages to the device: the emergency stop, its end, the welcome and a command.
pub data ServerMessage : Type 0 where
  welcome : ℕ → Bool → ServerMessage
  command : ℕ → String → Json → ℕ → Json → ServerMessage
  emergency_stop : String → ServerMessage
  resume : ServerMessage
  auth_challenge : String → ℕ → ServerMessage
  error : String → ServerMessage

-- What `json.loads(data.decode("utf-8"))` makes of a frame.
pub data Loaded : Type 0 where
  json : Json → Loaded
  bad_json : Loaded
  bad_utf8 : Loaded

-- A frame: its length in bytes and its content.
pub record Frame : Type 0 where
  pub size : ℕ
  pub content : Loaded

-- What pydantic makes of the fields of a `dict` for the model of a type: `none` when it refuses.
abbrev pub Schemas : Type 0
Schemas = MessageType → JsonFields → Option ClientMessage

-- The codes of a `ProtocolError`.
pub data ProtocolCode : Type 0 where
  unsupported_protocol message_too_large invalid_json missing_type : ProtocolCode
  unknown_message_type validation_error : ProtocolCode

-- A message, a `ProtocolError`, or another exception.
pub data Parsed : Type 0 where
  message : ClientMessage → Parsed
  protocol_error : ProtocolCode → Parsed
  exception : Parsed

-- `SUPPORTED_PROTOCOLS`
abbrev pub supported_protocols : List String
supported_protocols = "v1" ∷ []

-- Whether `validate_protocol_version` lets a version pass.
unfoldable pub is_supported : String → Bool
unfolding any
is_supported version = any (λ v. str_eq v version) supported_protocols

-- `MAX_MESSAGE_SIZE`
abbrev pub max_message_size : ℕ
max_message_size = 1048576

-- Whether `validate_message_size` raises.
abbrev pub is_too_large : Frame → Bool
is_too_large frame = ltb max_message_size frame.size

-- `TYPE_TO_MODEL.get(msg_type)`, on a text.
unfoldable pub type_to_model : String → Option MessageType
type_to_model name =
    if str_eq name "hello"
    then some MessageType.hello
    else if str_eq name "heartbeat"
    then some MessageType.heartbeat
    else if str_eq name "acknowledge"
    then some MessageType.acknowledge
    else if str_eq name "progress"
    then some MessageType.progress
    else if str_eq name "result"
    then some MessageType.result
    else if str_eq name "status_update"
    then some MessageType.status_update
    else none

-- The value of a key; of a repeated key the JSON decoder keeps the last.
unfoldable pub last_field : String → Option Json → JsonFields → Option Json
last_field name found end = found
last_field name found (field key v fs) =
    last_field name (if str_eq key name then some v else found) fs

-- `data.get(key)`
abbrev pub or_null : Option Json → Json
or_null none = null
or_null (some v) = v

-- `model(**data)`; what it raises becomes a ProtocolError.
abbrev pub built : Option ClientMessage → Parsed
built none = protocol_error validation_error
built (some m) = message m

abbrev pub build : Schemas → Option MessageType → JsonFields → Parsed
build schemas none fs = protocol_error unknown_message_type
build schemas (some t) fs = built (schemas t fs)

-- From the type on: a false value is missing, a list or a `dict` cannot be a key of a `dict`, and any
-- other value that is no text is unknown.
unfoldable pub by_type : Schemas → Json → JsonFields → Parsed
unfolding type_to_model
by_type schemas null fs = protocol_error missing_type
by_type schemas (flag b) fs =
    if b then protocol_error unknown_message_type else protocol_error missing_type
by_type schemas (num n) fs =
    if ltb 0 n then protocol_error unknown_message_type else protocol_error missing_type
by_type schemas (text name) fs =
    if str_eq name "" then protocol_error missing_type else build schemas (type_to_model name) fs
by_type schemas (items nil) fs = protocol_error missing_type
by_type schemas (items (cons v vs)) fs = exception
by_type schemas (fields end) fs = protocol_error missing_type
by_type schemas (fields (field k v gs)) fs = exception
by_type schemas _ fs = protocol_error unknown_message_type

unfoldable pub parse_content : Schemas → Loaded → Parsed
unfolding by_type last_field
parse_content schemas bad_json = protocol_error invalid_json
parse_content schemas bad_utf8 = exception
parse_content schemas (json (fields fs)) = by_type schemas (or_null (last_field "type" none fs)) fs
parse_content schemas (json v) = exception

unfoldable pub parse_client_message : Schemas → Frame → Parsed
unfolding parse_content
parse_client_message schemas frame =
    if is_too_large frame
    then protocol_error message_too_large
    else parse_content schemas frame.content
