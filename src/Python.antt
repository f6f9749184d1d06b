-- ===== src/Python.antt =====
-- Python values that cross the code: JSON documents, `dict` metadata, and the exceptions that the
-- services raise. An operation returns a `Result`: the value of its `return`, or what it raised.
use veyaan_core_backend.Prelude.{
  ℕ, zero, suc, String, Bool, List, [], ◌∷◌, Option, none, some, str_eq, if◌then◌else◌,
}

-- The values of a JSON document. `uuid` and `time` are the texts `str(uuid)` and
-- `datetime.isoformat()`, kept by what they stand for; `null` is Python's `None`.
mutual
  pub data Json : Type 0 where
    null : Json
    flag : Bool → Json
    num : ℕ → Json
    text : String → Json
    uuid : ℕ → Json
    time : ℕ → Json
    tagged : String → ℕ → Json
    items : JsonList → Json
    fields : JsonFields → Json

  pub data JsonList : Type 0 where
    nil : JsonList
    cons : Json → JsonList → JsonList

  pub data JsonFields : Type 0 where
    end : JsonFields
    field : String → Json → JsonFields → JsonFields

-- A `dict` with text keys.
abbrev pub Dict : Type 0
Dict = List (String × Json)

-- The fields of a `dict`, as they are printed and read again.
abbrev pub to_fields : Dict → JsonFields
to_fields [] = end
to_fields ((k, v) ∷ d) = field k v (to_fields d)

-- `d.get(key)`; a missing key is told from a stored `None`.
unfoldable pub lookup : String → Dict → Option Json
lookup key [] = none
lookup key ((k, v) ∷ d) = if str_eq k key then some v else lookup key d

-- `s[:n]`, counted in characters.
unfoldable pub cut : ℕ → String → String
cut zero s = String.[]
cut (suc n) String.[] = String.[]
cut (suc n) (String.◌∷◌ c s) = String.◌∷◌ c (cut n s)

-- The optional text of an `Optional[str]`.
abbrev pub of_optional : Option String → Json
of_optional none = null
of_optional (some s) = text s

abbrev pub of_optional_time : Option ℕ → Json
of_optional_time none = null
of_optional_time (some t) = time t

-- app/api/errors.py
pub data ErrorCode : Type 0 where
  idempotency_conflict device_not_found device_revoked pairing_expired pairing_invalid : ErrorCode
  invalid_command_type approval_expired approval_already_decided : ErrorCode
  invalid_decision_nonce invalid_state emergency_stop_active forbidden : ErrorCode

-- What a service may raise. An `ApiError` is kept with its code and its HTTP status.
pub data Error : Type 0 where
  api_error : ErrorCode → ℕ → Error
  -- `StateTransitionError`, with the command
  state_transition : ℕ → Error
  -- a missing attribute, such as `.value` of a plain text
  attribute_error : Error
  -- a request that a pydantic schema refuses
  validation_error : Error
  -- `MultipleResultsFound` of `scalar_one_or_none`
  multiple_results : Error
  -- an argument that a function does not take, such as a keyword of a standard logger
  type_error : Error
  -- a failed publish
  publish_error : String → Error

pub data Result {ℓ} (A : Type ℓ) : Type ℓ where
  ok : A → Result A
  err : Error → Result A
