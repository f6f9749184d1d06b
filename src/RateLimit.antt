-- ===== src/RateLimit.antt =====
-- app/security/rate_limiter.py, and rate_limit_check of app/cache/__init__.py.
pub mod Clients
pub mod Windows
use text.Mathlib.Text.{starts_with, find? as find_text}
use veyaan_core_backend.Prelude.{
  ℕ, String, Bool, true, false, ◌&&◌, ◌||◌, ◌-◌, leb, ◌==◌, Option, none, some, List, [], ◌∷◌,
  if◌then◌else◌, str_eq, any,
}

-- The settings that the limiter reads.
pub record Settings : Type 0 where
  pub auth_failures : ℕ
  pub pairing : ℕ
  pub commands : ℕ
  pub approvals : ℕ
  pub ws_connections : ℕ
  pub health_detail : ℕ
  pub trusted_proxies : List String
  pub default_limit : ℕ
  pub default_window : ℕ

-- What the limiter reads of a request. `forwarded_for` is the leftmost part of X-Forwarded-For,
-- stripped, if the header is there and not empty; `at` is the time, which Valkey knows.
pub record HttpRequest : Type 0 where
  pub path : String
  pub method : String
  pub user_id : Option ℕ
  pub client_host : Option String
  pub forwarded_for : Option String
  pub at : ℕ

-- "user:…" or "ip:…"
pub data ClientId : Type 0 where
  user : ℕ → ClientId
  ip : String → ClientId

abbrev pub same_client : ClientId → ClientId → Bool
same_client (user a) (user b) = a == b
same_client (ip a) (ip b) = str_eq a b
same_client (user a) (ip b) = false
same_client (ip a) (user b) = false

abbrev pub host_or_unknown : Option String → String
host_or_unknown none = "unknown"
host_or_unknown (some host) = host

abbrev pub is_trusted_proxy : Settings → String → Bool
is_trusted_proxy settings host = any (λ p. str_eq p host) settings.trusted_proxies

abbrev forwarded : Option String → String → ClientId
forwarded none host = ip host
forwarded (some original) host = ip original

abbrev by_address : Settings → HttpRequest → String → ClientId
by_address settings request host =
    if is_trusted_proxy settings host then forwarded request.forwarded_for host else ip host

abbrev by_user : Settings → HttpRequest → Option ℕ → ClientId
by_user settings request none = by_address settings request (host_or_unknown request.client_host)
by_user settings request (some id) = user id

unfoldable pub get_client_id : Settings → HttpRequest → ClientId
unfolding any
get_client_id settings request = by_user settings request request.user_id

abbrev is_some : Option ℕ → Bool
is_some none = false
is_some (some n) = true

abbrev changes : String → Bool
changes method = str_eq method "POST" || (str_eq method "PUT" || str_eq method "PATCH")

-- The limit and the window in seconds.
unfoldable pub get_rate_limit : Settings → HttpRequest → ℕ × ℕ
get_rate_limit settings request =
    if starts_with request.path "/v1/auth"
    then (settings.auth_failures, 300)
    else if starts_with request.path "/v1/devices/pair"
    then (settings.pairing, 300)
    else if starts_with request.path "/v1/commands" && str_eq request.method "POST"
    then (settings.commands, 60)
    else if starts_with request.path "/v1/approvals" && changes request.method
    then (settings.approvals, 60)
    else if is_some (find_text request.path "/ws")
    then (settings.ws_connections, 60)
    else if str_eq request.path "/health/detail"
    then (settings.health_detail, 60)
    else (settings.default_limit, settings.default_window)

-- One INCR with the EXPIRE after it: the key, the time, the window and the answer of INCR.
pub record Increment : Type 0 where
  pub key : ClientId
  pub at : ℕ
  pub window : ℕ
  pub answer : ℕ

-- Valkey's answer to the INCR of a key at a time, after the increments so far, the last one first.
abbrev pub Counter : Type 0
Counter = List Increment → ClientId → ℕ → ℕ

-- Whether the request is allowed, the count, and what remains.
pub record Verdict : Type 0 where
  pub allowed : Bool
  pub current : ℕ
  pub remaining : ℕ

-- With a client; `max(0, limit - current)` is the subtraction that stops at 0.
unfoldable pub rate_limit_check :
    Counter → ClientId → ℕ → ℕ → ℕ → List Increment → Verdict × List Increment
rate_limit_check counter key now limit window log =
    let current = counter log key now in
    (
      record { allowed = leb current limit; current = current; remaining = limit - current },
      record { key = key; at = now; window = window; answer = current } ∷ log,
    )

-- A request that is passed on, with the remaining number if it was counted, or the answer 429.
pub data Outcome : Type 0 where
  exempt : Outcome
  passed : ℕ → Outcome
  too_many : Outcome

abbrev is_exempt : String → Bool
is_exempt path =
    str_eq path "/health/live" || (str_eq path "/health/ready" || str_eq path "/metrics")

abbrev pub outcome_of : Verdict → Outcome
outcome_of v = if v.allowed then passed v.remaining else too_many

unfoldable pub dispatch :
    Counter → Settings → HttpRequest → List Increment → Outcome × List Increment
unfolding get_client_id get_rate_limit rate_limit_check
dispatch counter settings request log =
    let (limit, window) = get_rate_limit settings request in
    let (verdict, after) =
      rate_limit_check counter (get_client_id settings request) request.at limit window log in
    if is_exempt request.path then (exempt, log) else (outcome_of verdict, after)
