-- ===== src/User.antt =====
-- app/users/repository.py and service.py, and the user that app/auth/dependencies.py takes for a
-- token. The claims of a token, or the error of its verification, are an argument.
pub mod Unique
use veyaan_core_backend.Prelude.{
  ℕ, String, Bool, true, false, Option, none, some, List, [], ◌∷◌, ◌++◌, if◌then◌else◌, find?,
  str_eq,
}
use veyaan_core_backend.Python.{Error, api_error, forbidden, Result, ok, err}

pub data UserStatus : Type 0 where
  active inactive suspended : UserStatus

pub record User : Type 0 where
  pub id : ℕ
  pub supabase_user_id : String
  pub display_name : String
  pub email : String
  pub status : UserStatus

pub record TokenClaims : Type 0 where
  pub sub : String
  pub email : String

pub record UserContext : Type 0 where
  pub id : ℕ
  pub supabase_user_id : String
  pub email : String
  pub status : UserStatus

-- `email.split("@")[0]`
unfoldable pub before_at : String → String
before_at String.[] = String.[]
before_at (String.◌∷◌ c s) =
    let rest = before_at s in
    if str_eq (String.◌∷◌ c String.[]) "@" then String.[] else String.◌∷◌ c rest

-- `a or b`
abbrev pub or_else : String → String → String
or_else a b = if str_eq a "" then b else a

-- `create`, with the id that the database gives.
unfoldable pub new_user : ℕ → String → String → String → User
unfolding before_at
new_user id sub email display_name = record {
  id = id;
  supabase_user_id = sub;
  display_name = or_else display_name (before_at email);
  email = email;
  status = active;
}

unfoldable pub get_by_supabase_id : String → List User → Option User
get_by_supabase_id sub users = find? (λ u. str_eq u.supabase_user_id sub) users

abbrev pub or_created : ℕ → String → String → String → List User → Option User → User × List User
or_created id sub email display_name users (some u) = (u, users)
or_created id sub email display_name users none =
    let u = new_user id sub email display_name in (u, users ++ u ∷ [])

-- The user of a Supabase id, who is created when there is none.
unfoldable pub get_or_create : ℕ → String → String → String → List User → User × List User
unfolding get_by_supabase_id new_user
get_or_create id sub email display_name users =
    or_created id sub email display_name users (get_by_supabase_id sub users)

-- `get_or_create_user`: `full_name` is `claims.user_metadata.get("full_name")`.
unfoldable pub get_or_create_user : ℕ → TokenClaims → Option String → List User → User × List User
unfolding get_or_create
get_or_create_user id claims none users =
    get_or_create id claims.sub claims.email claims.email users
get_or_create_user id claims (some full_name) users =
    get_or_create id claims.sub claims.email (or_else full_name claims.email) users

abbrev pub context_of : User → UserContext
context_of u = record {
  id = u.id;
  supabase_user_id = u.supabase_user_id;
  email = u.email;
  status = u.status;
}

abbrev pub is_suspended : UserStatus → Bool
is_suspended suspended = true
is_suspended s = false

-- The exception of a suspended account rolls the session back.
abbrev pub admit : List User → User × List User → Result UserContext × List User
admit users (u, changed) =
    if is_suspended u.status
    then (err (api_error forbidden 403), users)
    else (ok (context_of u), changed)

unfoldable pub get_current_user_context :
    ℕ → Result TokenClaims → List User → Result UserContext × List User
unfolding get_or_create
get_current_user_context id (err e) users = (err e, users)
get_current_user_context id (ok claims) users =
    admit users (get_or_create id claims.sub claims.email "" users)

-- With no credentials there is no context; nor after an ApiError, which ends the session as usual.
unfoldable pub get_optional_user_context :
    ℕ → Option (Result TokenClaims) → List User → Result (Option UserContext) × List User
unfolding get_or_create
get_optional_user_context id none users = (ok none, users)
get_optional_user_context id (some (err (api_error code status))) users = (ok none, users)
get_optional_user_context id (some (err e)) users = (err e, users)
get_optional_user_context id (some (ok claims)) users =
    let (u, changed) = get_or_create id claims.sub claims.email "" users in
    (ok (some (context_of u)), changed)
