-- ===== src/RateLimit/Clients.antt =====
-- Under which name a client is counted.
use veyaan_core_backend.Prelude.{ℕ, String, false, Option, none, some, ◌≡◌, refl, any}
use veyaan_core_backend.RateLimit.{
  Settings, HttpRequest, host_or_unknown, is_trusted_proxy, by_user, get_client_id,
}

-- A request that no trusted proxy passes on is counted by its user, or by the address it comes from:
-- whatever it claims in X-Forwarded-For, it is the same client.
pub get_client_id-untrusted :
    (settings : Settings) (request : HttpRequest) (claim : Option String)
    → is_trusted_proxy settings (host_or_unknown request.client_host) ≡ false
    → get_client_id settings (record request { forwarded_for = claim })
      ≡ get_client_id settings request
unfolding get_client_id any
get_client_id-untrusted settings request claim h = named request.user_id
  where
    named :
        (o : Option ℕ)
        → by_user settings (record request { forwarded_for = claim }) o ≡ by_user settings request o
    named none = rw h refl
    named (some id) = refl
