-- ===== src/Gateway/Authentication/Challenge.antt =====
-- A challenge can be answered once.
use veyaan_core_backend.Prelude.{
  ℕ, String, Bool, true, false, List, [], ◌∷◌, ◌++◌, ◌≡◌, refl, ◌∙◌, ap, arith, if◌then◌else◌,
  str_eq, str_eq_refl,
}
use veyaan_core_backend.Python.{Json}
use veyaan_core_backend.Gateway.Connections.{
  Request, set_challenge, getdel_challenge, Outside, Gateway,
}
use veyaan_core_backend.Gateway.Authentication.{consume_challenge, verify_device_challenge_response}

-- Whether a nonce was set and not deleted since.
abbrev held_after : String → Bool → Request → Bool
held_after n before (set_challenge m) = if str_eq m n then true else before
held_after n before (getdel_challenge m) = if str_eq m n then false else before
held_after n before r = before

pub held_from : String → Bool → List Request → Bool
held_from n before [] = before
held_from n before (r ∷ log) = held_from n (held_after n before r) log

-- What Valkey promises of GETDEL: a key that is there was set, and not deleted since.
pub record HonestChallenges (out : Outside) : Type 0 where
  pub was_set :
      (log : List Request) (n : String)
      → out.holds_challenge log n ≡ true
      → held_from n false log ≡ true

held_from-append :
    (n : String) (before : Bool) (log rest : List Request)
    → held_from n before (log ++ rest) ≡ held_from n (held_from n before log) rest
unfolding held_from
held_from-append n before [] rest = refl
held_from-append n before (r ∷ log) rest = held_from-append n (held_after n before r) log rest

-- Requests that do not generate this nonce.
pub data NotSet (n : String) : List Request → Type 0 where
  no_more : NotSet n []
  skip :
      (r : Request) (log : List Request)
      → held_after n false r ≡ false
      → NotSet n log
      → NotSet n (r ∷ log)

stays_gone : (n : String) (rest : List Request) → NotSet n rest → held_from n false rest ≡ false
unfolding held_from
stays_gone n [] h = refl
stays_gone n (r ∷ rest) (skip _ _ gone more) = rw gone (stays_gone n rest more)

gone_after :
    (n : String) (log rest : List Request)
    → NotSet n rest
    → held_from n false ((log ++ getdel_challenge n ∷ []) ++ rest) ≡ false
unfolding held_from
gone_after n log rest h =
    held_from-append n false (log ++ getdel_challenge n ∷ []) rest
    ∙ ap (λ b. held_from n b rest)
        (held_from-append n false log (getdel_challenge n ∷ []) ∙ deleted (held_from n false log))
    ∙ stays_gone n rest h
  where
    deleted : (b : Bool) → held_from n b (getdel_challenge n ∷ []) ≡ false
    deleted b = rw (str_eq_refl n) refl

not-true : (b : Bool) → (b ≡ true → ⊥) → b ≡ false
not-true b h = ground arith

-- With an honest Valkey, once a nonce was consumed, and unless it is generated again, no answer to it
-- is accepted, on any connection, by any device and whatever the signature.
pub verify-consumed :
    (out : Outside) (g after : Gateway) (nonce : String) (rest : List Request)
    → HonestChallenges out
    → after.log ≡ (consume_challenge out nonce g).1.log ++ rest
    → NotSet nonce rest
    → (d c : ℕ) (sent_at signature : Json) (key : String) (protocol app : Json)
    → (verify_device_challenge_response out d c nonce sent_at signature key protocol app after).0
      ≡ false
unfolding verify_device_challenge_response consume_challenge
verify-consumed out g after nonce rest honest later unset d c sent_at signature key protocol app =
    let gone : out.holds_challenge after.log nonce ≡ false =
      not-true (out.holds_challenge after.log nonce) (λ h.
        let set = honest.was_set after.log nonce h in
        let unheld = ap (held_from nonce false) later ∙ gone_after nonce g.log rest unset in
        ground (arith, set, unheld)) in
    rw gone refl
