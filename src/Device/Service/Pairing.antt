-- ===== src/Device/Service/Pairing.antt =====
-- How many codes can be tried on a pairing: DeviceService.confirm_pairing of
-- app/devices/service.py.
use veyaan_core_backend.Prelude.{
  ℕ, String, ◌+◌, ◌-◌, ◌≤◌, Bool, true, false, not, ◌==◌, ltb, Option, none, some, List, [], ◌∷◌,
  ◌≡◌, refl, sym, ◌∙◌, ap, ==_refl, ==→eq, if◌then◌else◌, if-any, find?, update, find?-fits, str_eq,
  length, arith, subst,
}
use veyaan_core_backend.Python.{
  Error, Result, ok, err, api_error, attribute_error, pairing_invalid, pairing_expired,
}
use veyaan_core_backend.Database.{Database, Environment, World, Call}
use veyaan_core_backend.Database.Session.{Tx, Session, raise, close, case_found, with_session}
use veyaan_core_backend.Device.Model.{PairingRequest, is_pending, expired, rejected, confirmed}
use veyaan_core_backend.EmergencyStop.Service.{create_audit_log, append_audit}
use veyaan_core_backend.Device.Service.{
  insert_device, new_device, new_credential, FreshDevice, Confirmation, max_pairing_attempts,
  find_pairing, write_pairing, confirm_pairing, pair, refuse, attempt, not_pending, on_pairing,
}

-- How many more codes will be compared.
abbrev pub left : Option PairingRequest → ℕ
left none = 0
left (some p) = if is_pending p.status then max_pairing_attempts - p.attempt_count else 0

abbrev pub left_of : ℕ → Database → ℕ
left_of i db = left (find_pairing i db)

abbrev pub is_ok {ℓ} : {A : Type ℓ} → Result A → Bool
is_ok (ok a) = true
is_ok (err e) = false

counted_less :
    (b : Bool) (n : ℕ)
    → (if b then max_pairing_attempts - (n + 1) else 0)
      ≤ (if b then max_pairing_attempts - n else 0) - 1
counted_less true n = omega arith
counted_less false n = omega arith

closed :
    (b : Bool) (n : ℕ)
    → not b ≡ true
    → (if b then max_pairing_attempts - n else 0) ≤ (if b then max_pairing_attempts - n else 0) - 1
closed b n h = ground arith

used_up :
    (b : Bool) (n : ℕ)
    → not b ≡ false
    → (if b then max_pairing_attempts - n else 0) ≡ 0
    → ltb max_pairing_attempts (n + 1) ≡ true
used_up b n h e = ground arith

left_bound : (b : Bool) (n : ℕ) → (if b then max_pairing_attempts - n else 0) ≤ max_pairing_attempts
left_bound b n = ground arith

-- A row that is found is found as it was overwritten.
find?-overwrite {ℓ} :
    {A : Type ℓ} (f : A → Bool) (q : A) (xs : List A) (a : A)
    → f q ≡ true
    → find? f xs ≡ some a
    → find? f (update f (λ _. q) xs) ≡ some q
unfolding find? update
find?-overwrite f q [] a k h = ground arith
find?-overwrite f q (x ∷ xs) a k h = ground (arith, find?-overwrite f q xs a k)

find?-overwrite_at :
    (i k : ℕ) (q : PairingRequest) (xs : List PairingRequest) (p : PairingRequest)
    → k ≡ i
    → q.id ≡ i
    → find? (λ r. r.id == i) xs ≡ some p
    → find? (λ r. r.id == i) (update (λ r. r.id == k) (λ _. q) xs) ≡ some q
find?-overwrite_at i k q xs p e same h =
    subst (λ n. find? (λ r. r.id == i) (update (λ r. r.id == n) (λ _. q) xs) ≡ some q) (sym e)
      (find?-overwrite (λ r. r.id == i) q xs p (ap (λ n. n == i) same ∙ ==_refl i) h)

find_pairing-write_pairing :
    (i : ℕ) (p q : PairingRequest) (db : Database)
    → find_pairing i db ≡ some p
    → q.id ≡ p.id
    → find_pairing i (write_pairing q db) ≡ some q
unfolding find_pairing write_pairing
find_pairing-write_pairing i p q db h e =
    let same : q.id ≡ i = e ∙ ==→eq p.id i (find?-fits (λ r. r.id == i) db.pairings p h) in
    find?-overwrite_at i q.id q db.pairings p same same h

module _ (i : ℕ) (db : Database) (p : PairingRequest) (found : find_pairing i db ≡ some p) where
  -- A session that has written nothing yet.
  abbrev opened : List Call → Session
  opened calls = record { working = db; committed = db; calls = calls }

  -- What a call leaves of the attempts.
  abbrev Spends : Tx Confirmation → Type 0
  Spends m =
      (calls : List Call)
      → left_of i (close (m (opened calls)).0 (m (opened calls)).1).1.database ≤ left (some p) - 1

  Spends-refuse :
      (q : PairingRequest) (e : Error)
      → q.id ≡ p.id
      → left (some q) ≤ left (some p) - 1
      → Spends (refuse q e)
  unfolding refuse
  Spends-refuse q e same less calls = rw (find_pairing-write_pairing i p q db found same) less

  Spends-pair :
      (env : Environment) (ids : FreshDevice) (owner_id : ℕ) (q : PairingRequest)
      → q.id ≡ p.id
      → Spends (pair env ids owner_id q)
  unfolding pair insert_device create_audit_log append_audit find_pairing write_pairing
  Spends-pair env ids owner_id q same calls =
      let c : PairingRequest = record q {
        status = confirmed;
        owner_id = some owner_id;
        confirmed_at = some env.now;
      } in
      rw
        (find_pairing-write_pairing i p c
          (insert_device (new_device ids owner_id q) (new_credential env ids) db) found same)
        (omega arith)

  Spends-raise : (e : Error) → not (is_pending p.status) ≡ true → Spends (raise e)
  Spends-raise e h calls = rw found (closed (is_pending p.status) p.attempt_count h)

  Spends-on_pairing :
      (env : Environment) (ids : FreshDevice) (owner_id : ℕ) (code : String)
      → Spends (on_pairing env ids owner_id code p)
  unfolding on_pairing attempt not_pending
  Spends-on_pairing env ids owner_id code =
      let counted : PairingRequest = record p { attempt_count = p.attempt_count + 1 } in
      if-any Spends (not (is_pending p.status)) _ _
        (λ h.
          if-any Spends env.loads_enum _ _ (λ _. Spends-raise (api_error pairing_invalid 400) h)
            (λ _. Spends-raise attribute_error h))
        (λ _.
          if-any Spends (ltb p.expires_at env.now) _ _
            (λ _.
              Spends-refuse (record p { status = expired }) (api_error pairing_expired 400) refl
                (omega arith))
            (λ _.
              if-any Spends (ltb max_pairing_attempts (p.attempt_count + 1)) _ _
                (λ _.
                  Spends-refuse (record counted { status = rejected })
                    (api_error pairing_invalid 429) refl (omega arith))
                (λ _.
                  if-any Spends (not (str_eq (env.sha256 code) p.pairing_code_hash)) _ _
                    (λ _.
                      Spends-refuse counted (api_error pairing_invalid 400) refl
                        (counted_less (is_pending p.status) p.attempt_count))
                    (λ _. Spends-pair env ids owner_id counted refl))))

  -- A call that fails and pairs no device.
  abbrev Refuses : Tx Confirmation → Type 0
  Refuses m =
      (calls : List Call)
      → (is_ok (close (m (opened calls)).0 (m (opened calls)).1).0 ≡ false)
        × ((close (m (opened calls)).0 (m (opened calls)).1).1.database.devices ≡ db.devices)
        × ((close (m (opened calls)).0 (m (opened calls)).1).1.database.credentials
            ≡ db.credentials)

  Refuses-refuse : (q : PairingRequest) (e : Error) → Refuses (refuse q e)
  unfolding refuse write_pairing
  Refuses-refuse q e calls = (refl, refl, refl)

  Refuses-raise : (e : Error) → Refuses (raise e)
  Refuses-raise e calls = (refl, refl, refl)

  Refuses-on_pairing :
      (env : Environment) (ids : FreshDevice) (owner_id : ℕ) (code : String)
      → left (some p) ≡ 0
      → Refuses (on_pairing env ids owner_id code p)
  unfolding on_pairing attempt not_pending
  Refuses-on_pairing env ids owner_id code none_left =
      let counted : PairingRequest = record p { attempt_count = p.attempt_count + 1 } in
      if-any Refuses (not (is_pending p.status)) _ _
        (λ _.
          if-any Refuses env.loads_enum _ _ (λ _. Refuses-raise (api_error pairing_invalid 400))
            (λ _. Refuses-raise attribute_error))
        (λ h.
          if-any Refuses (ltb p.expires_at env.now) _ _
            (λ _. Refuses-refuse (record p { status = expired }) (api_error pairing_expired 400))
            (λ _.
              if-any Refuses (ltb max_pairing_attempts (p.attempt_count + 1)) _ _
                (λ _.
                  Refuses-refuse (record counted { status = rejected })
                    (api_error pairing_invalid 429))
                (λ k. ground (arith, used_up (is_pending p.status) p.attempt_count h none_left))))

-- A call of `confirm_pairing` as the API makes it.
pub record Guess : Type 0 where
  pub environment : Environment
  pub ids : FreshDevice
  pub owner_id : ℕ
  pub code : String

abbrev pub guess : ℕ → Guess → World → Result Confirmation × World
guess i g = with_session (confirm_pairing g.environment g.ids i g.owner_id g.code)

module _ (i : ℕ) (g : Guess) (w : World) where
  abbrev on_found : Option PairingRequest → Result Confirmation × World
  on_found o =
      with_session
        (case_found o (raise (api_error pairing_invalid 404))
          (λ p. on_pairing g.environment g.ids g.owner_id g.code p))
        w

  on_found-left :
      (o : Option PairingRequest)
      → find_pairing i w.database ≡ o
      → left_of i (on_found o).1.database ≤ left o - 1
  on_found-left none h = rw h (omega arith)
  on_found-left (some p) h =
      Spends-on_pairing i w.database p h g.environment g.ids g.owner_id g.code w.calls

  guess-left : left_of i (guess i g w).1.database ≤ left_of i w.database - 1
  unfolding confirm_pairing
  guess-left = on_found-left (find_pairing i w.database) refl

  -- Nothing is paired.
  abbrev pub IsRefused : Result Confirmation × World → Type 0
  IsRefused r =
      (is_ok r.0 ≡ false)
      × (r.1.database.devices ≡ w.database.devices)
      × (r.1.database.credentials ≡ w.database.credentials)

  on_found-IsRefused :
      (o : Option PairingRequest)
      → find_pairing i w.database ≡ o
      → left o ≡ 0
      → IsRefused (on_found o)
  on_found-IsRefused none h e = (refl, refl, refl)
  on_found-IsRefused (some p) h e =
      Refuses-on_pairing i w.database p h g.environment g.ids g.owner_id g.code e w.calls

  guess-IsRefused : left_of i w.database ≡ 0 → IsRefused (guess i g w)
  unfolding confirm_pairing
  guess-IsRefused = on_found-IsRefused (find_pairing i w.database) refl

-- Calls one after another.
abbrev pub guesses : ℕ → List Guess → World → World
guesses i [] w = w
guesses i (g ∷ gs) w = guesses i gs (guess i g w).1

guesses-left :
    (i : ℕ) (gs : List Guess) (w : World)
    → left_of i (guesses i gs w).database ≤ left_of i w.database - length gs
guesses-left i [] w = omega arith
guesses-left i (g ∷ gs) w = omega (arith, guesses-left i gs (guess i g w).1, guess-left i g w)

left-bound : (o : Option PairingRequest) → left o ≤ max_pairing_attempts
left-bound none = omega arith
left-bound (some p) = left_bound (is_pending p.status) p.attempt_count

-- After five calls of `confirm_pairing` on one pairing, with any codes and at any times, every
-- further call on it fails and pairs no device.
pub guesses-IsRefused :
    (i : ℕ) (gs : List Guess) (g : Guess) (w : World)
    → max_pairing_attempts ≤ length gs
    → IsRefused i g (guesses i gs w) (guess i g (guesses i gs w))
guesses-IsRefused i gs g w h =
    guess-IsRefused i g (guesses i gs w)
      (omega (arith, guesses-left i gs w, left-bound (find_pairing i w.database)))
