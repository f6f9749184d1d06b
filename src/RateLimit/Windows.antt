-- ===== src/RateLimit/Windows.antt =====
-- How many requests of a client pass within a window.
use veyaan_core_backend.Prelude.{
  ℕ, true, false, ◌+◌, ◌≤◌, ◌<◌, leb, ==_refl, Option, none, some, List, [], ◌∷◌, ◌≡◌, refl, sym,
  ◌∙◌, ap, arith, subst, ◌-◌, ==→eq, str_eq_iff, if◌then◌else◌, find?, Bool-cases, inl, inr,
  str_eq_refl,
}
use veyaan_core_backend.RateLimit.{
  ClientId, user, ip, same_client, Increment, Counter, rate_limit_check,
}

-- The last increment of a key.
unfoldable pub last_of : ClientId → List Increment → Option Increment
last_of key log = find? (λ e. same_client e.key key) log

-- What Valkey promises of INCR and EXPIRE, when it evicts nothing: the first increment of a key, and
-- one at or after the end of its time to live, answers 1; one before answers the last answer and one.
pub record HonestCounter (counter : Counter) : Type 0 where
  pub fresh :
      (log : List Increment) (key : ClientId) (now : ℕ)
      → last_of key log ≡ none
      → counter log key now ≡ 1
  pub alive :
      (log : List Increment) (key : ClientId) (now : ℕ) (e : Increment)
      → last_of key log ≡ some e
      → now < e.at + e.window
      → counter log key now ≡ e.answer + 1
  pub expired :
      (log : List Increment) (key : ClientId) (now : ℕ) (e : Increment)
      → last_of key log ≡ some e
      → e.at + e.window ≤ now
      → counter log key now ≡ 1

-- A request as the check sees it: the client and the time.
abbrev pub Hit : Type 0
Hit = ClientId × ℕ

-- The checks of a run, all with one limit and one window: how many of a client were allowed.
unfoldable pub allowed_in : Counter → ClientId → ℕ → ℕ → List Hit → List Increment → ℕ
unfolding rate_limit_check
allowed_in counter client limit window [] log = 0
allowed_in counter client limit window ((key, now) ∷ hits) log =
    let (verdict, after) = rate_limit_check counter key now limit window log in
    let rest = allowed_in counter client limit window hits after in
    if same_client key client then (if verdict.allowed then rest + 1 else rest) else rest

-- The times of a run lie within a window that begins at `start`.
pub data Within (start window : ℕ) : List Hit → Type 0 where
  no_hit : Within start window []
  hit :
      (key : ClientId) (now : ℕ) (hits : List Hit)
      → start ≤ now
      → now < start + window
      → Within start window hits
      → Within start window ((key, now) ∷ hits)

same_client_refl : (key : ClientId) → same_client key key ≡ true
same_client_refl (user n) = ==_refl n
same_client_refl (ip s) = str_eq_refl s

over : (m n : ℕ) → n < m → leb m n ≡ false
over m n h = ground arith

found_first :
    (client : ClientId) (e : Increment) (log : List Increment)
    → same_client e.key client ≡ true
    → last_of client (e ∷ log) ≡ some e
unfolding last_of find?
found_first client e log same = rw same refl

same_client→eq : (a b : ClientId) → same_client a b ≡ true → a ≡ b
same_client→eq (user m) (user n) h = ap user (==→eq m n h)
same_client→eq (ip s) (ip t) h = ap ip ((str_eq_iff s t).0 h)
same_client→eq (user m) (ip t) h = ground arith
same_client→eq (ip s) (user n) h = ground arith

-- The hits of a client.
unfoldable pub hits_of : ClientId → List Hit → ℕ
hits_of client [] = 0
hits_of client ((key, now) ∷ hits) =
    let rest = hits_of client hits in if same_client key client then rest + 1 else rest

abbrev pub at_most : ℕ → ℕ → ℕ
at_most limit n = if leb n limit then n else limit

module _ (counter : Counter) (client : ClientId) (limit start window : ℕ)
    (honest : HonestCounter counter) where
  -- The counter of the client has `n`, within the window.
  data Seen (n : ℕ) (log : List Increment) : Type 0 where
    nothing : last_of client log ≡ none → n ≡ 0 → Seen n log
    counted :
        (e : Increment)
        → last_of client log ≡ some e
        → e.answer ≡ n
        → start ≤ e.at
        → e.window ≡ window
        → Seen n log

  counter-Seen :
      (n now : ℕ) (log : List Increment)
      → Seen n log
      → now < start + window
      → counter log client now ≡ n + 1
  counter-Seen n now log (nothing h z) inside = honest.fresh log client now h ∙ omega (arith, z)
  counter-Seen n now log (counted e h a from w) inside =
      honest.alive log client now e h (omega (arith, w, from, inside)) ∙ omega (arith, a)

  other-Seen :
      (n : ℕ) (e : Increment) (log : List Increment)
      → same_client e.key client ≡ false
      → Seen n log
      → Seen n (e ∷ log)
  unfolding last_of find?
  other-Seen n e log other (nothing h z) = nothing (rw other h) z
  other-Seen n e log other (counted f h a from w) = counted f (rw other h) a from w

  own-Seen :
      (n : ℕ) (e : Increment) (log : List Increment)
      → same_client e.key client ≡ true
      → e.answer ≡ n
      → start ≤ e.at
      → e.window ≡ window
      → Seen n (e ∷ log)
  unfolding last_of find?
  own-Seen n e log same a from w = counted e (found_first client e log same) a from w

  left :
      (n k : ℕ)
      → (if leb (n + 1) limit then at_most (limit - (n + 1)) k + 1 else at_most (limit - (n + 1)) k)
        ≡ at_most (limit - n) (k + 1)
  left n k = ground arith

  allowed_in-Seen :
      (n : ℕ) (hits : List Hit) (log : List Increment)
      → Within start window hits
      → Seen n log
      → allowed_in counter client limit window hits log ≡ at_most (limit - n) (hits_of client hits)
  unfolding allowed_in hits_of rate_limit_check
  allowed_in-Seen n [] log h seen = ground arith
  allowed_in-Seen n ((key, now) ∷ hits) log (hit _ _ _ from inside more) seen =
      let e : Increment = record {
        key = key;
        at = now;
        window = window;
        answer = counter log key now;
      } in
      elim (Bool-cases (same_client key client)) [
        | inl same ↦
            let count : counter log key now ≡ n + 1 =
              subst (λ k. counter log k now ≡ n + 1) (sym (same_client→eq key client same))
                (counter-Seen n now log seen inside) in
            let rest =
              allowed_in-Seen (n + 1) hits (e ∷ log) more
                (own-Seen (n + 1) e log same count from refl) in
            rw (same, rest, count) (left n (hits_of client hits))
        | inr other ↦
            rw other (allowed_in-Seen n hits (e ∷ log) more (other-Seen n e log other seen))
      ]

-- With an honest Valkey and no count of the client before, of any checks that fall within one window
-- exactly the first ones of the client are allowed, as many as the limit, whatever other clients do
-- between them.
pub allowed_in-Within :
    (counter : Counter) (client : ClientId) (limit start window : ℕ) (hits : List Hit)
    (log : List Increment)
    → HonestCounter counter
    → Within start window hits
    → last_of client log ≡ none
    → allowed_in counter client limit window hits log
      ≡ (if leb (hits_of client hits) limit then hits_of client hits else limit)
allowed_in-Within counter client limit start window hits log honest within none_yet =
    allowed_in-Seen counter client limit start window honest 0 hits log within
      (nothing none_yet refl)
    ∙ ground arith

-- The times of a run: each is less than a window after the one before it.
pub data Chained (window : ℕ) : ℕ → List ℕ → Type 0 where
  ended : (last : ℕ) → Chained window last []
  next :
      (last now : ℕ) (times : List ℕ)
      → now < last + window
      → Chained window now times
      → Chained window last (now ∷ times)

abbrev pub for_client : ClientId → List ℕ → List Hit
for_client client [] = []
for_client client (t ∷ times) = (client, t) ∷ for_client client times

-- A client that has reached the limit, and that sends again before each window has ended, is refused
-- each time, however long it goes on.
pub allowed_in-blocked :
    (counter : Counter) (client : ClientId) (limit window : ℕ) (times : List ℕ) (e : Increment)
    (log : List Increment)
    → HonestCounter counter
    → last_of client log ≡ some e
    → limit ≤ e.answer
    → e.window ≡ window
    → Chained window e.at times
    → allowed_in counter client limit window (for_client client times) log ≡ 0
unfolding allowed_in rate_limit_check
allowed_in-blocked counter client limit window [] e log honest seen full w chain = refl
allowed_in-blocked counter client limit window (t ∷ times) e log honest seen full w
      (next _ _ _ soon more) =
    let count = honest.alive log client t e seen (omega (arith, w, soon)) in
    let f : Increment = record {
      key = client;
      at = t;
      window = window;
      answer = counter log client t;
    } in
    let rest =
      allowed_in-blocked counter client limit window times f (f ∷ log) honest
        (found_first client f log (same_client_refl client)) (omega (arith, count, full)) refl
        more in
    let refused : leb (counter log client t) limit ≡ false =
      over (counter log client t) limit (omega (arith, count, full)) in
    rw (same_client_refl client, refused) rest
