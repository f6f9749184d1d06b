-- ===== src/Examples/Interface.antt =====
-- The theorems on the rate limiter and on the pages of commands at concrete requests.
use mathlib.Core.List.{Memᴰ}
use veyaan_core_backend.Prelude.{
  ℕ, ltb, ◌+◌, ◌<◌, ◌≤◌, Option, none, some, List, [], ◌∷◌, ◌≡◌, refl, arith, if◌then◌else◌, find?,
  length,
}
use veyaan_core_backend.Command.Queries.{Filter, list_page}
use veyaan_core_backend.Command.Queries.Owned.{Shown, list_page-Shown}
use veyaan_core_backend.Command.Model.{Command}
use veyaan_core_backend.RateLimit.{ClientId, ip, Increment, Counter}
use veyaan_core_backend.RateLimit.Windows.{
  last_of, HonestCounter, Hit, allowed_in, Within, no_hit, hit, hits_of, allowed_in-Within, ended,
  next, allowed_in-blocked, for_client,
}
use veyaan_core_backend.Examples.{office}

-- A counter that does what Valkey promises.
abbrev answer_after : Option Increment → ℕ → ℕ
answer_after none now = 1
answer_after (some e) now = if ltb now (e.at + e.window) then e.answer + 1 else 1

abbrev counting : Counter
counting log key now = answer_after (last_of key log) now

inside : (a b n m : ℕ) → a < b → (if ltb a b then n else m) ≡ n
inside a b n m h = ground arith

outside : (a b n m : ℕ) → b ≤ a → (if ltb a b then n else m) ≡ m
outside a b n m h = ground arith

counting-Honest : HonestCounter counting
counting-Honest = record {
  fresh = λ log key now h. rw h refl;
  alive = λ log key now e h soon. rw h (inside now (e.at + e.window) (e.answer + 1) 1 soon);
  expired = λ log key now e h late. rw h (outside now (e.at + e.window) (e.answer + 1) 1 late);
}

abbrev visitor : ClientId
visitor = ip "192.0.2.1"

-- Three requests of the visitor and one of another client, within a minute.
abbrev hits : List Hit
hits = (visitor, 100) ∷ (visitor, 101) ∷ (ip "192.0.2.2", 102) ∷ (visitor, 159) ∷ []

hits-Within : Within 100 60 hits
hits-Within =
    hit visitor 100 ((visitor, 101) ∷ (ip "192.0.2.2", 102) ∷ (visitor, 159) ∷ []) (omega arith)
      (omega arith)
      (hit visitor 101 ((ip "192.0.2.2", 102) ∷ (visitor, 159) ∷ []) (omega arith) (omega arith) (
        hit (ip "192.0.2.2") 102 ((visitor, 159) ∷ []) (omega arith) (omega arith)
          (hit visitor 159 [] (omega arith) (omega arith) no_hit)))

allowed_in-Within_example : allowed_in counting visitor 2 60 hits [] ≡ 2
unfolding last_of find? hits_of
allowed_in-Within_example =
    allowed_in-Within counting visitor 2 100 60 hits [] counting-Honest hits-Within refl

-- The visitor has reached a limit of two.
abbrev second : Increment
second = record { key = visitor; at = 101; window = 60; answer = 2 }

allowed_in-blocked_example :
    allowed_in counting visitor 2 60 (for_client visitor (160 ∷ 219 ∷ [])) (second ∷ []) ≡ 0
unfolding last_of find?
allowed_in-blocked_example =
    allowed_in-blocked counting visitor 2 60 (160 ∷ 219 ∷ []) second (second ∷ []) counting-Honest
      refl (omega arith) refl
      (next 101 160 (219 ∷ []) (omega arith) (next 160 219 [] (omega arith) (ended 219)))

abbrev any_command : Filter
any_command = record {
  owner_id = some 1;
  device_id = none;
  state = none;
  risk_level = none;
  command_type = some "system.ping";
  start_date = none;
  end_date = some 9;
}

list_page-Shown_example :
    (length (list_page (λ xs. xs) any_command 1 20 office.database).items ≤ 20)
    × ((c : Command)
        → Memᴰ c (list_page (λ xs. xs) any_command 1 20 office.database).items
        → Shown 1 any_command office.database c)
list_page-Shown_example =
    list_page-Shown (λ xs. xs) 1 any_command 1 20 office.database (λ xs c m. m)
