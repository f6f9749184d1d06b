-- ===== src/EmergencyStop/Service/Blocking/Rows.antt =====
-- The blocking of a list of commands as a function of the tables.
use veyaan_core_backend.Prelude.{
  ◌||◌, ℕ, Bool, true, false, ◌&&◌, ◌==◌, List, [], ◌∷◌, map, Option, none, some, ◌≡◌, refl, ap,
  ◌∙◌, sym, subst, inl, inr, if◌then◌else◌, Bool-cases, ==→eq, ==_ne, &&-right, select, find?, any,
  arith,
}
use veyaan_core_backend.Database.{Database}
use veyaan_core_backend.Command.Model.{
  same, queued, approved, Command, CommandState, blocked_by_emergency_stop,
}
use veyaan_core_backend.Command.StateMachine.{find_command, record_transition, write_state}
use veyaan_core_backend.Command.StateMachine.Moves.{accepts}
use veyaan_core_backend.Command.StateMachine.Writes.{
  find_command-id, find_command-record_transition_self, find_command-record_transition_other,
}
use veyaan_core_backend.EmergencyStop.Service.{
  contains_id, device_ids_of, blockable_ids, is_blockable,
}

abbrev pub block_found : ℕ → Option Command → Database → Database
block_found now none db = db
block_found now (some c) db =
    if accepts c.state blocked_by_emergency_stop
    then record_transition now blocked_by_emergency_stop "emergency_stop_activation" none c db
    else db

unfoldable pub block_one : ℕ → ℕ → Database → Database
block_one now i db = block_found now (find_command i db) db

unfoldable pub block_all : ℕ → List ℕ → Database → Database
unfolding block_one
block_all now [] db = db
block_all now (i ∷ ids) db = block_all now ids (block_one now i db)

-- The primary key: a row is the one that its id finds.
abbrev All {ℓ κ} : {A : Type ℓ} → (A → Type κ) → List A → Type κ
All P [] = Unit
All P (x ∷ xs) = P x × All P xs

abbrev pub IsKeyed : Database → Type 0
IsKeyed db = All (λ r. find_command r.id db ≡ some r) db.commands

abbrev pub blocked : ℕ → Command → Command
blocked now c = record c { state = blocked_by_emergency_stop; updated_at = now }

module _ (now : ℕ) (j : ℕ) where
  -- Another command is left as it is.
  block_one-other :
      (i : ℕ) (db : Database)
      → (i == j) ≡ false
      → find_command j (block_one now i db) ≡ find_command j db
  unfolding block_one
  block_one-other i db ne = found_or_not (find_command i db) refl
    where
      found_or_not :
          (o : Option Command)
          → find_command i db ≡ o
          → find_command j (block_found now o db) ≡ find_command j db
      found_or_not none e = refl
      found_or_not (some c) e = elim (Bool-cases (accepts c.state blocked_by_emergency_stop)) [
        | inl h ↦ rw h (
            find_command-record_transition_other now blocked_by_emergency_stop
              "emergency_stop_activation" none c db j
              (ap (λ k. k == j) (find_command-id i db c e) ∙ ne))
        | inr h ↦ rw h
      ]

  block_one_self :
      (c : Command) (db : Database)
      → find_command j db ≡ some c
      → accepts c.state blocked_by_emergency_stop ≡ true
      → find_command j (block_one now j db) ≡ some (blocked now c)
  unfolding block_one write_state
  block_one_self c db found h =
      rw (found, h)
        (subst
          (λ k.
            find_command k (
              record_transition now blocked_by_emergency_stop "emergency_stop_activation" none c db)
            ≡ some (blocked now c))
          (find_command-id j db c found)
          (find_command-record_transition_self now blocked_by_emergency_stop
            "emergency_stop_activation" none c db
            (subst (λ k. find_command k db ≡ some c) (sym (find_command-id j db c found)) found)))

  block_all-unlisted :
      (ids : List ℕ) (db : Database)
      → contains_id j ids ≡ false
      → find_command j (block_all now ids db) ≡ find_command j db
  unfolding block_all contains_id any
  block_all-unlisted [] db h = refl
  block_all-unlisted (i ∷ ids) db h =
      block_all-unlisted ids (block_one now i db) (ground arith)
      ∙ block_one-other i db (ground arith)

  block_all-blocked :
      (ids : List ℕ) (c : Command) (db : Database)
      → find_command j db ≡ some (blocked now c)
      → find_command j (block_all now ids db) ≡ some (blocked now c)
  unfolding block_all accepts
  block_all-blocked [] c db h = h
  block_all-blocked (i ∷ ids) c db h =
      block_all-blocked ids c (block_one now i db) (elim (Bool-cases (i == j)) [
        | inl e ↦
            subst (λ k. find_command j (block_one now k db) ≡ some (blocked now c))
              (sym (==→eq i j e)) (block_one_self (blocked now c) db h refl)
        | inr ne ↦ block_one-other i db ne ∙ h
      ])

  block_all-listed :
      (ids : List ℕ) (c : Command) (db : Database)
      → find_command j db ≡ some c
      → accepts c.state blocked_by_emergency_stop ≡ true
      → contains_id j ids ≡ true
      → find_command j (block_all now ids db) ≡ some (blocked now c)
  unfolding block_all contains_id any
  block_all-listed [] c db found h listed = cc
  block_all-listed (i ∷ ids) c db found h listed = elim (Bool-cases (i == j)) [
    | inl e ↦ block_all-blocked ids c (block_one now i db) (
        subst (λ k. find_command j (block_one now k db) ≡ some (blocked now c)) (sym (==→eq i j e))
          (block_one_self c db found h))
    | inr ne ↦
        block_all-listed ids c (block_one now i db) (block_one-other i db ne ∙ found) h
          (ground arith)
  ]

-- An activation of `owner_id` halts a command of one of the owner's devices that is queued or approved.
abbrev pub is_halted : ℕ → Database → Command → Bool
is_halted owner_id db c =
    contains_id c.device_id (device_ids_of owner_id db)
    && (same c.state queued || same c.state approved)

abbrev pub halted_ids : ℕ → Database → List ℕ
halted_ids owner_id db = blockable_ids (device_ids_of owner_id db) db

blockable-accepts :
    (s : CommandState) → is_blockable s ≡ true → accepts s blocked_by_emergency_stop ≡ true
unfolding accepts
blockable-accepts s h = ground arith

ids_where : (Command → Bool) → List Command → List ℕ
ids_where q rows = map (λ c. c.id) (select q rows)

listed_of_found :
    (q : Command → Bool) (j : ℕ) (c : Command) (rows : List Command)
    → find? (λ r. r.id == j) rows ≡ some c
    → q c ≡ true
    → contains_id j (ids_where q rows) ≡ true
unfolding ids_where select find? contains_id any
listed_of_found q j c [] found h = cc
listed_of_found q j c (r ∷ rows) found h = ground (arith, listed_of_found q j c rows)

unlisted_of_found :
    (q : Command → Bool) (j : ℕ) (c : Command) (db : Database) (rows : List Command)
    → All (λ r. find_command r.id db ≡ some r) rows
    → find_command j db ≡ some c
    → q c ≡ false
    → contains_id j (ids_where q rows) ≡ false
unfolding ids_where select contains_id any
unlisted_of_found q j c db [] keyed found h = refl
unlisted_of_found q j c db (r ∷ rows) keyed found h = elim (Bool-cases (q r)) [
  | inl listed ↦ rw listed (
      rw
        (==_ne r.id j (λ e.
          let same_row : c ≡ r = cc (found, subst (λ k. find_command k db ≡ some r) e keyed.0) in
          cc (ap q same_row, h, listed)))
        (unlisted_of_found q j c db rows keyed.1 found h))
  | inr other ↦ rw other (unlisted_of_found q j c db rows keyed.1 found h)
]

-- A row is listed exactly if it is halted.
listed_halted :
    (owner_id : ℕ) (db : Database) (j : ℕ) (c : Command)
    → IsKeyed db
    → find_command j db ≡ some c
    → contains_id j (halted_ids owner_id db) ≡ is_halted owner_id db c
unfolding blockable_ids ids_where find_command
listed_halted owner_id db j c keyed found = elim (Bool-cases (is_halted owner_id db c)) [
  | inl h ↦ rw h (listed_of_found (is_halted owner_id db) j c db.commands found h)
  | inr h ↦ rw h (unlisted_of_found (is_halted owner_id db) j c db db.commands keyed found h)
]

pub find_command-block_all :
    (now owner_id : ℕ) (db : Database) (j : ℕ) (c : Command)
    → IsKeyed db
    → find_command j db ≡ some c
    → find_command j (block_all now (halted_ids owner_id db) db)
      ≡ some (if is_halted owner_id db c then blocked now c else c)
find_command-block_all now owner_id db j c keyed found =
    elim (Bool-cases (is_halted owner_id db c)) [
      | inl h ↦ rw h (
          block_all-listed now j (halted_ids owner_id db) c db found
            (blockable-accepts c.state (
              &&-right (contains_id c.device_id (device_ids_of owner_id db)) (is_blockable c.state)
                h))
            (listed_halted owner_id db j c keyed found ∙ h))
      | inr h ↦ rw h (
          block_all-unlisted now j (halted_ids owner_id db) db
            (listed_halted owner_id db j c keyed found ∙ h)
          ∙ found)
    ]
