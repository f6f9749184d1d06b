-- ===== src/Command/StateMachine/Moves.antt =====
-- The outcome of `transition_command` on each branch, for the callers' proofs.
use veyaan_core_backend.Prelude.{
  ℕ, String, Bool, true, false, not, ◌&&◌, ◌||◌, Option, none, some, ◌≡◌, refl, ap, arith,
  if◌then◌else◌, any,
}
use veyaan_core_backend.Python.{Dict, Result, ok, err, state_transition}
use veyaan_core_backend.Database.{Environment}
use veyaan_core_backend.Database.Session.{Session, Tx, raise}
use veyaan_core_backend.Command.Model.{CommandState, same, Command}
use veyaan_core_backend.Command.StateMachine.{
  allowed_transitions, terminal_states, contains, write_state, find_command, record_transition,
  write_transition, transition_row, transition_command,
}

-- Whether the guards let a command go from one state to another: a listed move, or none at all.
unfoldable pub accepts : CommandState → CommandState → Bool
unfolding contains allowed_transitions
accepts a b = same a b || contains b (allowed_transitions a)

-- From a terminal state, the only move that is accepted is to stay in it.
pub terminal-stays :
    (a b : CommandState) → contains a terminal_states ≡ true → accepts a b ≡ same a b
unfolding accepts contains terminal_states any
terminal-stays a b h = ground arith

-- The two nested guards, over the three tests that they make.
module _ {ℓ} {A : Type ℓ} (refuse go : A) where
  abbrev guards : Bool → Bool → Bool → A
  guards terminal stay listed =
      if terminal && not stay
      then refuse
      else if not listed
      then (if not stay then refuse else go)
      else go

  guards-pass :
      (terminal stay listed : Bool)
      → (terminal ≡ true → (stay || listed) ≡ stay)
      → (stay || listed) ≡ true
      → guards terminal stay listed ≡ go
  guards-pass true true true t h = refl
  guards-pass true true false t h = refl
  guards-pass true false listed t h = cc (t refl)
  guards-pass false true true t h = refl
  guards-pass false true false t h = refl
  guards-pass false false true t h = refl
  guards-pass false false false t h = cc

  guards-refuse :
      (terminal stay listed : Bool)
      → (stay || listed) ≡ false
      → guards terminal stay listed ≡ refuse
  guards-refuse terminal true listed h = cc
  guards-refuse true false listed h = refl
  guards-refuse false false true h = cc
  guards-refuse false false false h = refl

module _ (env : Environment) (s : CommandState) (source : String) (metadata : Option Dict) where
  transition_row-accepted :
      (c : Command) (x : Session)
      → accepts c.state s ≡ true
      → transition_row env s source metadata c x ≡ write_transition env s source metadata c x
  unfolding transition_row accepts
  transition_row-accepted c x h =
      ap (λ (m : Tx (Option Command)). m x)
        (guards-pass (raise (state_transition c.id)) (write_transition env s source metadata c)
          (contains c.state terminal_states) (same c.state s)
          (contains s (allowed_transitions c.state)) (terminal-stays c.state s) h)

  transition_row-refused :
      (c : Command) (x : Session)
      → accepts c.state s ≡ false
      → transition_row env s source metadata c x ≡ (err (state_transition c.id), x)
  unfolding transition_row accepts
  transition_row-refused c x h =
      ap (λ (m : Tx (Option Command)). m x)
        (guards-refuse (raise (state_transition c.id)) (write_transition env s source metadata c)
          (contains c.state terminal_states) (same c.state s)
          (contains s (allowed_transitions c.state)) h)

  module _ (command_id : ℕ) (x : Session) where
    -- No such command: nothing happens.
    pub transition_command-missing :
        find_command command_id x.working ≡ none
        → transition_command env command_id s source metadata x ≡ (ok none, x)
    unfolding transition_command
    transition_command-missing h = rw h

    pub transition_command-accepted :
        (c : Command)
        → find_command command_id x.working ≡ some c
        → accepts c.state s ≡ true
        → transition_command env command_id s source metadata x ≡ (
          ok (some (write_state env.now s metadata c)),
          record x { working = record_transition env.now s source metadata c x.working },
        )
    unfolding transition_command write_transition
    transition_command-accepted c found h = rw found (transition_row-accepted c x h)

    pub transition_command-refused :
        (c : Command)
        → find_command command_id x.working ≡ some c
        → accepts c.state s ≡ false
        → transition_command env command_id s source metadata x ≡ (err (state_transition c.id), x)
    unfolding transition_command
    transition_command-refused c found h = rw found (transition_row-refused c x h)

    -- What a transition returns and leaves, by the row that it finds.
    abbrev pub outcome : Option Command → Result (Option Command) × Session
    outcome none = (ok none, x)
    outcome (some c) =
        if accepts c.state s
        then (
          ok (some (write_state env.now s metadata c)),
          record x { working = record_transition env.now s source metadata c x.working },
        )
        else (err (state_transition c.id), x)

    outcome-decided :
        (c : Command) (b : Bool)
        → find_command command_id x.working ≡ some c
        → accepts c.state s ≡ b
        → transition_command env command_id s source metadata x ≡ outcome (some c)
    outcome-decided c true found h = rw h (transition_command-accepted c found h)
    outcome-decided c false found h = rw h (transition_command-refused c found h)

    outcome-found :
        (o : Option Command)
        → find_command command_id x.working ≡ o
        → transition_command env command_id s source metadata x ≡ outcome o
    outcome-found none h = transition_command-missing h
    outcome-found (some c) h = outcome-decided c (accepts c.state s) h refl

    -- A transition returns nothing when there is no such command; when the state is the command's own
    -- or one that the table allows after it, it writes the row and the event to the session and
    -- returns the row; else it raises and leaves the session as it was.
    pub transition_command-eq :
        transition_command env command_id s source metadata x
        ≡ outcome (find_command command_id x.working)
    transition_command-eq = outcome-found (find_command command_id x.working) refl

    decided :
        (c : Command) (b : Bool)
        → find_command command_id x.working ≡ some c
        → accepts c.state s ≡ b
        → (transition_command env command_id s source metadata x).1.committed ≡ x.committed
    decided c true found h = rw (transition_command-accepted c found h)
    decided c false found h = rw (transition_command-refused c found h)

    found_or_not :
        (o : Option Command)
        → find_command command_id x.working ≡ o
        → (transition_command env command_id s source metadata x).1.committed ≡ x.committed
    found_or_not none h = rw (transition_command-missing h)
    found_or_not (some c) h = decided c (accepts c.state s) h refl

    -- A transition commits nothing.
    pub committed-transition_command :
        (transition_command env command_id s source metadata x).1.committed ≡ x.committed
    committed-transition_command = found_or_not (find_command command_id x.working) refl
