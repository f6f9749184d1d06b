-- ===== src/Command/History.antt =====
-- What the recorded events of a command say of its past.
use veyaan_core_backend.Prelude.{
  ℕ, ◌+◌, ◌≤◌, Bool, true, false, ◌||◌, Option, none, some, List, [], ◌∷◌, ◌≡◌, refl, sym, ◌∙◌,
  if◌then◌else◌, any, arith,
}
use veyaan_core_backend.Command.Model.{
  CommandState, received, validated, awaiting_approval, approved, queued, delivered, acknowledged,
  running, same, CommandStateEvent,
}
use veyaan_core_backend.Command.StateMachine.{contains, terminal_states, allowed_transitions}
use veyaan_core_backend.Command.StateMachine.Moves.{accepts, terminal-stays}
use veyaan_core_backend.Command.Lifecycle.{Reaches, here, move, Permitted, Chain, visits}

pub same→eq : (a b : CommandState) → same a b ≡ true → a ≡ b
same→eq a b h = ground arith

-- No accepted path leaves a terminal state.
pub Reaches-terminal :
    {a b : CommandState} → contains a terminal_states ≡ true → Reaches a b → b ≡ a
Reaches-terminal h here = refl
Reaches-terminal {a} h (move {b} r c e) =
    let before : b ≡ a = Reaches-terminal h r in
    let stays = terminal-stays b c (rw before h) in sym (same→eq b c (sym stays ∙ e)) ∙ before

-- How far along its life a state is.
abbrev pub rank : Option CommandState → ℕ
rank none = 0
rank (some received) = 1
rank (some validated) = 2
rank (some awaiting_approval) = 3
rank (some approved) = 4
rank (some queued) = 5
rank (some delivered) = 6
rank (some acknowledged) = 7
rank (some running) = 8
rank (some s) = 9

-- The events that enter a new state; a repeated state is no move.
abbrev pub is_move : Option CommandState → CommandState → Bool
is_move none b = true
is_move (some a) b = if same a b then false else true

abbrev pub count_moves : List CommandStateEvent → ℕ
count_moves [] = 0
count_moves (e ∷ es) = (if is_move e.previous_state e.new_state then 1 else 0) + count_moves es

accepts-rank :
    (a b : CommandState)
    → accepts a b ≡ true
    → (if same a b then 0 else 1) + rank (some a) ≤ rank (some b)
unfolding accepts contains allowed_transitions any
accepts-rank a b h = ground arith

if_not :
    (b : Bool) → ◌≡◌ {A = ℕ} (if (if b then false else true) then 1 else 0) (if b then 0 else 1)
if_not b = ground arith

Permitted-rank :
    (a : Option CommandState) (b : CommandState)
    → Permitted a b
    → (if is_move a b then 1 else 0) + rank a ≤ rank (some b)
Permitted-rank none b h = rw h (omega arith)
Permitted-rank (some a) b h = rw if_not (accepts-rank a b h)

pub Chain-rank :
    (a b : Option CommandState) (es : List CommandStateEvent)
    → Chain a es b
    → count_moves es + rank a ≤ rank b
Chain-rank a b [] h = rw h (omega arith)
Chain-rank a b (e ∷ es) h =
    let first : (if is_move e.previous_state e.new_state then 1 else 0) + rank a
        ≤ rank (some e.new_state) =
      rw h.0 (Permitted-rank a e.new_state h.1) in
    omega (arith, first, Chain-rank (some e.new_state) b es h.2)

abbrev holds : (CommandState → Bool) → Option CommandState → Bool
holds p none = false
holds p (some s) = p s

either_step :
    (u v x y : Bool) → (x ≡ true → (u || y) ≡ true) → (x || v) ≡ true → (u || (y || v)) ≡ true
either_step u v x y f h = ground arith

-- A set of states that a command enters only through one of them, the gate.
module _ (gate : CommandState) (p : CommandState → Bool)
    (start : p received ≡ true → same received gate ≡ true)
    (step : (a b : CommandState)
      → accepts a b ≡ true
      → p b ≡ true
      → (p a || same b gate) ≡ true) where
  Permitted-gate :
      (a : Option CommandState) (b : CommandState)
      → Permitted a b
      → p b ≡ true
      → (holds p a || same b gate) ≡ true
  Permitted-gate none b h q = rw h (start (rw h at q))
  Permitted-gate (some a) b h q = step a b h q

  pub Chain-visits :
      (a : Option CommandState) (es : List CommandStateEvent) (b : CommandState)
      → Chain a es (some b)
      → p b ≡ true
      → (holds p a || visits gate es) ≡ true
  unfolding any
  Chain-visits a [] b h q = rw (h, q)
  Chain-visits a (e ∷ es) b h q =
      either_step (holds p a) (visits gate es) (p e.new_state) (same e.new_state gate)
        (Permitted-gate a e.new_state h.1) (Chain-visits (some e.new_state) es b h.2 q)
