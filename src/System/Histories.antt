-- ===== src/System/Histories.antt =====
-- What holds of every command, whatever sequence of operations the program runs.
use veyaan_core_backend.Prelude.{
  ℕ, ◌≤◌, true, false, ◌||◌, Option, none, some, ◌≡◌, refl, sym, arith, subst, any, select, find?,
  List, [], ◌∷◌,
}
use veyaan_core_backend.Database.{Environment, World}
use veyaan_core_backend.Command.Model.{
  CommandState, received, approved, queued, delivered, acknowledged, running, succeeded, same,
  Command,
}
use veyaan_core_backend.Command.StateMachine.{
  find_command, contains, terminal_states, allowed_transitions,
}
use veyaan_core_backend.Command.StateMachine.Moves.{accepts}
use veyaan_core_backend.Command.StateMachine.Writes.{SameRequest, trace}
use veyaan_core_backend.Command.Lifecycle.{
  Chain, Chain-append, state_of, visits, is_gated, IsGated, without_approval, Lifecycle, IsRecorded,
}
use veyaan_core_backend.Command.Lifecycle.Transition.{Lifecycle-refl, Lifecycle-trans}
use veyaan_core_backend.Command.History.{
  Reaches-terminal, rank, count_moves, Chain-rank, Chain-visits,
}
use veyaan_core_backend.Command.Service.Lifecycle.{create_command-Lifecycle}
use veyaan_core_backend.EmergencyStop.Service.Lifecycle.{
  Lifecycle-IsKept, activate-Lifecycle, release-Lifecycle,
}
use veyaan_core_backend.Database.Keeps.{with_session-relates}
use veyaan_core_backend.System.Kept.{IsPlain, perform-Kept, by_kind}
use veyaan_core_backend.System.{Operation, perform, DrawsFresh, Run, here, next, empty}

plain :
    (env : Environment) (w : World) (operation : Operation)
    → IsPlain operation
    → Lifecycle w.database (perform env operation w).database
plain env w =
    perform-Kept (Lifecycle-IsKept {d = w.database}) env w (λ v. Lifecycle w.database v.database)
      (λ A m km. with_session-relates Lifecycle m w (Lifecycle-refl w.database) km)

perform-Lifecycle :
    (env : Environment) (operation : Operation) (w : World)
    → DrawsFresh operation w.database
    → Lifecycle w.database (perform env operation w).database
perform-Lifecycle env operation w =
    by_kind (λ o. DrawsFresh o w.database → Lifecycle w.database (perform env o w).database)
      (λ o p h. plain env w o p) (λ ids r o h. create_command-Lifecycle env w ids r o h)
      (λ o r a e h. activate-Lifecycle env o r a e w) (λ o r e h. release-Lifecycle env o r e w)
      operation

-- After any sequence of operations that draw new ids, each command that was there is still there,
-- with the same request, in a state that accepted moves reach from its old one; the events of each
-- command are those it had, followed by a chain of accepted moves from its old state to its new
-- one; and a command that was in a state that needs no approval, or had an event that entered
-- APPROVED, or asks for none, still is so.
pub Run-Lifecycle : {w v : World} → Run w v → Lifecycle w.database v.database
Run-Lifecycle {w} here = Lifecycle-refl w.database
Run-Lifecycle {w} (next {v} run env operation h) =
    Lifecycle-trans w.database v.database (perform env operation v).database (Run-Lifecycle run)
      (perform-Lifecycle env operation v h)

-- A command that has reached a terminal state keeps it, whatever operations follow.
pub Run-terminal :
    {w v : World}
    → Run w v
    → (j : ℕ) (c : Command) → find_command j w.database ≡ some c
    → contains c.state terminal_states ≡ true
    → (d : Command) × (find_command j v.database ≡ some d) × (d.state ≡ c.state)
Run-terminal run j c h t =
    let (d, found, kept) = (Run-Lifecycle run).commands j c h in
    (d, found, Reaches-terminal t kept.reaches)

-- The columns of a command that are fixed when it is created are never written again.
pub Run-SameRequest :
    {w v : World}
    → Run w v
    → (j : ℕ) (c : Command) → find_command j w.database ≡ some c
    → (d : Command) × (find_command j v.database ≡ some d) × SameRequest c d
Run-SameRequest run j c h =
    let (d, found, kept) = (Run-Lifecycle run).commands j c h in (d, found, kept.same_request)

-- From empty tables, the events of each command are a chain of accepted moves that starts in
-- RECEIVED and ends in the state of the command.
pub Run-IsRecorded :
    {w v : World} → Run w v → w.database ≡ empty → (j : ℕ) → IsRecorded j v.database
unfolding find_command trace select find?
Run-IsRecorded {w} {v} run e j =
    let grown = (Run-Lifecycle run).extends j in
    let old : Chain none (trace j w.database) (state_of (find_command j w.database)) =
      subst (λ d. IsRecorded j d) (sym e) refl in
    rw grown.trace_eq (
      Chain-append none (state_of (find_command j w.database))
        (state_of (find_command j v.database)) (trace j w.database) grown.events old grown.chain)

rank-bound : (s : Option CommandState) → rank s ≤ 9
rank-bound s = ground arith

-- From empty tables, whatever the program does, the events of a command enter a new state at most
-- nine times, its creation included.
pub Run-count_moves :
    {w v : World} → Run w v → w.database ≡ empty → (j : ℕ) → count_moves (trace j v.database) ≤ 9
Run-count_moves {w} {v} run e j =
    let last = state_of (find_command j v.database) in
    omega
      (arith, Chain-rank none last (trace j v.database) (Run-IsRecorded run e j), rank-bound last)

-- The states that a command enters only after QUEUED, DELIVERED, ACKNOWLEDGED and RUNNING.
abbrev pub past : CommandState → List CommandState
past queued = queued ∷ delivered ∷ acknowledged ∷ running ∷ succeeded ∷ []
past delivered = delivered ∷ acknowledged ∷ running ∷ succeeded ∷ []
past acknowledged = acknowledged ∷ running ∷ succeeded ∷ []
past running = running ∷ succeeded ∷ []
past s = []

past-received :
    (gate : CommandState) → contains received (past gate) ≡ true → same received gate ≡ true
unfolding contains any
past-received gate h = ground arith

past-step :
    (gate a b : CommandState)
    → accepts a b ≡ true
    → contains b (past gate) ≡ true
    → (contains a (past gate) || same b gate) ≡ true
unfolding accepts contains allowed_transitions any
past-step queued a b h q = ground arith
past-step delivered a b h q = ground arith
past-step acknowledged a b h q = ground arith
past-step running a b h q = ground arith
past-step gate a b h q = ground arith

-- From empty tables, a command whose state is QUEUED or past it has an event that entered QUEUED,
-- and so for DELIVERED, ACKNOWLEDGED and RUNNING: a command that succeeded passed all four.
pub Run-visits :
    {w v : World}
    → Run w v
    → w.database ≡ empty
    → (gate : CommandState) (j : ℕ) (c : Command) → find_command j v.database ≡ some c
    → contains c.state (past gate) ≡ true
    → visits gate (trace j v.database) ≡ true
Run-visits {w} {v} run e gate j c h q =
    Chain-visits gate (λ s. contains s (past gate)) (past-received gate) (past-step gate) none
      (trace j v.database) c.state
      (subst (λ o. Chain none (trace j v.database) (state_of o)) h (Run-IsRecorded run e j)) q

-- From empty tables, whatever the program does, a command that needs an approval and is past it
-- (APPROVED, QUEUED, DELIVERED, ACKNOWLEDGED, RUNNING, SUCCEEDED, FAILED or TIMED_OUT, or in any
-- state but AWAITING_APPROVAL and the ends that need none) has an event that entered APPROVED.
pub Run-approved :
    {w v : World}
    → Run w v
    → w.database ≡ empty
    → (j : ℕ) (c : Command) → find_command j v.database ≡ some c
    → c.requires_approval ≡ true
    → contains c.state without_approval ≡ false
    → visits approved (trace j v.database) ≡ true
unfolding find_command trace select find?
Run-approved {w} {v} run e j c h needs past =
    let gated : is_gated (some c) (trace j v.database) ≡ true =
      subst (λ o. is_gated o (trace j v.database) ≡ true) h
        ((Run-Lifecycle run).gated j (subst (λ d. IsGated j d) (sym e) refl)) in
    rw (needs, past) at gated
