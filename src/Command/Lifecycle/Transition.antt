-- ===== src/Command/Lifecycle/Transition.antt =====
-- `transition_command` and whatever leaves the commands alone keep the lifecycle.
use veyaan_core_backend.Prelude.{
  ℕ, String, Bool, true, false, not, ◌||◌, ◌==◌, Option, none, some, List, [], ◌∷◌, ◌++◌, any,
  arith, append-nil, append_assoc, ◌≡◌, refl, sym, ap, ◌∙◌, subst, find?, select, inl, inr,
  Bool-cases, ==→eq,
}
use veyaan_core_backend.Python.{Dict}
use veyaan_core_backend.Database.{Database, Environment}
use veyaan_core_backend.Database.Session.{Session, modify}
use veyaan_core_backend.Database.Keeps.{
  Keeps, Within, Keeps-modify, Keeps-commit, Keeps-call, Keeps-gets_calls, keeps_rules,
}
use veyaan_core_backend.Command.Model.{CommandState, approved, same, Command, CommandStateEvent}
use veyaan_core_backend.Command.StateMachine.{
  write_state, contains, allowed_transitions, find_command, record_transition, transition_command,
}
use veyaan_core_backend.Command.StateMachine.Moves.{
  accepts, transition_command-missing, transition_command-accepted, transition_command-refused,
  committed-transition_command,
}
use veyaan_core_backend.Command.StateMachine.Writes.{
  SameRequest-refl, SameRequest-trans, write_state-SameRequest, state-write_state, find_command-id,
  trace, find_command-record_transition_self, find_command-record_transition_other, event,
  trace-record_transition_self, trace-record_transition_other,
}
use veyaan_core_backend.Command.Lifecycle.{
  Reaches, here, move, Reaches-trans, Chain-append, state_of, visits, without_approval, is_gated,
  IsGated, Extends, Continues, Lifecycle,
}

pub Continues-refl : (c : Command) → Continues c c
Continues-refl c = record { same_request = SameRequest-refl c; reaches = here }

pub Continues-trans : {a b c : Command} → Continues a b → Continues b c → Continues a c
Continues-trans p q = record {
  same_request = SameRequest-trans p.same_request q.same_request;
  reaches = Reaches-trans p.reaches q.reaches;
}

pub Extends-same :
    (j : ℕ) (a b : Database)
    → find_command j b ≡ find_command j a
    → trace j b ≡ trace j a
    → Extends j a b
Extends-same j a b hf ht = record {
  events = [];
  trace_eq = ht ∙ sym (append-nil (trace j a));
  chain = ap state_of (sym hf);
}

pub Extends-trans : (j : ℕ) (a b c : Database) → Extends j a b → Extends j b c → Extends j a c
Extends-trans j a b c p q = record {
  events = p.events ++ q.events;
  trace_eq =
      q.trace_eq ∙ ap (λ t. t ++ q.events) p.trace_eq ∙ append_assoc (trace j a) p.events q.events;
  chain =
      Chain-append (state_of (find_command j a)) (state_of (find_command j b))
        (state_of (find_command j c)) p.events q.events p.chain q.chain;
}

pub Lifecycle-refl : (a : Database) → Lifecycle a a
Lifecycle-refl a = record {
  commands = λ j c h. (c, h, Continues-refl c);
  extends = λ j. Extends-same j a a refl refl;
  gated = λ j h. h;
}

pub Lifecycle-trans : (a b c : Database) → Lifecycle a b → Lifecycle b c → Lifecycle a c
Lifecycle-trans a b c p q = record {
  commands = λ j x h.
      let (y, hy, py) = p.commands j x h in
      let (z, hz, pz) = q.commands j y hy in (z, hz, Continues-trans py pz);
  extends = λ j. Extends-trans j a b c (p.extends j) (q.extends j);
  gated = λ j h. q.gated j (p.gated j h);
}

module _ (a b : Database) where
  find_command-other_tables :
      b.commands ≡ a.commands → (j : ℕ) → find_command j b ≡ find_command j a
  unfolding find_command
  find_command-other_tables h j = ap (λ t. find? (λ c. c.id == j) t) h

  trace-other_tables : b.state_events ≡ a.state_events → (j : ℕ) → trace j b ≡ trace j a
  unfolding trace
  trace-other_tables h j = ap (λ t. select (λ e. e.command_id == j) t) h

  -- Writing other tables leaves every command where it was.
  pub Lifecycle-other_tables :
      b.commands ≡ a.commands → b.state_events ≡ a.state_events → Lifecycle a b
  Lifecycle-other_tables hc he = record {
    commands = λ j c h. (c, find_command-other_tables hc j ∙ h, Continues-refl c);
    extends = λ j. Extends-same j a b (find_command-other_tables hc j) (trace-other_tables he j);
    gated = λ j h. rw (find_command-other_tables hc j, trace-other_tables he j) h;
  }

visits-append :
    (es : List CommandStateEvent) (e : CommandStateEvent)
    → visits approved (es ++ e ∷ []) ≡ (visits approved es || same e.new_state approved)
unfolding any
visits-append [] e = ground arith
visits-append (d ∷ es) e = ground (arith, visits-append es e)

-- A move out of the states without an approval enters APPROVED.
gate_step :
    (needed : Bool) (a s : CommandState) (visited : Bool)
    → accepts a s ≡ true
    → (not needed || (contains a without_approval || visited)) ≡ true
    → (not needed || (contains s without_approval || (visited || same s approved))) ≡ true
unfolding accepts contains allowed_transitions any
gate_step false a s visited h g = refl
gate_step true a s true h g = ground arith
gate_step true a s false h g = ground arith

module _ (now : ℕ) (s : CommandState) (source : String) (metadata : Option Dict) (c : Command)
    (db : Database) (found : find_command c.id db ≡ some c)
    (accepted : accepts c.state s ≡ true) where
  abbrev after : Database
  after = record_transition now s source metadata c db

  abbrev AfterFor : ℕ → Type 0
  AfterFor j =
      ((x : Command)
        → find_command j db ≡ some x
        → (d : Command) × (find_command j after ≡ some d) × Continues x d)
      × Extends j db after
      × (IsGated j db → IsGated j after)

  Continues-write_state : Continues c (write_state now s metadata c)
  Continues-write_state = record {
    same_request = write_state-SameRequest now s metadata c;
    reaches =
        subst (λ t. Reaches c.state t) (sym (state-write_state now s metadata c))
          (move here s accepted);
  }

  is_gated-step :
      (es : List CommandStateEvent)
      → is_gated (some c) es ≡ true
      → is_gated (some (write_state now s metadata c)) (es ++ event now s source metadata c db ∷ [])
        ≡ true
  is_gated-step es h =
      rw
        (
          (write_state-SameRequest now s metadata c).requires_approval,
          state-write_state now s metadata c,
          visits-append es (event now s source metadata c db),
        )
        (gate_step c.requires_approval c.state s (visits approved es) accepted h)

  AfterFor-self : AfterFor c.id
  AfterFor-self = (
    λ x h. (
      write_state now s metadata c,
      find_command-record_transition_self now s source metadata c db found,
      subst (λ y. Continues y (write_state now s metadata c)) (let e : c ≡ x = cc (found, h) in e)
          Continues-write_state,
    ),
    record {
      events = event now s source metadata c db ∷ [];
      trace_eq = trace-record_transition_self now s source metadata c db;
      chain =
          rw (find_command-record_transition_self now s source metadata c db found)
            (rw found (refl, accepted, ap some (sym (state-write_state now s metadata c))));
    },
    λ h.
        rw
          (
            find_command-record_transition_self now s source metadata c db found,
            trace-record_transition_self now s source metadata c db,
          )
          (is_gated-step (trace c.id db) (subst (λ o. is_gated o (trace c.id db) ≡ true) found h)),
  )

  AfterFor-other : (j : ℕ) → (c.id == j) ≡ false → AfterFor j
  AfterFor-other j ne =
      let same = find_command-record_transition_other now s source metadata c db j ne in
      (
        λ x h. (x, same ∙ h, Continues-refl x),
        Extends-same j db after same
            (trace-record_transition_other now s source metadata c db j ne),
        λ h. rw (trace-record_transition_other now s source metadata c db j ne, same) h,
      )

  AfterFor-any : (j : ℕ) → AfterFor j
  AfterFor-any j = elim (Bool-cases (c.id == j)) [
    | inl same ↦ subst AfterFor (==→eq c.id j same) AfterFor-self
    | inr ne ↦ AfterFor-other j ne
  ]

  -- A move that the state machine accepts keeps the lifecycle of every command.
  pub record_transition-Lifecycle : Lifecycle db after
  record_transition-Lifecycle = record {
    commands = λ j. (AfterFor-any j).0;
    extends = λ j. (AfterFor-any j).1;
    gated = λ j. (AfterFor-any j).2;
  }

-- Whatever the command and the state that is asked for.
pub transition_command-Lifecycle :
    (env : Environment) (command_id : ℕ) (s : CommandState) (source : String)
    (metadata : Option Dict) (x : Session)
    → Lifecycle x.working (transition_command env command_id s source metadata x).1.working
transition_command-Lifecycle env command_id s source metadata x =
    go (find_command command_id x.working) refl
  where
    after_call : Type 0
    after_call =
        Lifecycle x.working (transition_command env command_id s source metadata x).1.working

    decided :
        (c : Command)
        → find_command command_id x.working ≡ some c
        → (b : Bool) → accepts c.state s ≡ b
        → after_call
    decided c found true h =
        rw (transition_command-accepted env s source metadata command_id x c found h) (
          record_transition-Lifecycle env.now s source metadata c x.working
            (subst (λ j. find_command j x.working ≡ some c)
              (sym (find_command-id command_id x.working c found)) found)
            h)
    decided c found false h =
        rw (transition_command-refused env s source metadata command_id x c found h)
          (Lifecycle-refl x.working)

    go : (o : Option Command) → find_command command_id x.working ≡ o → after_call
    go none h =
        rw (transition_command-missing env s source metadata command_id x h)
          (Lifecycle-refl x.working)
    go (some c) h = decided c h (accepts c.state s) refl

module _ {d : Database} where
  pub Keeps-transition_command :
      (env : Environment) (command_id : ℕ) (s : CommandState) (source : String)
      (metadata : Option Dict)
      → Keeps (Within Lifecycle d) (transition_command env command_id s source metadata)
  Keeps-transition_command env command_id s source metadata = record {
    at = λ x h. record {
      working =
          Lifecycle-trans d x.working
            (transition_command env command_id s source metadata x).1.working h.working
            (transition_command-Lifecycle env command_id s source metadata x);
      committed = rw (committed-transition_command env s source metadata command_id x) h.committed;
    };
  }

  pub Keeps-other_tables :
      (f : Database → Database)
      → ((db : Database) → (f db).commands ≡ db.commands)
      → ((db : Database) → (f db).state_events ≡ db.state_events)
      → Keeps (Within Lifecycle d) (modify f)
  Keeps-other_tables f hc he =
      Keeps-modify f Lifecycle-trans (λ db. Lifecycle-other_tables db (f db) (hc db) (he db))

pub ruleset lifecycle_rules = (
  keeps_rules, Keeps-commit, Keeps-call, Keeps-gets_calls, Keeps-transition_command,
  Keeps-other_tables,
)
